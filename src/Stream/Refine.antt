-- ===== src/Stream/Refine.antt =====
-- The byte stream of src/byte_stream.cc beside the bounded pipe, through view.
use networkinglab.Base.{
  drop-min, ℕ, ◌<◌, ◌≡◌, List, ltb, Bool-cases, inl, inr, ltb→lt, ltb→ge, u64_mod, Outcome, Holds,
  ok, ◌>>=◌, arith,
}
use networkinglab.Stream.{ByteStream, push, pop, read}
use networkinglab.Stream.Pipe
use networkinglab.Stream.Pipe.{Pipe}
use networkinglab.Stream.Invariant.{contents, IsValid, HasRoom, push-Pushed, pop-Popped, pop_short}
use networkinglab.Stream.Reading.{read-Reads}

abbrev pub view : ByteStream → Pipe
view s = record {
  capacity = s.capacity;
  bytes = contents s;
  popped = s.bytes_popped;
  closed = s.is_closed;
  failed = s.has_error;
}

-- On a valid stream whose counters do not come near 2^64, push adds as much of the string as there
-- is room for to the end of what waits, changes neither the popped count nor the capacity nor the
-- flags, and leaves the stream valid.
pub push_refines :
    (s : ByteStream) (str : List ℕ)
    → IsValid s
    → HasRoom s
    → (view (push s str) ≡ Pipe.push (view s) str) × IsValid (push s str)
unfolding Pipe.push
push_refines s str v r =
    (ground (arith, push-Pushed s str v r, v.counted), (push-Pushed s str v r).valid)

-- A view of what a call left, if it did not throw.
abbrev pub viewed : Outcome ByteStream → Outcome Pipe
viewed m = m >>= λ t. ok (view t)

-- On a valid stream with fewer than 2^64 bytes pushed, pop throws out_of_range if fewer than `len`
-- bytes wait, and otherwise removes the first `len` bytes and counts them as popped, the capacity
-- and the flags as they were, and leaves the stream valid, with the right number of bytes
-- buffered.
pub pop_refines :
    (s : ByteStream) (len : ℕ)
    → IsValid s
    → s.bytes_pushed < u64_mod
    → (viewed (pop s len) ≡ Pipe.pop (view s) len) × Holds IsValid (pop s len)
unfolding Pipe.pop
pop_refines s len v w = elim (Bool-cases (ltb s.bytes_buffered len)) [
  | inl e ↦ rw (pop_short s len (ltb→lt _ _ e)) (ground (arith, v.counted), tt)
  | inr e ↦
      let (t, p, q) = pop-Popped s len v w (ltb→ge _ _ e) in
      rw p (ground (arith, q.removed, q.popped, v.counted), q.valid)
]

-- On a valid stream with fewer than 2^64 bytes pushed, read comes to an end and does not throw; it
-- returns the first `len` bytes that wait, or all if there are fewer, and leaves the stream
-- without them, the popped bytes counted, and the capacity and the flags as they were.
pub read_refines :
    (s : ByteStream) (len : ℕ)
    → IsValid s
    → s.bytes_pushed < u64_mod
    → (read s len >>= λ r. ok (r.0, view r.1)) ≡ ok (Pipe.read (view s) len)
unfolding Pipe.read
read_refines s len v w =
    let (t, p, q) = read-Reads s len v w in
    rw p (ground (arith, q.removed, q.popped, drop-min len (contents s)))
