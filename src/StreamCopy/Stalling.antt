-- ===== src/StreamCopy/Stalling.antt =====
-- The callbacks that read in apps/bidirectional_stream_copy.cc where there is nothing to read, with
-- FileDescriptor::read and FileDescriptor::write of util/file_descriptor.cc.
use networkinglab.Base.{
  ℕ, ◌+◌, ◌-◌, ◌<◌, ◌≡◌, refl, ap, ◌∙◌, true, false, Bool, ◌||◌, List, [], ◌∷◌, ◌++◌, length,
  take_of_length-le, replicate, if◌then◌else◌, u64_mod, ok, runtime_error, arith,
}
use networkinglab.Stream
use networkinglab.Stream.{ByteStream, available_capacity}
use networkinglab.Stream.Invariant.{contents, IsValid, available_capacity-eq, Pushed, push-Pushed}
use networkinglab.Descriptor.{Errno, failed, FdWrapper, would_block}
use networkinglab.Descriptor
use networkinglab.StreamCopy.{Flow, take_in}
use networkinglab.StreamCopy.Flowing.{length-replicate, is_empty-replicate}

-- A read that would block gives the buffer back as it was.
read-stalled :
    (d : FdWrapper) (e : Errno) (n : ℕ)
    → d.non_blocking ≡ true
    → would_block e ≡ true
    → 0 < n
    → Descriptor.read d (replicate n 0) (failed e) ≡ ok (replicate n 0, d)
unfolding Descriptor.read
read-stalled d e n b w h = rw (b, w, is_empty-replicate n 0 h) refl

contents-closed :
    (b : Bool) (s : ByteStream) → contents (if b then Stream.close s else s) ≡ contents s
unfolding Stream.close
contents-closed true s = refl
contents-closed false s = refl

-- If a read on a descriptor that does not block would block, and the stream is valid with room
-- left and counters that do not pass 2^64, then the callback does not throw, and pushes a zero
-- byte for each byte that the stream has room for.
pub take_in-stalled :
    (d : FdWrapper) (f : Flow) (e : Errno)
    → d.non_blocking ≡ true
    → would_block e ≡ true
    → IsValid f.stream
    → f.stream.bytes_popped + f.stream.capacity < u64_mod
    → f.stream.bytes_buffered < f.stream.capacity
    → (g : Flow) × (take_in d f (failed e) ≡ ok (d, g))
      × (contents g.stream
          ≡ contents f.stream ++ replicate (f.stream.capacity - f.stream.bytes_buffered) 0)
unfolding take_in
take_in-stalled d f e b w v wide open_ = (
  record f {
    stream = if d.eof then Stream.close filled else filled;
    taken = f.taken ++ [];
    stalled = f.stalled || true;
  },
  rw (read-stalled d e (available_capacity f.stream) b w (omega (arith, room))) refl,
  contents-closed d.eof filled
      ∙ p.appended
      ∙ ap (λ ys. contents f.stream ++ ys)
          (take_of_length-le n (replicate (available_capacity f.stream) 0)
              (omega (arith, room, length-replicate (available_capacity f.stream) 0))
            ∙ ap (λ k. replicate k 0) room),
)
  where
    n : ℕ
    n = f.stream.capacity - f.stream.bytes_buffered

    room : available_capacity f.stream ≡ n
    room = available_capacity-eq f.stream v wide

    filled : ByteStream
    filled = Stream.push f.stream (replicate (available_capacity f.stream) 0)

    p : Pushed f.stream filled (replicate (available_capacity f.stream) 0)
    p = push-Pushed f.stream (replicate (available_capacity f.stream) 0) v wide

-- A write that would block throws, unless there was nothing to write.
pub write-stalled :
    (d : FdWrapper) (e : Errno) (c : List ℕ)
    → d.non_blocking ≡ true
    → would_block e ≡ true
    → 0 < length c
    → Descriptor.write d c (failed e) ≡ runtime_error
unfolding Descriptor.write Descriptor.write_vector Descriptor.check_system_call
write-stalled d e [] b w h = elim h [ ]
write-stalled d e (x ∷ xs) b w h = rw (b, w) (ground arith)
