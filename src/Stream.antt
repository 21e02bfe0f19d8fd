-- ===== src/Stream.antt =====
-- src/byte_stream.{hh,cc} and src/byte_stream_helpers.cc: the byte stream, its Writer and Reader.
-- The strings of the queue stand front first. A method that changes the stream returns the new one.
pub mod Pipe
pub mod Invariant
pub mod Reading
pub mod Refine
mod Tests
use networkinglab.Base.{
  ℕ, zero, suc, ◌-◌, Bool, true, false, ◌&&◌, ◌||◌, not, List, [], ◌∷◌, ◌++◌, leb, ltb, ◌==◌,
  if◌then◌else◌, length, is_empty, take, drop, add64, sub64, Outcome, ok, out_of_range,
  runtime_error, undefined, no_fuel, ◌>>=◌,
}

pub record ByteStream : Type 0 where
  pub capacity : ℕ
  pub buffer : List (List ℕ)
  pub bytes_pushed : ℕ
  pub bytes_popped : ℕ
  pub bytes_buffered : ℕ
  pub is_closed : Bool
  pub has_error : Bool

-- ByteStream::ByteStream.
unfoldable pub init : ℕ → ByteStream
init capacity = record {
  capacity = capacity;
  buffer = [];
  bytes_pushed = 0;
  bytes_popped = 0;
  bytes_buffered = 0;
  is_closed = false;
  has_error = false;
}

-- Writer::available_capacity.
unfoldable pub available_capacity : ByteStream → ℕ
available_capacity s = sub64 s.capacity s.bytes_buffered

-- The end of Writer::push: the counters and the queue.
unfoldable pub push_string : ByteStream → List ℕ → ByteStream
push_string s str = record s {
  bytes_pushed = add64 s.bytes_pushed (length str);
  bytes_buffered = add64 s.bytes_buffered (length str);
  buffer = s.buffer ++ (str ∷ []);
}

-- data.substr( 0, available_capacity() ), where the string is too long.
unfoldable pub fit : ℕ → List ℕ → List ℕ
fit room str = if ltb room (length str) then take room str else str

-- Writer::push.
unfoldable pub push : ByteStream → List ℕ → ByteStream
push s str =
    if is_empty str || (available_capacity s == 0)
    then s
    else push_string s (fit (available_capacity s) str)

-- Writer::close.
unfoldable pub close : ByteStream → ByteStream
close s = record s { is_closed = true }

-- Writer::set_error.
unfoldable pub set_error : ByteStream → ByteStream
set_error s = record s { has_error = true }

unfoldable pub front : List (List ℕ) → Outcome (List ℕ)
front [] = undefined
front (c ∷ cs) = ok c

-- Reader::peek.
unfoldable pub peek : ByteStream → Outcome (List ℕ)
unfolding front
peek s = front s.buffer

-- Reader::is_finished.
unfoldable pub is_finished : ByteStream → Bool
is_finished s = s.is_closed && (s.bytes_buffered == 0)

-- The loop of Reader::pop. It stops at the empty queue whatever front() gave there.
unfoldable pub pop_strings : ℕ → List (List ℕ) → ℕ × List (List ℕ)
pop_strings len [] = (len, [])
pop_strings len (c ∷ cs) = elim (leb (length c) len) [
  | true ↦ pop_strings (len - length c) cs
  | false ↦ (len, c ∷ cs)
]

-- buffer_.front().erase( 0, len ), if bytes are left to pop.
unfoldable pub erase_front : ℕ × List (List ℕ) → Outcome (List (List ℕ))
erase_front (zero, cs) = ok cs
erase_front (suc len, []) = undefined
erase_front (suc len, c ∷ cs) = ok (drop (suc len) c ∷ cs)

-- Reader::pop.
unfoldable pub pop : ByteStream → ℕ → Outcome ByteStream
pop s len =
    if ltb s.bytes_buffered len
    then out_of_range
    else (erase_front (pop_strings len s.buffer) >>= λ cs. ok (record s {
      bytes_popped = add64 s.bytes_popped len;
      bytes_buffered = sub64 s.bytes_buffered len;
      buffer = cs;
    }))

-- The loop of read(), on fuel: `out` is what has been read.
unfoldable pub read_loop : ℕ → ByteStream → ℕ → List ℕ → Outcome (List ℕ × ByteStream)
read_loop zero s len out = no_fuel
read_loop (suc fuel) s len out = elim (not (s.bytes_buffered == 0) && ltb (length out) len) [
  | false ↦ ok (out, s)
  | true ↦ peek s >>= λ view. elim (is_empty view) [
    | true ↦ runtime_error
    | false ↦
        let part = take (len - length out) view in
        pop s (length part) >>= λ s'. read_loop fuel s' len (out ++ part)
  ]
]

-- read(): each round reads a byte at least, so `len` rounds and the last test are enough.
unfoldable pub read : ByteStream → ℕ → Outcome (List ℕ × ByteStream)
read s len = read_loop (suc len) s len []
