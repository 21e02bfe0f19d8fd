-- ===== src/Stream/Pipe.antt =====
-- What src/byte_stream.hh promises of a ByteStream: a pipe of at most `capacity` bytes, first in
-- first out, which counts what has gone through it.
use networkinglab.Base.{
  ℕ, ◌+◌, ◌-◌, Bool, List, ◌++◌, ltb, if◌then◌else◌, length, take, drop, min, Outcome, ok,
  out_of_range,
}

pub record Pipe : Type 0 where
  pub capacity : ℕ
  pub bytes : List ℕ
  pub popped : ℕ
  pub closed : Bool
  pub failed : Bool

-- As much of the string as there is room for goes to the end.
unfoldable pub push : Pipe → List ℕ → Pipe
push p str = record p { bytes = p.bytes ++ take (p.capacity - length p.bytes) str }

-- The first `len` bytes leave, or none if there are fewer.
unfoldable pub pop : Pipe → ℕ → Outcome Pipe
pop p len =
    if ltb (length p.bytes) len
    then out_of_range
    else ok (record p { bytes = drop len p.bytes; popped = p.popped + len })

-- At most `len` bytes leave, and are handed over.
unfoldable pub read : Pipe → ℕ → List ℕ × Pipe
read p len = (
  take len p.bytes,
  record p { bytes = drop len p.bytes; popped = p.popped + min len (length p.bytes) },
)
