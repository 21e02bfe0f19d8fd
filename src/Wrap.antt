-- ===== src/Wrap.antt =====
-- src/wrapping_integers.{hh,cc}: 32-bit sequence numbers that wrap. A Wrap32 is its raw value.
pub mod Laws
mod Tests
use networkinglab.Base.{
  ℕ, ◌+◌, ◌%◌, ◌^◌, Bool, ◌||◌, leb, ltb, ◌==◌, if◌then◌else◌, add32, sub32, add64, sub64, u32_mod,
}

abbrev pub Wrap32 : Type 0
Wrap32 = ℕ

-- Wrap32::operator+, whose argument is a uint32_t.
unfoldable pub plus : Wrap32 → ℕ → Wrap32
plus a n = add32 a n

-- Wrap32::operator==.
pub equals : Wrap32 → Wrap32 → Bool
equals a b = a == b

-- Wrap32::wrap: the uint64_t is converted to the uint32_t that operator+ takes.
unfoldable pub wrap : ℕ → Wrap32 → Wrap32
unfolding plus
wrap n zero_point = plus zero_point (n % u32_mod)

-- Wrap32::unwrap.
unfoldable pub unwrap : Wrap32 → Wrap32 → ℕ → ℕ
unwrap raw zero_point checkpoint =
    let offset = sub32 raw (wrap checkpoint zero_point) in
    if leb offset (2 ^ 31) || ltb (add64 checkpoint offset) (2 ^ 32)
    then add64 checkpoint offset
    else sub64 (add64 checkpoint offset) (2 ^ 32)
