-- ===== src/Checksum.antt =====
-- util/checksum.hh: the Internet checksum.
pub mod Sum
mod Tests
use networkinglab.Base.{
  ℕ, zero, suc, ◌+◌, ◌-◌, ◌*◌, ◌/◌, ◌%◌, Bool, true, false, not, List, [], ◌∷◌, ltb, if◌then◌else◌,
  u32_mod,
}

pub record InternetChecksum : Type 0 where
  pub sum : ℕ
  pub parity : Bool

-- InternetChecksum::InternetChecksum.
abbrev pub init : ℕ → InternetChecksum
init sum = record { sum = sum; parity = false }

-- A round of InternetChecksum::add: every other byte is the high one of its sixteen bits.
unfoldable pub add_byte : InternetChecksum → ℕ → InternetChecksum
add_byte c i = record {
  sum = (c.sum + (if c.parity then i else i * 256)) % u32_mod;
  parity = not c.parity;
}

-- InternetChecksum::add.
unfoldable pub add : InternetChecksum → List ℕ → InternetChecksum
add c [] = c
add c (i ∷ str) = add (add_byte c i) str

-- InternetChecksum::add for a vector.
unfoldable pub add_all : InternetChecksum → List (List ℕ) → InternetChecksum
add_all c [] = c
add_all c (x ∷ xs) = add_all (add c x) xs

-- The loop of InternetChecksum::value, on fuel.
unfoldable pub fold : ℕ → ℕ → ℕ
fold zero ret = ret
fold (suc fuel) ret =
    let more = fold fuel (ret / 65536 + ret % 65536) in if ltb 0xffff ret then more else ret

-- InternetChecksum::value. Two rounds are enough for 32 bits.
unfoldable pub value : InternetChecksum → ℕ
unfolding fold
value c = 0xffff - fold 2 c.sum % 65536
