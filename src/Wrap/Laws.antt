-- ===== src/Wrap/Laws.antt =====
-- Wrap32::wrap and Wrap32::unwrap of src/wrapping_integers.cc, against one another and against the
-- checkpoint.
use networkinglab.Base.{
  ℕ, ◌+◌, ◌-◌, ◌%◌, ◌^◌, ◌≤◌, ◌<◌, ◌≡◌, refl, leb, ltb, if◌then◌else◌, ◌||◌, add32, sub32, add64-eq,
  sub64-eq, u32_mod, u64_mod, arith,
}
use networkinglab.Wrap.{Wrap32, plus, wrap, unwrap}

pub wrap-eq : (n : ℕ) (zero_point : Wrap32) → wrap n zero_point ≡ (zero_point + n) % u32_mod
unfolding wrap plus add32
wrap-eq n zero_point = omega arith

-- How far a number is from another.
abbrev pub dist : ℕ → ℕ → ℕ
dist a b = (a - b) + (b - a)

abbrev offset_of : Wrap32 → Wrap32 → ℕ → ℕ
offset_of raw zero_point checkpoint = sub32 raw (wrap checkpoint zero_point)

offset_lem :
    (raw zp c : ℕ)
    → raw < u32_mod
    → zp < u32_mod
    → ((zp + (c + offset_of raw zp c)) % u32_mod ≡ raw) × (offset_of raw zp c < u32_mod)
unfolding sub32
offset_lem raw zp c h k = omega (arith, wrap-eq c zp)

module _ (raw zp c : ℕ) (w : raw < u32_mod) (z : zp < u32_mod) where
  -- unwrap, where the checkpoint is 2^32 or more below the end of uint64_t.
  abbrev answer : ℕ → ℕ
  answer o = if leb o (2 ^ 31) || ltb (c + o) (2 ^ 32) then c + o else c + o - 2 ^ 32

  unwrap-answer : c + u32_mod ≤ u64_mod → unwrap raw zp c ≡ answer (offset_of raw zp c)
  unfolding unwrap
  unwrap-answer h =
      rw (add64-eq c (offset_of raw zp c) (omega (arith, offset_lem raw zp c w z)))
        (ground (arith, sub64-eq (c + offset_of raw zp c) (2 ^ 32), offset_lem raw zp c w z))

  -- For 32-bit raw values and zero points and a checkpoint of at most 2^64 - 2^32, what unwrap
  -- gives wraps to the raw value.
  pub wrap-unwrap : c + u32_mod ≤ u64_mod → wrap (unwrap raw zp c) zp ≡ raw
  wrap-unwrap h =
      rw (unwrap-answer h, wrap-eq (answer (offset_of raw zp c)) zp)
        (ground (arith, offset_lem raw zp c w z))

  -- For 32-bit raw values and zero points and a checkpoint of at most 2^64 - 2^32, no number that
  -- wraps to the raw value is nearer to the checkpoint than the one that unwrap gives.
  pub unwrap-nearest :
      c + u32_mod ≤ u64_mod → (n : ℕ) → wrap n zp ≡ raw → dist (unwrap raw zp c) c ≤ dist n c
  unwrap-nearest h n e =
      rw (unwrap-answer h) (ground (arith, offset_lem raw zp c w z, wrap-eq n zp))

-- A number less than 2^31 away from the checkpoint comes back from wrap and unwrap, where the zero
-- point is below 2^32 and the checkpoint at most 2^64 - 2^32.
pub unwrap-wrap :
    (n zp c : ℕ)
    → zp < u32_mod
    → c + u32_mod ≤ u64_mod
    → dist n c < 2 ^ 31
    → unwrap (wrap n zp) zp c ≡ n
unwrap-wrap n zp c z h near = omega (
  arith,
  wrap-eq n zp,
  wrap-eq (unwrap (wrap n zp) zp c) zp,
  wrap-unwrap (wrap n zp) zp c raw z h,
  unwrap-nearest (wrap n zp) zp c raw z h n refl,
)
  where
    raw : wrap n zp < u32_mod
    raw = omega (arith, wrap-eq n zp)
