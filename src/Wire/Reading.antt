-- ===== src/Wire/Reading.antt =====
-- What a BufferList of util/parser.hh has before it, and what reading a byte takes from it.
use networkinglab.Base.{
  ℕ, zero, suc, ◌+◌, ◌-◌, ◌*◌, ◌≤◌, ◌<◌, min, ◌≡◌, refl, sym, ap, subst, ◌∙◌, true, false, List, [],
  ◌∷◌, ◌++◌, Outcome, ok, length, drop, drop-drop, drop_of_length-le, length-drop, concat, ◌==◌,
  Bool-cases, inl, inr, ==→eq, ==→ne, ge→ltb, sub64, sub64-eq, u64_mod, arith,
}
use networkinglab.Wire.{BufferList, substr, peek, front, remove_loop, remove_prefix, read_bytes}

-- The strings that are left, the front one without what has been skipped.
abbrev pub chunks : ℕ → List (List ℕ) → List (List ℕ)
chunks skip [] = []
chunks skip (c ∷ cs) = drop skip c ∷ cs

-- `n` bytes can be read, and no empty string stands before one of them.
abbrev pub Fluent : ℕ → List (List ℕ) → Type 0
Fluent n [] = n ≡ 0
Fluent n (c ∷ cs) = (0 < n → 0 < length c) × Fluent (n - length c) cs

-- No more of the front string has been skipped than it has.
abbrev pub Within : ℕ → List (List ℕ) → Type 0
Within skip [] = skip ≡ 0
Within skip (c ∷ cs) = skip ≤ length c

-- The bytes `bs` are next, and can be read one after the other; `rest` comes behind them.
pub record Holds (b : BufferList) (bs rest : List ℕ) : Type 0 where
  pub bytes : concat (chunks b.skip b.buffer) ≡ bs ++ rest
  pub fluent : Fluent (length bs) (chunks b.skip b.buffer)
  pub within : Within b.skip b.buffer
  pub counted : b.size ≡ length (bs ++ rest)
  pub word : b.size < u64_mod

pub Fluent-resp : {m n : ℕ} (cs : List (List ℕ)) → m ≡ n → Fluent m cs → Fluent n cs
Fluent-resp cs e f = subst (λ k. Fluent k cs) e f

pub Fluent-zero : (cs : List (List ℕ)) → Fluent 0 cs
Fluent-zero [] = refl
Fluent-zero (c ∷ cs) =
    ((λ h. absurd (omega arith)), Fluent-resp {m = 0} cs (omega arith) (Fluent-zero cs))

-- The loop ends at once when no byte is to be removed.
pub remove_loop-zero :
    (size : ℕ) (cs : List (List ℕ)) (skip : ℕ)
    → remove_loop 0 size cs skip ≡ ok (record { size = size; buffer = cs; skip = skip })
unfolding remove_loop
remove_loop-zero size [] skip = refl
remove_loop-zero size (c ∷ cs) skip = refl

pub chunks-zero : (cs : List (List ℕ)) → chunks 0 cs ≡ cs
chunks-zero [] = refl
chunks-zero (c ∷ cs) = refl

pub Within-zero : (cs : List (List ℕ)) → Within 0 cs
Within-zero [] = refl
Within-zero (c ∷ cs) = omega arith

-- A byte is read from a string whose rest is `y ∷ ys`.
module _ (size skip : ℕ) (c : List ℕ) (cs : List (List ℕ)) (y : ℕ) (ys : List ℕ)
    (v : drop skip c ≡ y ∷ ys) (within : skip ≤ length c) (word : size < u64_mod)
    (some_left : 0 < size) where
  left : length c ≡ skip + suc (length ys)
  left = omega (arith, ap length v, length-drop skip c, within)

  rest_of : drop (skip + 1) c ≡ ys
  rest_of = sym (drop-drop 1 skip c) ∙ ap (drop 1) v

  substr_eq : substr skip c ≡ ok (y ∷ ys)
  unfolding substr
  substr_eq = rw (ge→ltb (length c) skip within, v)

  emptied : (skip + 1 == length c) ≡ true → ys ≡ []
  emptied e =
      sym rest_of ∙ drop_of_length-le (skip + 1) c (omega (arith, ==→eq (skip + 1) (length c) e))

  -- A round of the loop that removes `n` bytes.
  abbrev round : ℕ → Outcome BufferList
  unfolding remove_loop
  round n = elim (skip + n == length c) [
    | true ↦ remove_loop (1 - n) (sub64 size n) cs 0
    | false ↦ ok (record { size = sub64 size n; buffer = c ∷ cs; skip = skip + n })
  ]

  first_round : remove_loop 1 size (c ∷ cs) skip ≡ round 1
  unfolding remove_loop
  first_round = rw substr_eq refl ∙ ap round {x = min 1 (length (y ∷ ys))} (omega arith)

  remove_one :
      (b : BufferList) × (remove_loop 1 size (c ∷ cs) skip ≡ ok b)
      × (b.size ≡ size - 1)
      × (concat (chunks b.skip b.buffer) ≡ ys ++ concat cs)
      × Within b.skip b.buffer
      × ((n : ℕ) → Fluent (suc n) ((y ∷ ys) ∷ cs) → Fluent n (chunks b.skip b.buffer))
  unfolding remove_loop
  remove_one = elim (Bool-cases (skip + 1 == length c)) [
    | inl e ↦ (
      record { size = size - 1; buffer = cs; skip = 0 },
      first_round
          ∙ rw (round, e, sub64-eq size 1 some_left word, remove_loop-zero (size - 1) cs 0) refl,
      refl,
      rw (emptied e, chunks-zero cs) refl,
      Within-zero cs,
      λ n h. rw (chunks-zero cs) (Fluent-resp cs (omega (arith, ap length (emptied e))) h.1),
    )
    | inr e ↦ (
      record { size = size - 1; buffer = c ∷ cs; skip = skip + 1 },
      first_round ∙ rw (round, e, sub64-eq size 1 some_left word) refl,
      refl,
      rw rest_of refl,
      omega (arith, left),
      λ n h. (
        (λ k. omega (arith, left, length-drop (skip + 1) c, ==→ne (skip + 1) (length c) e)),
        Fluent-resp cs (omega (arith, left, length-drop (skip + 1) c)) h.1,
      ),
    )
  ]

-- The byte `x` is at the front of `b`, and taking it leaves `more`, with `rest` behind.
abbrev pub Takes : BufferList → ℕ → List ℕ → List ℕ → Type 0
Takes b x more rest =
    (view : List ℕ) × (b' : BufferList) × (peek b ≡ ok view)
    × (front view ≡ ok x)
    × (remove_prefix 1 b ≡ ok b')
    × Holds b' more rest

take_front :
    (size skip : ℕ) (c v : List ℕ) (cs : List (List ℕ)) (x : ℕ) (more rest : List ℕ)
    → drop skip c ≡ v
    → Holds (record { size = size; buffer = c ∷ cs; skip = skip }) (x ∷ more) rest
    → Takes (record { size = size; buffer = c ∷ cs; skip = skip }) x more rest
unfolding peek front remove_prefix
take_front size skip c [] cs x more rest e h =
    absurd (omega (arith, h.fluent.0 (omega arith), ap length e))
take_front size skip c (y ∷ ys) cs x more rest e h =
    let (b, p, q, r, i, f) =
      remove_one size skip c cs y ys e h.within h.word (omega (arith, h.counted)) in
    let joined : y ∷ (ys ++ concat cs) ≡ x ∷ (more ++ rest) =
      ap (λ w. w ++ concat cs) (sym e) ∙ h.bytes in
    (
      y ∷ ys,
      b,
      substr_eq size skip c cs y ys e h.within h.word (omega (arith, h.counted)),
      cc,
      p,
      record {
        bytes = r ∙ (cc);
        fluent = f (length more) (subst (λ w. Fluent (suc (length more)) (w ∷ cs)) e h.fluent);
        within = i;
        counted = omega (arith, q, h.counted);
        word = omega (arith, q, h.word);
      },
    )

take_byte :
    (b : BufferList) (x : ℕ) (more rest : List ℕ) → Holds b (x ∷ more) rest → Takes b x more rest
take_byte b x more rest h = take_any b.size b.skip b.buffer h
  where
    take_any :
        (size skip : ℕ) (cs : List (List ℕ))
        → Holds (record { size = size; buffer = cs; skip = skip }) (x ∷ more) rest
        → Takes (record { size = size; buffer = cs; skip = skip }) x more rest
    take_any size skip [] h = absurd (omega (arith, h.fluent))
    take_any size skip (c ∷ cs) h = take_front size skip c (drop skip c) cs x more rest refl h

-- The number that the bytes stand for behind `out`, the high byte first.
abbrev pub from_bytes : ℕ → List ℕ → ℕ
from_bytes out [] = out
from_bytes out (x ∷ xs) = from_bytes (out * 256 + x) xs

pub read_bytes-Holds :
    (n out : ℕ) (bs : List ℕ) (b : BufferList) (more rest : List ℕ)
    → length bs ≡ n
    → Holds b (bs ++ more) rest
    → (b' : BufferList) × (read_bytes n out b ≡ ok (from_bytes out bs, b')) × Holds b' more rest
unfolding read_bytes
read_bytes-Holds zero out [] b more rest e h = (b, refl, h)
read_bytes-Holds zero out (x ∷ bs) b more rest e h = absurd (omega arith)
read_bytes-Holds (suc n) out [] b more rest e h = absurd (omega arith)
read_bytes-Holds (suc n) out (x ∷ bs) b more rest e h =
    let (view, b', p, q, r, k) = take_byte b x (bs ++ more) rest h in
    let (b'', s, l) = read_bytes-Holds n (out * 256 + x) bs b' more rest (omega arith) k in
    (b'', rw (p, q, r) s, l)
