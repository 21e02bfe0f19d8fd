-- ===== src/Checksum/Sum.antt =====
-- util/checksum.hh: the sum, its folding, and what a right checksum adds up to.
use networkinglab.Base.{
  ℕ, ◌+◌, ◌*◌, ◌/◌, ◌%◌, ◌≤◌, ◌<◌, ◌≡◌, refl, sym, ◌∙◌, Bool, not, List, [], ◌∷◌, ◌++◌, concat,
  u32_mod, arith, if◌then◌else◌, Bool-cases, inl, inr, ltb, ◌⊎◌, ge→ltb, lt→ltb, ltb→lt, ltb→ge,
  ◌==◌, ==→eq, ==→ne,
}
use networkinglab.Checksum.{InternetChecksum, add_byte, add, add_all, fold, value}

-- What the bytes add to the sum, from a position of the given parity.
abbrev pub weight : Bool → List ℕ → ℕ
weight parity [] = 0
weight parity (i ∷ str) = (if parity then i else i * 256) + weight (not parity) str

abbrev pub flip : Bool → List ℕ → Bool
flip parity [] = parity
flip parity (i ∷ str) = flip (not parity) str

pub add-weight :
    (c : InternetChecksum) (str : List ℕ)
    → c.sum + weight c.parity str < u32_mod
    → add c str ≡ record { sum = c.sum + weight c.parity str; parity = flip c.parity str }
unfolding add add_byte
add-weight c [] h = ground arith
add-weight c (i ∷ str) h =
    let small : (add_byte c i).sum ≡ c.sum + (if c.parity then i else i * 256) = omega (arith, h) in
    add-weight (add_byte c i) str (rw small (omega (arith, h))) ∙ ground (arith, small)

pub add-append : (c : InternetChecksum) (xs ys : List ℕ) → add c (xs ++ ys) ≡ add (add c xs) ys
unfolding add
add-append c [] ys = refl
add-append c (x ∷ xs) ys = add-append (add_byte c x) xs ys

-- How the bytes are cut makes no difference.
pub add_all-concat : (c : InternetChecksum) (xs : List (List ℕ)) → add_all c xs ≡ add c (concat xs)
unfolding add_all add
add_all-concat c [] = refl
add_all-concat c (x ∷ xs) = add_all-concat (add c x) xs ∙ sym (add-append c x (concat xs))

-- A round of the folding.
abbrev round : ℕ → ℕ
round n = n / 65536 + n % 65536

fold-small : (n : ℕ) → n ≤ 0xffff → fold 2 n ≡ n
unfolding fold
fold-small n h = rw (fold, ge→ltb 0xffff n h)

fold-once : (n : ℕ) → 0xffff < n → round n ≤ 0xffff → fold 2 n ≡ round n
unfolding fold
fold-once n h k = rw (fold, lt→ltb 0xffff n h, ge→ltb 0xffff (round n) k)

fold-twice : (n : ℕ) → 0xffff < n → 0xffff < round n → fold 2 n ≡ round (round n)
unfolding fold
fold-twice n h k = rw (fold, lt→ltb 0xffff n h, lt→ltb 0xffff (round n) k)

-- `m` has sixteen bits, stands for the number `n` modulo 65535, and is zero only if `n` is.
pub record Folds (n m : ℕ) : Type 0 where
  pub word : m ≤ 0xffff
  pub same : m % 65535 ≡ n % 65535
  pub zero_only : (n ≡ 0) ⊎ (0 < m)

-- For a sum of 32 bits two rounds of the loop are enough: what they give fits sixteen bits, is the
-- same modulo 65535, and is zero only if the sum is.
pub fold-Folds : (n : ℕ) → n < u32_mod → Folds n (fold 2 n)
fold-Folds n h = elim (Bool-cases (ltb 0xffff n)) [
  | inr e ↦ rw (fold-small n (ltb→ge _ _ e)) (record {
    word = ltb→ge _ _ e;
    same = refl;
    zero_only = elim (Bool-cases (n == 0)) [
      | inl z ↦ inl (==→eq n 0 z)
      | inr z ↦ inr (omega (arith, ==→ne n 0 z))
    ];
  })
  | inl e ↦ elim (Bool-cases (ltb 0xffff (round n))) [
    | inr d ↦ rw (fold-once n (ltb→lt _ _ e) (ltb→ge _ _ d)) (record {
      word = ltb→ge _ _ d;
      same = omega arith;
      zero_only = inr (omega (arith, ltb→lt _ _ e));
    })
    | inl d ↦ rw (fold-twice n (ltb→lt _ _ e) (ltb→lt _ _ d)) (record {
      word = omega (arith, h, ltb→lt _ _ d);
      same = omega arith;
      zero_only = inr (omega (arith, ltb→lt _ _ e));
    })
  ]
]

-- A checksum of zero says that the sum is a positive multiple of 65535.
value-zero : (c : InternetChecksum) → c.sum < u32_mod → 0 < c.sum → c.sum % 65535 ≡ 0 → value c ≡ 0
unfolding value
value-zero c h k m =
    omega (arith, (fold-Folds c.sum h).word, (fold-Folds c.sum h).same, m, positive)
  where
    positive : 0 < fold 2 c.sum
    positive = elim (fold-Folds c.sum h).zero_only [
      | inl z ↦ absurd (omega (arith, z, k))
      | inr z ↦ z
    ]

-- What a sum and its checksum add up to is verified.
pub value-verifies :
    (n total : ℕ) (parity parity' : Bool)
    → total < u32_mod
    → n < u32_mod
    → total ≡ n + value (record { sum = n; parity = parity })
    → 0 < n
    → value (record { sum = total; parity = parity' }) ≡ 0
unfolding value
value-verifies n total parity parity' h k e pos =
    value-zero (record { sum = total; parity = parity' }) h (omega (arith, e, pos))
      (omega (arith, e, (fold-Folds n k).word, (fold-Folds n k).same))
