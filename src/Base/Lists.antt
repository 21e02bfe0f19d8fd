-- ===== src/Base/Lists.antt =====
-- Lists measured and cut by native numbers, under the library's names.
use Prim.Native.Nat.{ℕ, zero, suc, ◌+◌, ◌-◌, ◌≤◌, ◌<◌, min}
use mathlib.Core.Path.{◌≡◌, refl, ap, sym, ◌∙◌}
use mathlib.Core.Bool.{Bool, true, false}
use mathlib.Core.List.{List, [], ◌∷◌, ◌++◌, append_assoc}
use native.Mathlib.Omega.{arith}

module _ {ℓ} {A : Type ℓ} where
  abbrev pub length : List A → ℕ
  length [] = 0
  length (x ∷ xs) = suc (length xs)

  abbrev pub is_empty : List A → Bool
  is_empty [] = true
  is_empty (x ∷ xs) = false

  abbrev pub take : ℕ → List A → List A
  take zero xs = []
  take (suc n) [] = []
  take (suc n) (x ∷ xs) = x ∷ take n xs

  abbrev pub drop : ℕ → List A → List A
  drop zero xs = xs
  drop (suc n) [] = []
  drop (suc n) (x ∷ xs) = drop n xs

  abbrev pub replicate : ℕ → A → List A
  replicate zero a = []
  replicate (suc n) a = a ∷ replicate n a

  -- The strings of a queue, end to end.
  abbrev pub concat : List (List A) → List A
  concat [] = []
  concat (c ∷ cs) = c ++ concat cs

module _ {ℓ} {A : Type ℓ} where
  pub length-append : (xs ys : List A) → length (xs ++ ys) ≡ length xs + length ys
  length-append [] ys = omega arith
  length-append (x ∷ xs) ys = omega (arith, length-append xs ys)

  pub is_empty_of_lt : (xs : List A) → 0 < length xs → is_empty xs ≡ false
  is_empty_of_lt [] h = elim h [ ]
  is_empty_of_lt (x ∷ xs) h = refl

  pub length-take : (n : ℕ) (xs : List A) → length (take n xs) ≡ min n (length xs)
  length-take zero xs = omega arith
  length-take (suc n) [] = omega arith
  length-take (suc n) (x ∷ xs) = omega (arith, length-take n xs)

  pub length-drop : (n : ℕ) (xs : List A) → length (drop n xs) ≡ length xs - n
  length-drop zero xs = omega arith
  length-drop (suc n) [] = omega arith
  length-drop (suc n) (x ∷ xs) = omega (arith, length-drop n xs)

  pub take_of_length-le : (n : ℕ) (xs : List A) → length xs ≤ n → take n xs ≡ xs
  take_of_length-le zero [] h = refl
  take_of_length-le zero (x ∷ xs) h = elim h [ ]
  take_of_length-le (suc n) [] h = refl
  take_of_length-le (suc n) (x ∷ xs) h = ap (λ ys. x ∷ ys) (take_of_length-le n xs (omega arith))

  pub drop_of_length-le : (n : ℕ) (xs : List A) → length xs ≤ n → drop n xs ≡ []
  drop_of_length-le zero [] h = refl
  drop_of_length-le zero (x ∷ xs) h = elim h [ ]
  drop_of_length-le (suc n) [] h = refl
  drop_of_length-le (suc n) (x ∷ xs) h = drop_of_length-le n xs (omega arith)

  pub drop-append-ge :
      (n : ℕ) (xs ys : List A) → length xs ≤ n → drop n (xs ++ ys) ≡ drop (n - length xs) ys
  drop-append-ge n [] ys h = ap (λ k. drop k ys) (omega arith)
  drop-append-ge zero (x ∷ xs) ys h = elim h [ ]
  drop-append-ge (suc n) (x ∷ xs) ys h =
      drop-append-ge n xs ys (omega arith) ∙ ap (λ k. drop k ys) (omega arith)

  pub drop-append-le :
      (n : ℕ) (xs ys : List A) → n ≤ length xs → drop n (xs ++ ys) ≡ drop n xs ++ ys
  drop-append-le zero xs ys h = refl
  drop-append-le (suc n) [] ys h = elim h [ ]
  drop-append-le (suc n) (x ∷ xs) ys h = drop-append-le n xs ys (omega arith)

  pub take-append-ge :
      (n : ℕ) (xs ys : List A) → length xs ≤ n → take n (xs ++ ys) ≡ xs ++ take (n - length xs) ys
  take-append-ge n [] ys h = ap (λ k. take k ys) (omega arith)
  take-append-ge zero (x ∷ xs) ys h = elim h [ ]
  take-append-ge (suc n) (x ∷ xs) ys h =
      ap (λ zs. x ∷ zs)
        (take-append-ge n xs ys (omega arith) ∙ ap (λ k. xs ++ take k ys) (omega arith))

  pub take-append-le : (n : ℕ) (xs ys : List A) → n ≤ length xs → take n (xs ++ ys) ≡ take n xs
  take-append-le zero xs ys h = refl
  take-append-le (suc n) [] ys h = elim h [ ]
  take-append-le (suc n) (x ∷ xs) ys h = ap (λ zs. x ∷ zs) (take-append-le n xs ys (omega arith))

  pub take-nil : (n : ℕ) → take {A = A} n [] ≡ []
  take-nil n = take_of_length-le n [] (omega arith)

  pub drop-nil : (n : ℕ) → drop {A = A} n [] ≡ []
  drop-nil n = drop_of_length-le n [] (omega arith)

  pub drop-drop : (m n : ℕ) (xs : List A) → drop m (drop n xs) ≡ drop (n + m) xs
  drop-drop m zero xs = ap (λ k. drop k xs) (omega arith)
  drop-drop m (suc n) [] = drop-nil m ∙ sym (drop-nil (suc n + m))
  drop-drop m (suc n) (x ∷ xs) = drop-drop m n xs ∙ ap (λ k. drop k (x ∷ xs)) shift
    where
      shift : suc (n + m) ≡ suc n + m
      shift = omega arith

  -- Cutting `c ++ rest` at `n`, first within `c` and then in what is left.
  pub take-append_front :
      (n : ℕ) (c rest : List A)
      → take n c ++ take (n - length (take n c)) (drop (length (take n c)) (c ++ rest))
        ≡ take n (c ++ rest)
  take-append_front zero c rest = refl
  take-append_front (suc n) [] rest = ap (λ k. take k rest) {y = suc n} (omega arith)
  take-append_front (suc n) (x ∷ c) rest =
      ap (λ k. x ∷ take n c ++ take k (drop (length (take n c)) (c ++ rest))) shift
      ∙ ap (λ ys. x ∷ ys) (take-append_front n c rest)
    where
      shift : suc n - suc (length (take n c)) ≡ n - length (take n c)
      shift = omega arith

  pub take_of_zero : (n : ℕ) (xs : List A) → n ≡ 0 → take n xs ≡ []
  take_of_zero zero xs e = refl
  take_of_zero (suc n) xs e = absurd (omega arith)

  pub take-length-take : (n : ℕ) (xs : List A) → take (length (take n xs)) xs ≡ take n xs
  take-length-take zero xs = refl
  take-length-take (suc n) [] = refl
  take-length-take (suc n) (x ∷ xs) = ap (λ ys. x ∷ ys) (take-length-take n xs)

  pub take_of_min : (n : ℕ) (xs : List A) → min n (length xs) ≡ 0 → take n xs ≡ []
  take_of_min zero xs e = refl
  take_of_min (suc n) [] e = refl
  take_of_min (suc n) (x ∷ xs) e = absurd (omega arith)

  pub drop_of_zero : (n : ℕ) (xs : List A) → n ≡ 0 → drop n xs ≡ xs
  drop_of_zero zero xs e = refl
  drop_of_zero (suc n) xs e = absurd (omega arith)

  pub drop-min : (n : ℕ) (xs : List A) → drop (min n (length xs)) xs ≡ drop n xs
  drop-min n [] = drop-nil (min n 0) ∙ sym (drop-nil n)
  drop-min zero (x ∷ xs) = drop_of_zero (min 0 (length (x ∷ xs))) (x ∷ xs) (omega arith)
  drop-min (suc n) (x ∷ xs) =
      ap (λ k. drop k (x ∷ xs)) {y = suc (min n (length xs))} (omega arith) ∙ drop-min n xs

  pub take-append-drop : (n : ℕ) (xs : List A) → take n xs ++ drop n xs ≡ xs
  take-append-drop zero xs = refl
  take-append-drop (suc n) [] = refl
  take-append-drop (suc n) (x ∷ xs) = ap (λ ys. x ∷ ys) (take-append-drop n xs)

  pub concat-append : (cs ds : List (List A)) → concat (cs ++ ds) ≡ concat cs ++ concat ds
  concat-append [] ds = refl
  concat-append (c ∷ cs) ds = rw (concat-append cs ds, append_assoc)
