-- ===== src/Reassembler/Layout.antt =====
-- The list of substrings of src/reassembler.hh: how its nodes lie, and which bytes they hold.
use networkinglab.Base.{
  ℕ, zero, suc, ◌+◌, ◌-◌, ◌≤◌, ◌<◌, ◌≡◌, Bool, false, ◌&&◌, ◌||◌, Option, none, some, List, [], ◌∷◌,
  ◌++◌, leb, ltb, length, take, drop, arith, subst, refl, sym, ap₂, ◌∙◌,
}
use networkinglab.Reassembler.{Substring}

-- The index behind the last byte of a node.
abbrev pub finish : Substring → ℕ
finish n = n.start + length n.bytes

abbrev pub finish_of : Option Substring → ℕ
finish_of none = 0
finish_of (some p) = finish p

-- The nodes are not empty, begin at `lo` or later, end at `hi` or before, and do not overlap.
abbrev pub Ordered : ℕ → ℕ → List Substring → Type 0
Ordered lo hi [] = Unit {0}
Ordered lo hi (n ∷ ns) =
    (lo ≤ n.start) × (0 < length n.bytes) × (finish n ≤ hi) × Ordered (finish n) hi ns

-- The number of bytes in the nodes.
abbrev pub total : List Substring → ℕ
total [] = 0
total (n ∷ ns) = length n.bytes + total ns

-- Is byte `i` of the whole stream in the node, in one of the nodes?
abbrev pub holds : ℕ → Substring → Bool
holds i n = leb n.start i && ltb i (n.start + length n.bytes)

abbrev pub holds_of : ℕ → Option Substring → Bool
holds_of i none = false
holds_of i (some p) = holds i p

abbrev pub covers : ℕ → List Substring → Bool
covers i [] = false
covers i (n ∷ ns) = holds i n || covers i ns

-- The bytes are those of the whole stream `whole` from index `i` on.
abbrev pub Agrees : (ℕ → ℕ) → ℕ → List ℕ → Type 0
Agrees whole i [] = Unit {0}
Agrees whole i (x ∷ xs) = (x ≡ whole i) × Agrees whole (suc i) xs

abbrev pub AllAgree : (ℕ → ℕ) → List Substring → Type 0
AllAgree whole [] = Unit {0}
AllAgree whole (n ∷ ns) = Agrees whole n.start n.bytes × AllAgree whole ns

module _ (whole : ℕ → ℕ) where
  pub Agrees-at : (i j : ℕ) (xs : List ℕ) → i ≡ j → Agrees whole i xs → Agrees whole j xs
  Agrees-at i j xs e = subst (λ k. Agrees whole k xs) e

  pub Agrees-drop : (k i : ℕ) (xs : List ℕ) → Agrees whole i xs → Agrees whole (i + k) (drop k xs)
  Agrees-drop zero i xs h = Agrees-at i (i + 0) xs (omega arith) h
  Agrees-drop (suc k) i [] h = tt
  Agrees-drop (suc k) i (x ∷ xs) h =
      Agrees-at (suc i + k) (i + suc k) (drop k xs) (omega arith) (Agrees-drop k (suc i) xs h.1)

  pub Agrees-take : (k i : ℕ) (xs : List ℕ) → Agrees whole i xs → Agrees whole i (take k xs)
  Agrees-take zero i xs h = tt
  Agrees-take (suc k) i [] h = tt
  Agrees-take (suc k) i (x ∷ xs) h = (h.0, Agrees-take k (suc i) xs h.1)

  pub Agrees-append :
      (i : ℕ) (xs ys : List ℕ)
      → Agrees whole i xs
      → Agrees whole (i + length xs) ys
      → Agrees whole i (xs ++ ys)
  Agrees-append i [] ys h k = Agrees-at (i + 0) i ys (omega arith) k
  Agrees-append i (x ∷ xs) ys h k = (
    h.0,
    Agrees-append (suc i) xs ys h.1
        (Agrees-at (i + suc (length xs)) (suc i + length xs) ys (omega arith) k),
  )

  pub Agrees-front : (i : ℕ) (xs ys : List ℕ) → Agrees whole i (xs ++ ys) → Agrees whole i xs
  Agrees-front i [] ys h = tt
  Agrees-front i (x ∷ xs) ys h = (h.0, Agrees-front (suc i) xs ys h.1)

  pub Agrees-back :
      (i : ℕ) (xs ys : List ℕ) → Agrees whole i (xs ++ ys) → Agrees whole (i + length xs) ys
  Agrees-back i [] ys h = Agrees-at i (i + 0) ys (omega arith) h
  Agrees-back i (x ∷ xs) ys h =
      Agrees-at (suc i + length xs) (i + suc (length xs)) ys (omega arith)
        (Agrees-back (suc i) xs ys h.1)

  -- The shorter of two pieces that begin at the same index is a prefix of the other.
  pub Agrees-prefix :
      (i : ℕ) (xs ys : List ℕ)
      → Agrees whole i xs
      → Agrees whole i ys
      → length xs ≤ length ys
      → xs ≡ take (length xs) ys
  Agrees-prefix i [] ys h k l = refl
  Agrees-prefix i (x ∷ xs) [] h k l = absurd (omega arith)
  Agrees-prefix i (x ∷ xs) (y ∷ ys) h k l =
      ap₂ (λ b bs. b ∷ bs) (h.0 ∙ sym k.0) (Agrees-prefix (suc i) xs ys h.1 k.1 (omega arith))

-- The stream that begins with the bytes, and goes on with zeros.
abbrev pub stream_of : List ℕ → ℕ → ℕ
stream_of [] i = 0
stream_of (x ∷ xs) zero = x
stream_of (x ∷ xs) (suc i) = stream_of xs i

Agrees-shift :
    (whole : ℕ → ℕ) (i : ℕ) (xs : List ℕ)
    → Agrees (λ j. whole (suc j)) i xs
    → Agrees whole (suc i) xs
Agrees-shift whole i [] h = tt
Agrees-shift whole i (x ∷ xs) h = (h.0, Agrees-shift whole (suc i) xs h.1)

pub stream_of-Agrees : (xs : List ℕ) → Agrees (stream_of xs) 0 xs
stream_of-Agrees [] = tt
stream_of-Agrees (x ∷ xs) = (refl, Agrees-shift (stream_of (x ∷ xs)) 0 xs (stream_of-Agrees xs))

-- Moving the bounds apart keeps the order.
pub Ordered-mono :
    (ns : List Substring) {lo lo' hi hi' : ℕ}
    → lo' ≤ lo
    → hi ≤ hi'
    → Ordered lo hi ns
    → Ordered lo' hi' ns
Ordered-mono [] p q h = tt
Ordered-mono (n ∷ ns) p q h = (omega arith, h.1, omega arith, Ordered-mono ns (omega arith) q h.3)

-- The nodes lie apart, so their bytes fit between the bounds.
pub total-le : (ns : List Substring) {lo hi : ℕ} → lo ≤ hi → Ordered lo hi ns → total ns ≤ hi - lo
total-le [] p h = omega arith
total-le (n ∷ ns) p h = omega (arith, total-le ns h.2 h.3)
