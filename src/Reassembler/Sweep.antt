-- ===== src/Reassembler/Sweep.antt =====
-- The first loop of Reassembler::insert in src/reassembler.cc behind the new data.
use networkinglab.Base.{
  ℕ, ◌+◌, ◌-◌, ◌≤◌, ◌<◌, ◌≡◌, inl, inr, refl, ap, ◌||◌, Option, none, some, List, [], ◌∷◌, ltb,
  length, drop, length-drop, u64_mod, arith, Bool-cases, ltb→lt, ltb→ge,
}
use networkinglab.Reassembler.{Substring, put, visit, sweep}
use networkinglab.Reassembler.Layout.{
  finish, finish_of, Ordered, total, holds_of, covers, AllAgree, Agrees-drop, Agrees-at,
}
use networkinglab.Reassembler.Visit.{tail_after, visit_first, visit_apart, visit_covered, visit_cut}

-- A loop that met the nodes `ns` behind `prev`, with `k` bytes counted before them, left `r`: disjoint
-- nodes with the count of their bytes, which hold what `ns` held behind `prev`.
pub record Keeps (k hi : ℕ) (prev : Option Substring) (ns : List Substring) (r : List Substring × ℕ)
    : Type 0 where
  pub ordered : Ordered (finish_of prev) hi r.0
  pub counted : r.1 ≡ total r.0 + k
  pub covered : (i : ℕ) → (holds_of i prev || covers i r.0) ≡ (holds_of i prev || covers i ns)
  pub agrees : (whole : ℕ → ℕ) → AllAgree whole ns → AllAgree whole r.0

-- The node before `b` begins there or earlier.
abbrev pub After : ℕ → Option Substring → Type 0
After b none = Unit {0}
After b (some p) = p.start ≤ b

-- What a node and the loop behind it need: the loop keeps `ns` whatever node comes before it.
abbrev pub Rest : ℕ → ℕ → List Substring → (Option Substring → ℕ → List Substring × ℕ) → Type 0
Rest hi b ns rest =
    (p : Substring) (nb k : ℕ)
    → p.start ≤ b
    → finish p ≤ hi
    → nb ≡ total ns + k
    → nb < u64_mod
    → Keeps k hi (some p) ns (rest (some p) nb)

module _ (hi b k nb : ℕ) (n : Substring) (ns : List Substring)
    (rest : Option Substring → ℕ → List Substring × ℕ) (word : hi < u64_mod)
    (ih : Rest hi b ns rest) (early : n.start ≤ b) (full : 0 < length n.bytes)
    (fits : finish n ≤ hi) (nb_eq : nb ≡ length n.bytes + total ns + k)
    (nb_word : nb < u64_mod) where
  put-Keeps :
      (prev : Option Substring)
      → finish_of prev ≤ n.start
      → Keeps k hi prev (n ∷ ns) (put n (rest (some n) nb))
  put-Keeps prev h = record {
    ordered = (h, full, fits, r.ordered);
    counted = omega (arith, r.counted);
    covered = λ i. ap (λ c. holds_of i prev || c) (r.covered i);
    agrees = λ whole a. (a.0, r.agrees whole a.1);
  }
    where
      r : Keeps (length n.bytes + k) hi (some n) ns (rest (some n) nb)
      r = ih n nb (length n.bytes + k) early fits (omega arith) nb_word

  covered-Keeps :
      (p : Substring)
      → p.start ≤ n.start
      → finish p ≤ hi
      → finish n ≤ finish p
      → Keeps k hi (some p) (n ∷ ns) (rest (some p) (nb - length n.bytes))
  covered-Keeps p after fits_p h = record {
    ordered = r.ordered;
    counted = r.counted;
    covered = λ i. ground (arith, r.covered i);
    agrees = λ whole a. r.agrees whole a.1;
  }
    where
      r : Keeps k hi (some p) ns (rest (some p) (nb - length n.bytes))
      r = ih p (nb - length n.bytes) k (omega arith) fits_p (omega arith) (omega arith)

  cut-Keeps :
      (p : Substring)
      → p.start ≤ n.start
      → n.start < finish p
      → finish p < finish n
      → finish p ≤ b
      → Keeps k hi
          (some p)
          (n ∷ ns)
          (put (tail_after p n) (rest (some (tail_after p n)) (nb - (finish p - n.start))))
  cut-Keeps p after h l early_p = record {
    ordered = (omega arith, omega (arith, size), omega (arith, size), r.ordered);
    counted = omega (arith, r.counted, size);
    covered = λ i. ground (arith, r.covered i, size);
    agrees = λ whole a. (
      Agrees-at whole (n.start + (finish p - n.start)) (finish p) _ (omega arith)
          (Agrees-drop whole (finish p - n.start) n.start n.bytes a.0),
      r.agrees whole a.1,
    );
  }
    where
      size : length (drop (finish p - n.start) n.bytes) ≡ length n.bytes - (finish p - n.start)
      size = length-drop (finish p - n.start) n.bytes

      r :
          Keeps
            (length (drop (finish p - n.start) n.bytes) + k)
            hi
            (some (tail_after p n))
            ns
            (rest (some (tail_after p n)) (nb - (finish p - n.start)))
      r = ih (tail_after p n) _ _ early_p (omega (arith, size)) (omega (arith, size)) (omega arith)

  -- Whatever lies before the node, its round and the loop behind it keep the bytes.
  pub visit-Keeps :
      (prev : Option Substring)
      → After n.start prev
      → finish_of prev ≤ hi
      → (finish_of prev < finish n → finish_of prev ≤ b)
      → Keeps k hi prev (n ∷ ns) (visit prev n nb rest)
  visit-Keeps none after fits_p early_p = rw (visit_first n nb rest) (put-Keeps none (omega arith))
  visit-Keeps (some p) after fits_p early_p = elim (Bool-cases (ltb n.start (finish p))) [
    | inr e ↦
        rw (visit_apart p n nb hi rest after fits_p fits word (omega arith) nb_word (ltb→ge _ _ e))
          (put-Keeps (some p) (ltb→ge _ _ e))
    | inl e ↦ elim (Bool-cases (ltb (finish p) (finish n))) [
      | inr f ↦
          rw
            (visit_covered p n nb hi rest after fits_p fits word (omega arith) nb_word
              (ltb→lt _ _ e) (ltb→ge _ _ f))
            (covered-Keeps p after fits_p (ltb→ge _ _ f))
      | inl f ↦
          rw
            (visit_cut p n nb hi rest after fits_p fits word (omega arith) nb_word (ltb→lt _ _ e)
              (ltb→lt _ _ f))
            (cut-Keeps p after (ltb→lt _ _ e) (ltb→lt _ _ f) (early_p (ltb→lt _ _ f)))
    ]
  ]

nothing-Keeps : (k hi nb : ℕ) (prev : Option Substring) → nb ≡ k → Keeps k hi prev [] ([], nb)
nothing-Keeps k hi nb prev e = record {
  ordered = tt;
  counted = omega arith;
  covered = λ i. refl;
  agrees = λ whole a. tt;
}

After-mono : (a b : ℕ) (prev : Option Substring) → a ≤ b → After a prev → After b prev
After-mono a b none h p = tt
After-mono a b (some q) h p = omega arith

pub sweep-Keeps :
    (hi : ℕ)
    → hi < u64_mod
    → (ns : List Substring) (b k nb : ℕ) (prev : Option Substring) → Ordered b hi ns
    → After b prev
    → finish_of prev ≤ hi
    → nb ≡ total ns + k
    → nb < u64_mod
    → Keeps k hi prev ns (sweep ns prev nb)
unfolding sweep
sweep-Keeps hi word [] b k nb prev o after fits e w = nothing-Keeps k hi nb prev (omega arith)
sweep-Keeps hi word (n ∷ ns) b k nb prev o after fits e w =
    visit-Keeps hi (finish n) k nb n ns (sweep ns) word
      (λ p nb' k' h f e' w'. sweep-Keeps hi word ns (finish n) k' nb' (some p) o.3 h f e' w')
      (omega arith) o.1 o.2 e w prev (After-mono b n.start prev o.0 after) fits (λ h. omega arith)
