-- ===== src/Reassembler/Settle.antt =====
-- Reassembler::insert of src/reassembler.cc: how new data gets its place, at the front, at the end
-- or before a node.
use mathlib.Core.Path.{fun_ext}
use networkinglab.Base.{
  ℕ, ◌+◌, ◌*◌, ◌≤◌, ◌<◌, ◌≡◌, inl, inr, refl, ap, Option, none, some, List, [], ◌∷◌, leb, ltb,
  length, ◌++◌, add64-eq, u64_mod, arith, Bool-cases, ltb→lt, ltb→ge, leb→le, leb→gt,
}
use networkinglab.Reassembler.{Substring, put, visit, sweep, settle, place_edge, last_start}
use networkinglab.Reassembler.Layout.{finish, finish_of, Ordered, total, total-le}
use networkinglab.Reassembler.Visit.{visit_first, visit_apart}
use networkinglab.Reassembler.Sweep.{Keeps, After, visit-Keeps, sweep-Keeps}

-- Both steps of the insertion.
abbrev pub merge : ℕ → List ℕ → List Substring → ℕ → List Substring × ℕ
merge first str ns nb =
    let p = place_edge first str ns nb in settle first p.rest p.nodes none p.count

-- A node that begins behind the one before it stays.
visit_behind :
    (hi nb : ℕ) (prev : Option Substring) (n : Substring)
    (rest : Option Substring → ℕ → List Substring × ℕ)
    → hi < u64_mod
    → finish_of prev ≤ n.start
    → finish n ≤ hi
    → length n.bytes ≤ nb
    → nb < u64_mod
    → visit prev n nb rest ≡ put n (rest (some n) nb)
visit_behind hi nb none n rest w h f c v = visit_first n nb rest
visit_behind hi nb (some p) n rest w h f c v =
    visit_apart p n nb hi rest (omega arith) (omega arith) f w c v h

put-new-Keeps :
    {hi k : ℕ} {prev : Option Substring} {new n : Substring} {ns : List Substring}
    {r : List Substring × ℕ}
    → finish_of prev ≤ n.start
    → 0 < length n.bytes
    → finish n ≤ hi
    → Keeps (length n.bytes + k) hi (some n) (new ∷ ns) r
    → Keeps k hi prev (new ∷ n ∷ ns) (put n r)
put-new-Keeps {prev = prev} h full fits r = record {
  ordered = (h, full, fits, r.ordered);
  counted = omega (arith, r.counted);
  covered = λ i. ground (arith, r.covered i);
  agrees = λ whole a. (a.1.0, r.agrees whole (a.0, a.1.1));
}

-- The last node of the list, or the one before the list.
abbrev last_of : Option Substring → List Substring → Option Substring
last_of prev [] = prev
last_of prev (n ∷ ns) = last_of (some n) ns

After-last :
    (first : ℕ) (n : Substring) (ns : List Substring)
    → last_start n ns ≤ first
    → After first (last_of (some n) ns)
unfolding last_start
After-last first n [] h = h
After-last first n (m ∷ ns) h = After-last first m ns h

module _ (hi first : ℕ) (x : ℕ) (xs : List ℕ) (word : hi * 2 < u64_mod)
    (fits : first + length (x ∷ xs) ≤ hi) where
  abbrev new : Substring
  new = record { start = first; bytes = x ∷ xs }

  append-Keeps :
      (ns : List Substring) (k nb : ℕ) (prev : Option Substring)
      → Ordered (finish_of prev) hi ns
      → finish_of prev ≤ hi
      → After first (last_of prev ns)
      → nb ≡ total (new ∷ ns) + k
      → nb < u64_mod
      → Keeps k hi prev (new ∷ ns) (sweep (ns ++ (new ∷ [])) prev nb)
  unfolding sweep
  append-Keeps [] k nb prev o f after e w =
      visit-Keeps hi (finish new) k nb new [] (sweep []) (omega arith)
        (λ p nb' k' h f' e' w'.
          sweep-Keeps hi (omega arith) [] (finish new) k' nb' (some p) tt h f' e' w')
        (omega arith) (omega arith) fits e w prev after f (λ h. omega arith)
  append-Keeps (n ∷ ns) k nb prev o f after e w =
      rw
        (visit_behind hi nb prev n (sweep (ns ++ (new ∷ []))) (omega arith) o.0 o.2 (omega arith) w)
        (put-new-Keeps o.0 o.1 o.2
          (append-Keeps ns (length n.bytes + k) nb (some n) o.3 o.2 after (omega arith) w))

  insert-Keeps :
      (n : Substring) (ns : List Substring) (k nb : ℕ) (prev : Option Substring)
      → Ordered (finish_of prev) hi (n ∷ ns)
      → finish_of prev ≤ hi
      → After first prev
      → first ≤ n.start
      → nb ≡ total (new ∷ n ∷ ns) + k
      → nb < u64_mod
      → Keeps k hi prev (new ∷ n ∷ ns) (visit prev new nb (sweep (n ∷ ns)))
  insert-Keeps n ns k nb prev o f after h e w =
      visit-Keeps hi n.start k nb new (n ∷ ns) (sweep (n ∷ ns)) (omega arith)
        (λ p nb' k' h' f' e' w'.
          sweep-Keeps hi (omega arith) (n ∷ ns) n.start k' nb' (some p) (omega arith, o.1, o.2, o.3)
            h' f' e' w')
        h (omega arith) fits e w prev after f (λ _. o.0)

  -- One round with the data still in hand; `next` is what the loop does behind the node.
  settle_step :
      (n : Substring) (ns : List Substring) (k nb : ℕ) (prev : Option Substring)
      → Ordered (finish_of prev) hi (n ∷ ns)
      → finish_of prev ≤ hi
      → After first prev
      → nb ≡ total (n ∷ ns) + k
      → nb + length (x ∷ xs) < u64_mod
      → (n.start < first
          → Keeps
              (length n.bytes + k)
              hi
              (some n)
              (new ∷ ns)
              (settle first (x ∷ xs) ns (some n) nb))
      → Keeps k hi prev (new ∷ n ∷ ns) (settle first (x ∷ xs) (n ∷ ns) prev nb)
  unfolding settle
  settle_step n ns k nb prev o f after e w next = elim (Bool-cases (leb first n.start)) [
    | inl c ↦
        rw (c, add64-eq nb (length (x ∷ xs)) w)
          (insert-Keeps n ns k (nb + length (x ∷ xs)) prev o f after (leb→le _ _ c) (omega arith) w)
    | inr c ↦
        rw
          (
            c,
            visit_behind hi nb prev n (settle first (x ∷ xs) ns) (omega arith) o.0 o.2 (omega arith)
                (omega arith),
          )
          (put-new-Keeps o.0 o.1 o.2 (next (leb→gt _ _ c)))
  ]

  settle-Keeps :
      (n : Substring) (ns : List Substring) (k nb : ℕ) (prev : Option Substring)
      → Ordered (finish_of prev) hi (n ∷ ns)
      → finish_of prev ≤ hi
      → After first prev
      → first ≤ last_start n ns
      → nb ≡ total (n ∷ ns) + k
      → nb + length (x ∷ xs) < u64_mod
      → Keeps k hi prev (new ∷ n ∷ ns) (settle first (x ∷ xs) (n ∷ ns) prev nb)
  unfolding last_start
  settle-Keeps n [] k nb prev o f after h e w =
      settle_step n [] k nb prev o f after e w (λ l. absurd (omega arith))
  settle-Keeps n (m ∷ ns) k nb prev o f after h e w =
      settle_step n (m ∷ ns) k nb prev o f after e w (λ l.
        settle-Keeps m ns (length n.bytes + k) nb (some n) o.3 o.2 (omega arith) h (omega arith) w)

-- With no data in hand the loop only sweeps.
settle-nil :
    (first : ℕ) (ns : List Substring) (prev : Option Substring) (nb : ℕ)
    → settle first [] ns prev nb ≡ sweep ns prev nb
unfolding settle sweep
settle-nil first [] prev nb = refl
settle-nil first (n ∷ ns) prev nb =
    ap (visit prev n nb) (fun_ext λ p. fun_ext λ k. settle-nil first ns p k)

-- Data that wait for a place get one, and no byte is lost.
pub merge-Keeps :
    (hi first : ℕ) (x : ℕ) (xs : List ℕ) (ns : List Substring) (nb : ℕ)
    → hi * 2 < u64_mod
    → first + length (x ∷ xs) ≤ hi
    → Ordered 0 hi ns
    → nb ≡ total ns
    → Keeps 0 hi none (record { start = first; bytes = x ∷ xs } ∷ ns) (merge first (x ∷ xs) ns nb)
unfolding place_edge
merge-Keeps hi first x xs [] nb w f o e =
    rw
      (
        settle-nil first (new hi first x xs w f ∷ []) none,
        add64-eq nb (length (x ∷ xs)) (omega arith),
      )
      (append-Keeps hi first x xs w f [] 0 _ none tt (omega arith) tt (omega arith) (omega arith))
merge-Keeps hi first x xs (n ∷ ns) nb w f o e = elim (Bool-cases (ltb (last_start n ns) first)) [
  | inl c ↦ rw c (
      rw
        (
          settle-nil first ((n ∷ ns) ++ (new hi first x xs w f ∷ [])) none,
          add64-eq nb (length (x ∷ xs)) room,
        )
        (append-Keeps hi first x xs w f (n ∷ ns) 0 _ none o (omega arith)
          (After-last first n ns (omega (arith, ltb→lt _ _ c))) (omega arith) room))
  | inr c ↦ rw c (
      settle-Keeps hi first x xs w f n ns 0 nb none o (omega arith) tt (ltb→ge _ _ c) (omega arith)
        room)
]
  where
    room : nb + length (x ∷ xs) < u64_mod
    room = omega (arith, total-le (n ∷ ns) {lo = 0} {hi = hi} (omega arith) o)

-- With no data the list stays as it is.
pub merge-nil :
    (hi first : ℕ) (ns : List Substring) (nb : ℕ)
    → hi < u64_mod
    → Ordered 0 hi ns
    → nb ≡ total ns
    → Keeps 0 hi none ns (merge first [] ns nb)
unfolding place_edge
merge-nil hi first ns nb w o e = rw (settle-nil first ns none nb) (
    sweep-Keeps hi w ns 0 0 nb none o tt (omega arith) (omega arith)
      (omega (arith, total-le ns {lo = 0} {hi = hi} (omega arith) o)))
