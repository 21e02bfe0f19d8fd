-- ===== src/Router/Longest.antt =====
-- The choice of an entry in src/router.cc: the longest prefix that matches.
use networkinglab.Base.{
  ℕ, suc, ◌≤◌, ◌<◌, ◌-◌, ◌*◌, ◌/◌, ◌%◌, ◌^◌, ◌≡◌, refl, ap, sym, ◌∙◌, true, false, ◌&&◌, ◌==◌, ◌⊎◌,
  inl, inr, Bool-cases, Option, none, some, List, [], ◌∷◌, ok, u32_mod, arith, ltb→lt, ltb→ge,
  ==→eq, ok-injective,
}
use networkinglab.Router.{Entry, dst_prefix, improves, find_entry}

-- The entry's prefix is that of the destination.
abbrev pub Matches : ℕ → Entry → Type 0
Matches dst e = dst_prefix dst e.prefix_length ≡ ok e.route_prefix

abbrev pub Member : Entry → List Entry → Type 0
Member m [] = ◌≡◌ {A = ℕ} 0 1
Member m (e ∷ es) = (m ≡ e) ⊎ Member m es

-- No prefix is longer than an address.
abbrev pub AllFit : List Entry → Type 0
AllFit [] = Unit {0}
AllFit (e ∷ es) = (e.prefix_length ≤ 32) × AllFit es

-- One more than the length of the prefix, or zero without a match.
abbrev pub height : Option Entry → ℕ
height none = 0
height (some m) = suc m.prefix_length

-- No entry that matches is higher than `h`.
abbrev pub AllBelow : ℕ → ℕ → List Entry → Type 0
AllBelow dst h [] = Unit {0}
AllBelow dst h (e ∷ es) = (Matches dst e → e.prefix_length < h) × AllBelow dst h es

-- `r` is the match so far, or an entry of the table that matches.
abbrev pub Chosen : ℕ → List Entry → Option Entry → Option Entry → Type 0
Chosen dst es before r = (r ≡ before) ⊎ ((m : Entry) × (r ≡ some m) × Member m es × Matches dst m)

fits-prefix : (dst len : ℕ) → len ≤ 32 → (p : ℕ) × (dst_prefix dst len ≡ ok p)
unfolding dst_prefix
fits-prefix dst len h = elim (Bool-cases (len == 0)) [
  | inl e ↦ (0, rw e refl)
  | inr e ↦ (dst / 2 ^ (32 - len) * 2 ^ (32 - len) % u32_mod, ground (arith, e))
]

improves-height :
    (before : Option Entry) (e : Entry) → improves before e ≡ true → height before ≤ height (some e)
unfolding improves
improves-height none e h = omega arith
improves-height (some m) e h = omega (arith, ltb→lt _ _ h)

improves_not :
    (before : Option Entry) (e : Entry)
    → improves before e ≡ false
    → e.prefix_length < height before
unfolding improves
improves_not none e h = absurd (ground (arith, h))
improves_not (some m) e h = omega (arith, ltb→ge _ _ h)

-- An entry that is passed over and matches is no higher than the match so far.
passed-height :
    (dst p : ℕ) (before : Option Entry) (e : Entry)
    → dst_prefix dst e.prefix_length ≡ ok p
    → ((p == e.route_prefix) && improves before e) ≡ false
    → Matches dst e
    → e.prefix_length < height before
passed-height dst p before e q c k =
    improves_not before e (ground (arith, c, ok-injective (sym q ∙ k)))

Chosen-later :
    (dst : ℕ) (e : Entry) (es : List Entry) (before r : Option Entry)
    → Chosen dst es before r
    → Chosen dst (e ∷ es) before r
Chosen-later dst e es before r (inl k) = inl k
Chosen-later dst e es before r (inr (m, a, b, c)) = inr (m, a, inr b, c)

Chosen-here :
    (dst : ℕ) (e : Entry) (es : List Entry) (before r : Option Entry)
    → Matches dst e
    → Chosen dst es (some e) r
    → Chosen dst (e ∷ es) before r
Chosen-here dst e es before r h (inl k) = inr (e, k, inl refl, h)
Chosen-here dst e es before r h (inr (m, a, b, c)) = inr (m, a, inr b, c)

-- The loop ends; its result is chosen, and neither the match so far nor an entry of the table that
-- matches is higher.
find_entry-Chosen :
    (dst : ℕ) (es : List Entry) (before : Option Entry)
    → AllFit es
    → (r : Option Entry) × (find_entry dst es before ≡ ok r)
      × (height before ≤ height r)
      × AllBelow dst (height r) es
      × Chosen dst es before r
unfolding find_entry
find_entry-Chosen dst [] before f = (before, refl, omega arith, tt, inl refl)
find_entry-Chosen dst (e ∷ es) before (h, f) =
    let (p, q) = fits-prefix dst e.prefix_length h in
    elim (Bool-cases ((p == e.route_prefix) && improves before e)) [
      | inl c ↦
          let (r, a, b, d, g) = find_entry-Chosen dst es (some e) f in
          (
            r,
            rw (q, c) a,
            omega (arith, b, improves-height before e (ground (arith, c))),
            ((λ k. omega (arith, b)), d),
            Chosen-here dst e es before r (q ∙ ap ok (==→eq p e.route_prefix (ground (arith, c))))
                g,
          )
      | inr c ↦
          let (r, a, b, d, g) = find_entry-Chosen dst es before f in
          (
            r,
            rw (q, c) a,
            b,
            ((λ k. omega (arith, b, passed-height dst p before e q c k)), d),
            Chosen-later dst e es before r g,
          )
    ]

-- If no prefix in the table is longer than 32, the search of the table comes to an end without an
-- undefined shift; its result is none or an entry of the table whose prefix is that of the
-- destination, and no entry of the table that matches has a longer prefix, so that the result is
-- none only if no entry matches.
pub find_entry-longest :
    (dst : ℕ) (table : List Entry)
    → AllFit table
    → (r : Option Entry) × (find_entry dst table none ≡ ok r)
      × AllBelow dst (height r) table
      × ((r ≡ none) ⊎ ((m : Entry) × (r ≡ some m) × Member m table × Matches dst m))
find_entry-longest dst table f =
    let (r, a, b, c, d) = find_entry-Chosen dst table none f in (r, a, c, d)
