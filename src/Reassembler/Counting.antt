-- ===== src/Reassembler/Counting.antt =====
-- bytes_pending of src/reassembler.cc after insert: how many bytes it is.
use networkinglab.Base.{
  ℕ, zero, suc, ◌+◌, ◌-◌, ◌≤◌, ◌<◌, ◌≡◌, refl, ap, ap₂, ◌∙◌, Bool, true, false, ◌||◌, List, [], ◌∷◌,
  length, u64_mod, arith, if◌then◌else◌,
}
use networkinglab.Stream.{ByteStream}
use networkinglab.Reassembler.{Reassembler, Substring, insert, bytes_pending}
use networkinglab.Reassembler.Layout.{Ordered, Ordered-mono, total, covers}
use networkinglab.Reassembler.Insert.{limit, IsSound, known, arrives}
use networkinglab.Reassembler.Correct.{
  insert-IsSound, insert-known, insert-same, covers_below, pending-le,
}

-- How many of the `n` indices from `lo` on pass the test?
abbrev pub count : (ℕ → Bool) → ℕ → ℕ → ℕ
count test lo zero = 0
count test lo (suc n) = (if test lo then 1 else 0) + count test (suc lo) n

count-split :
    (test : ℕ → Bool) (lo k m mid n : ℕ)
    → k ≡ m + n
    → mid ≡ lo + m
    → count test lo k ≡ count test lo m + count test mid n
count-split test lo k zero mid n e f =
    let g : lo ≡ mid = omega (arith, f) in
    let h : k ≡ n = omega (arith, e) in omega (arith, ap₂ (count test) g h)
count-split test lo zero (suc m) mid n e f = absurd (omega (arith, e))
count-split test lo (suc k) (suc m) mid n e f =
    omega (arith, count-split test (suc lo) k m mid n (omega (arith, e)) (omega (arith, f)))

count-same :
    (f g : ℕ → Bool) (lo n : ℕ)
    → ((i : ℕ) → lo ≤ i → i < lo + n → f i ≡ g i)
    → count f lo n ≡ count g lo n
count-same f g lo zero h = refl
count-same f g lo (suc n) h =
    rw
      (
        h lo (omega arith) (omega arith),
        count-same f g (suc lo) n (λ i p q. h i (omega arith) (omega arith)),
      )
      refl

count-none : (lo n : ℕ) → count (λ i. false) lo n ≡ 0
count-none lo zero = refl
count-none lo (suc n) = omega (arith, count-none (suc lo) n)

count-all : (lo n : ℕ) → count (λ i. true) lo n ≡ n
count-all lo zero = refl
count-all lo (suc n) = omega (arith, count-all (suc lo) n)

-- Nodes that lie in order between two indices hold as many indices as they have bytes.
covers-count :
    (lo hi : ℕ) (ns : List Substring)
    → lo ≤ hi
    → Ordered lo hi ns
    → count (λ i. covers i ns) lo (hi - lo) ≡ total ns
covers-count lo hi [] h o = count-none lo (hi - lo)
covers-count lo hi (n ∷ ns) h o =
    let stop = n.start + length n.bytes in
    let len = length n.bytes in
    let test = λ (i : ℕ). covers i (n ∷ ns) in
    omega (
      arith,
      count-split test lo (hi - lo) (n.start - lo) n.start (hi - n.start) (omega (arith, o.0, o.2))
          (omega (arith, o.0)),
      count-split test n.start (hi - n.start) len stop (hi - stop) (omega (arith, o.2)) refl,
      before,
      count-none lo (n.start - lo),
      within,
      count-all n.start len,
      behind,
      covers-count stop hi ns (omega (arith, o.2)) o.3,
    )
  where
    before : count (λ i. covers i (n ∷ ns)) lo (n.start - lo) ≡ count (λ i. false) lo (n.start - lo)
    before =
        count-same (λ i. covers i (n ∷ ns)) (λ i. false) lo (n.start - lo)
          (λ i p q.
            ground
              (arith, covers_below i (n.start + length n.bytes) hi ns (omega (arith, q, o.0)) o.3))

    within :
        count (λ i. covers i (n ∷ ns)) n.start (length n.bytes)
        ≡ count (λ i. true) n.start (length n.bytes)
    within =
        count-same (λ i. covers i (n ∷ ns)) (λ i. true) n.start (length n.bytes)
          (λ i p q. ground arith)

    behind :
        count (λ i. covers i (n ∷ ns)) (n.start + length n.bytes) (hi - (n.start + length n.bytes))
        ≡ count (λ i. covers i ns) (n.start + length n.bytes) (hi - (n.start + length n.bytes))
    behind =
        count-same (λ i. covers i (n ∷ ns)) (λ i. covers i ns) (n.start + length n.bytes)
          (hi - (n.start + length n.bytes)) (λ i p q. ground arith)

module _ (r : Reassembler) (w : ByteStream) (s : IsSound r w) where
  -- What is stored, counted by the indices that are known from the next byte on.
  pending-count :
      bytes_pending r ≡ count (λ i. known i r w) w.bytes_pushed (limit w - w.bytes_pushed)
  unfolding bytes_pending
  pending-count = omega (
    arith,
    s.counted,
    covers-count w.bytes_pushed (limit w) r.substrs
        (omega (arith, s.sink.valid.total, s.sink.valid.bounded))
        (Ordered-mono r.substrs (omega arith) (omega arith) s.ordered),
    count-same (λ i. known i r w) (λ i. covers i r.substrs) w.bytes_pushed
        (limit w - w.bytes_pushed) (λ i p q. ground arith),
  )

module _ (r : Reassembler) (w : ByteStream) (s : IsSound r w) (first : ℕ) (str : List ℕ)
    (is_last : Bool) (word : first + length str < u64_mod) where
  -- If the Reassembler is sound beside its stream and the insertion ends below 2^64, then after
  -- insert bytes_pending is the number of the bytes, from the next byte to the end of the window,
  -- that were known before or arrive, and together with the bytes that wait in the stream it is at
  -- most the capacity.
  pub insert-pending :
      let (q, v) = insert r first str is_last w in
      (bytes_pending q
        ≡ count
            (λ i. known i r w || arrives i first str w)
            v.bytes_pushed
            (limit w - v.bytes_pushed))
      × (bytes_pending q + v.bytes_buffered ≤ v.capacity)
  insert-pending =
      let after = insert r first str is_last w in
      let sound = insert-IsSound r w s first str is_last word in
      let same = insert-same r w s first str is_last word in
      let window : limit after.1 ≡ limit w = omega (arith, same.0, same.1) in
      (
        pending-count after.0 after.1 sound
            ∙ count-same (λ i. known i after.0 after.1) (λ i. known i r w || arrives i first str w)
                after.1.bytes_pushed (limit after.1 - after.1.bytes_pushed)
                (λ i p q. insert-known r w s first str is_last word i)
            ∙ ap
                (λ n.
                  count (λ i. known i r w || arrives i first str w) after.1.bytes_pushed
                    (n - after.1.bytes_pushed))
                window,
        pending-le after.0 after.1 sound,
      )
