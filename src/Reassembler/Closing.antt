-- ===== src/Reassembler/Closing.antt =====
-- Reassembler::insert of src/reassembler.cc: when it closes the stream.
use networkinglab.Base.{
  ℕ, suc, ◌+◌, ◌-◌, ◌≤◌, ◌<◌, ◌≡◌, inl, inr, refl, ap, ◌∙◌, Bool, ◌||◌, ◌&&◌, ◌==◌, List, [], ◌∷◌,
  leb, ltb, length, take, length-take, u64_mod, arith, Bool-cases, leb→le, leb→gt, lt→ltb, ge→ltb,
  ltb→lt, ltb→ge, true, false,
}
use networkinglab.Stream.{ByteStream}
use networkinglab.Reassembler.{Reassembler, Substring, insert, bytes_pending}
use networkinglab.Reassembler.Layout.{Ordered, total}
use networkinglab.Reassembler.Insert.{limit, Inserted, assemble, IsSound, known, arrives}
use networkinglab.Reassembler.Counting.{count, insert-pending}
use networkinglab.Reassembler.Correct.{
  closing, insert_outside, insert_inside, result, close_if-same, covers_below, insert_writes,
}

module _ (r : Reassembler) (w : ByteStream) (s : IsSound r w) (first : ℕ) (str : List ℕ)
    (word : first + length str < u64_mod) where
  -- If the Reassembler is sound beside its stream and the insertion ends below 2^64, the stream is
  -- closed after insert exactly if it was closed before, or the first index is below the end of
  -- the window, the last substring has been seen, now or before, and nothing is pending.
  pub insert-closed :
      (is_last : Bool)
      → (insert r first str is_last w).1.is_closed ≡ (
          w.is_closed
          || (ltb first (limit w)
              && (closing r is_last && (bytes_pending (insert r first str is_last w).0 == 0))))
  unfolding bytes_pending
  insert-closed is_last = elim (Bool-cases (leb (limit w) first)) [
    | inl c ↦
        rw
          (
            insert_outside r w s first str is_last word (leb→le _ _ c),
            ge→ltb first (limit w) (leb→le _ _ c),
          )
          (ground arith)
    | inr c ↦
        rw
          (
            insert_inside r w s first str is_last word (leb→gt _ _ c),
            lt→ltb first (limit w) (leb→gt _ _ c),
          )
          ((close_if-same _ _).5
            ∙ ap
                (λ b.
                  b
                  || (closing r is_last
                      && ((assemble first (take (limit w - first) str) r.substrs r.nbytes_substrs
                            w).1
                          == 0)))
                (result r w s first str is_last word (leb→gt _ _ c)).grown.same_closed)
  ]

  -- Likewise for the flag that the last substring has been seen.
  pub insert-should_close :
      (is_last : Bool)
      → (insert r first str is_last w).0.should_close
        ≡ (r.should_close || (ltb first (limit w) && is_last))
  insert-should_close is_last = elim (Bool-cases (leb (limit w) first)) [
    | inl c ↦
        rw
          (
            insert_outside r w s first str is_last word (leb→le _ _ c),
            ge→ltb first (limit w) (leb→le _ _ c),
          )
          (ground arith)
    | inr c ↦
        rw
          (
            insert_inside r w s first str is_last word (leb→gt _ _ c),
            lt→ltb first (limit w) (leb→gt _ _ c),
          )
          (ground arith)
  ]

  -- If the Reassembler is sound beside its stream, the insertion ends below 2^64, its first index
  -- is within the window, and `n` is the first byte that neither is known nor arrives, then after
  -- insert exactly `n` bytes are written, and the stream is closed exactly if it was before, or
  -- the last substring has been seen, now or before, and no byte between `n` and the end of the
  -- window was known or arrives. So a last substring whose bytes leave no gap closes the stream, a
  -- byte behind a gap keeps it from closing, and an empty last substring ahead of a gap, with
  -- nothing behind the gap, closes it at once.
  pub insert_closes :
      (is_last : Bool) (n : ℕ)
      → first < limit w
      → (known n r w || arrives n first str w) ≡ false
      → ((i : ℕ) → i < n → (known i r w || arrives i first str w) ≡ true)
      → let v = (insert r first str is_last w).1 in
        (v.bytes_pushed ≡ n)
        × (v.is_closed ≡ (
            w.is_closed
            || (closing r is_last
                && (count (λ i. known i r w || arrives i first str w) n (limit w - n) == 0))))
  insert_closes is_last n open_ gap below = (
    reached,
    insert-closed is_last
        ∙ ap (λ b. w.is_closed || (b && (closing r is_last && (bytes_pending after.0 == 0))))
            (lt→ltb first (limit w) open_)
        ∙ ap (λ k. w.is_closed || (closing r is_last && (k == 0)))
            ((insert-pending r w s first str is_last word).0
              ∙ ap (λ k. count (λ i. known i r w || arrives i first str w) k (limit w - k))
                  reached),
  )
    where
      after : Reassembler × ByteStream
      after = insert r first str is_last w

      reached : after.1.bytes_pushed ≡ n
      reached =
          let (stops, written) = insert_writes r w s first str is_last word in
          elim (Bool-cases (ltb after.1.bytes_pushed n)) [
            | inl c ↦ absurd (ground (arith, stops, below after.1.bytes_pushed (ltb→lt _ _ c)))
            | inr c ↦ elim (Bool-cases (ltb n after.1.bytes_pushed)) [
              | inl d ↦ absurd (ground (arith, gap, written n (ltb→lt _ _ d)))
              | inr d ↦ omega (arith, ltb→ge _ _ c, ltb→ge _ _ d)
            ]
          ]

  module _ (early : first ≤ w.bytes_pushed) (open_ : first < limit w)
      (long : limit w < first + length str) where
    filled :
        (q : List Substring × ℕ × ByteStream)
        → Inserted (limit w) first (take (limit w - first) str) r.substrs w q
        → (q.2.bytes_pushed ≡ limit w) × (q.1 ≡ 0)
    filled (ms, k, v) i = (full, omega (arith, i.counted, none_left ms i.ordered))
      where
        reach : limit w ≤ v.bytes_pushed
        reach = ground (
          arith,
          i.covered v.bytes_pushed,
          covers_below v.bytes_pushed (suc v.bytes_pushed) (limit w) ms (omega arith) i.ordered,
          length-take (limit w - first) str,
          i.grown.grows,
        )

        full : v.bytes_pushed ≡ limit w
        full = omega (arith, reach, i.sink.valid.total, i.sink.valid.bounded, i.sink.limit)

        none_left : (ns : List Substring) → Ordered (suc v.bytes_pushed) (limit w) ns → total ns ≡ 0
        none_left [] o = refl
        none_left (n ∷ ns) o = absurd (omega (arith, full))

    -- If the Reassembler is sound beside its stream, the insertion ends below 2^64, a last
    -- substring begins at or before the next byte, the window is open at its first index and it
    -- goes past the window, then the stream is closed although fewer bytes are written than the
    -- end of the substring.
    pub insert_cut_closes :
        let v = (insert r first str true w).1 in
        (v.is_closed ≡ true) × (v.bytes_pushed < first + length str)
    insert_cut_closes = rw (insert_inside r w s first str true word open_) (
        let f = filled _ (result r w s first str true word open_) in
        let same =
          close_if-same
            (closing r true
              && ((assemble first (take (limit w - first) str) r.substrs r.nbytes_substrs w).1
                  == 0))
            (assemble first (take (limit w - first) str) r.substrs r.nbytes_substrs w).2 in
        (same.5 ∙ ground (arith, f.1), omega (arith, same.0, f.0)))
