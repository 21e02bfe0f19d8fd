-- ===== src/Reassembler/Correct.antt =====
-- Reassembler::insert of src/reassembler.cc as its callers see it: the invariant, what is known,
-- what is written.
use networkinglab.Base.{
  ℕ, suc, ◌+◌, ◌-◌, ◌*◌, ◌≤◌, ◌<◌, ◌≡◌, inl, inr, refl, sym, subst, ◌∙◌, Bool, true, false, ◌||◌,
  ◌&&◌, ◌==◌, List, [], ◌∷◌, leb, length, take, length-take, u64_mod, arith, Bool-cases, leb→le,
  leb→gt, le→leb, gt→leb, if◌then◌else◌, ok, ok-injective,
}
use networkinglab.Stream
use networkinglab.Stream.{ByteStream, close, pop}
use networkinglab.Stream.Invariant.{contents, IsValid, init-IsValid, Popped, pop-Popped}
use networkinglab.Reassembler.{Reassembler, Substring, init, insert, close_if, bytes_pending}
use networkinglab.Reassembler.Layout.{
  Ordered, Ordered-mono, total-le, covers, AllAgree, Agrees, Agrees-take, Agrees-drop,
}
use networkinglab.Reassembler.Flush.{Carries}
use networkinglab.Reassembler.Insert.{
  limit, window_end-eq, clip-take, Inserted, assemble, assemble-Inserted, IsSound, known, arrives,
  IsTrue,
}

-- The flag as insert leaves it.
abbrev pub closing : Reassembler → Bool → Bool
closing r is_last = if is_last then true else r.should_close

-- The result of insert where the first index is within the window.
abbrev pub inserted : Reassembler → ℕ → List ℕ → Bool → ByteStream → Reassembler × ByteStream
inserted r first str is_last w =
    let (ms, k, v) = assemble first (take (limit w - first) str) r.substrs r.nbytes_substrs w in
    (
      record { substrs = ms; nbytes_substrs = k; should_close = closing r is_last },
      close_if (closing r is_last && (k == 0)) v,
    )

module _ (r : Reassembler) (w : ByteStream) (s : IsSound r w) (first : ℕ) (str : List ℕ)
    (is_last : Bool) (word : first + length str < u64_mod) where
  pub insert_outside : limit w ≤ first → insert r first str is_last w ≡ (r, w)
  unfolding insert
  insert_outside h = rw (window_end-eq (limit w) w s.sink, le→leb (limit w) first h)

  pub insert_inside :
      first < limit w → insert r first str is_last w ≡ inserted r first str is_last w
  unfolding insert
  insert_inside h = rw (
    window_end-eq (limit w) w s.sink,
    gt→leb (limit w) first h,
    clip-take (limit w) first str h (omega (arith, s.sink.word)) word,
  )

  pub result :
      first < limit w
      → Inserted
          (limit w)
          first
          (take (limit w - first) str)
          r.substrs
          w
          (assemble first (take (limit w - first) str) r.substrs r.nbytes_substrs w)
  result h =
      assemble-Inserted (limit w) first r.substrs r.nbytes_substrs w s.ordered s.counted s.sink
        (take (limit w - first) str) (omega (arith, length-take (limit w - first) str))

-- Closing the stream touches no counter and no byte.
close_if-IsSound :
    (r : Reassembler) (b : Bool) (v : ByteStream) → IsSound r v → IsSound r (close_if b v)
unfolding close_if close
close_if-IsSound r false v s = s
close_if-IsSound r true v s = record {
  sink = record {
    valid = record { counted = t.counted; bounded = t.bounded; total = t.total; full = t.full };
    limit = refl;
    word = s.sink.word;
  };
  ordered = s.ordered;
  counted = s.counted;
}
  where
    t : IsValid v
    t = s.sink.valid

pub close_if-same :
    (b : Bool) (v : ByteStream)
    → ((close_if b v).bytes_pushed ≡ v.bytes_pushed)
      × ((close_if b v).bytes_popped ≡ v.bytes_popped)
      × ((close_if b v).capacity ≡ v.capacity)
      × ((close_if b v).has_error ≡ v.has_error)
      × (contents (close_if b v) ≡ contents v)
      × ((close_if b v).is_closed ≡ (v.is_closed || b))
unfolding close_if close
close_if-same false v = (refl, refl, refl, refl, refl, ground arith)
close_if-same true v = (refl, refl, refl, refl, refl, ground arith)

module _ (r : Reassembler) (w : ByteStream) (s : IsSound r w) (first : ℕ) (str : List ℕ)
    (is_last : Bool) (word : first + length str < u64_mod) where
  -- If the Reassembler is sound beside its stream and the insertion ends below 2^64, it is sound
  -- after insert: its nodes lie behind the next byte and within the window, apart from one
  -- another, none of them empty, its byte count is theirs, and the stream is valid.
  pub insert-IsSound : IsSound (insert r first str is_last w).0 (insert r first str is_last w).1
  insert-IsSound = elim (Bool-cases (leb (limit w) first)) [
    | inl c ↦ rw (insert_outside r w s first str is_last word (leb→le _ _ c)) s
    | inr c ↦
        rw (insert_inside r w s first str is_last word (leb→gt _ _ c))
          (close_if-IsSound _ _ _ (sound (result r w s first str is_last word (leb→gt _ _ c))))
  ]
    where
      sound :
          {q : List Substring × ℕ × ByteStream}
          → Inserted (limit w) first (take (limit w - first) str) r.substrs w q
          → IsSound
              (record { substrs = q.0; nbytes_substrs = q.1; should_close = closing r is_last })
              q.2
      sound {q} i = record {
        sink = record {
          valid = i.sink.valid;
          limit = refl;
          word = rw (← i.sink.limit) s.sink.word;
        };
        ordered = rw (← i.sink.limit) i.ordered;
        counted = i.counted;
      }

  -- If the Reassembler is sound beside its stream and the insertion ends below 2^64, then after
  -- insert exactly those bytes are known (written or stored) that were known before, and those of
  -- the insertion that lie within the window.
  pub insert-known :
      (i : ℕ)
      → known i (insert r first str is_last w).0 (insert r first str is_last w).1
        ≡ (known i r w || arrives i first str w)
  insert-known i = elim (Bool-cases (leb (limit w) first)) [
    | inl c ↦ rw (insert_outside r w s first str is_last word (leb→le _ _ c)) (ground arith)
    | inr c ↦ rw (insert_inside r w s first str is_last word (leb→gt _ _ c)) (
        rw ((close_if-same _ _).0) (
          ground (
            arith,
            (result r w s first str is_last word (leb→gt _ _ c)).covered i,
            length-take (limit w - first) str,
          )))
  ]

  -- If the Reassembler is sound beside its stream, the insertion ends below 2^64 and is a piece of
  -- the whole stream, and the bytes that are stored and that wait are those of the whole stream,
  -- then so they are after insert.
  pub insert-IsTrue :
      (whole : ℕ → ℕ)
      → Agrees whole first str
      → IsTrue whole r w
      → IsTrue whole (insert r first str is_last w).0 (insert r first str is_last w).1
  insert-IsTrue whole a t = elim (Bool-cases (leb (limit w) first)) [
    | inl c ↦ rw (insert_outside r w s first str is_last word (leb→le _ _ c)) t
    | inr c ↦ rw (insert_inside r w s first str is_last word (leb→gt _ _ c)) (
        closed _ _ (
          (result r w s first str is_last word (leb→gt _ _ c)).agrees whole
            (Agrees-take whole (limit w - first) first str a) t.stored t.carried))
  ]
    where
      closed :
          (b : Bool) (q : List Substring × ℕ × ByteStream)
          → AllAgree whole q.0 × Carries whole q.2
          → IsTrue whole
              (record { substrs = q.0; nbytes_substrs = q.1; should_close = closing r is_last })
              (close_if b q.2)
      closed b q h = record {
        stored = h.0;
        carried = rw ((close_if-same b q.2).1, (close_if-same b q.2).4) h.1;
      }

  -- If the Reassembler is sound beside its stream and the insertion ends below 2^64, insert pops
  -- nothing, changes neither the capacity nor the error flag of the stream, and does not lower its
  -- number of bytes pushed.
  pub insert-same :
      let v = (insert r first str is_last w).1 in
      (v.bytes_popped ≡ w.bytes_popped)
      × (v.capacity ≡ w.capacity)
      × (v.has_error ≡ w.has_error)
      × (w.bytes_pushed ≤ v.bytes_pushed)
  insert-same = elim (Bool-cases (leb (limit w) first)) [
    | inl c ↦
        rw (insert_outside r w s first str is_last word (leb→le _ _ c))
          (refl, refl, refl, omega arith)
    | inr c ↦
        rw (insert_inside r w s first str is_last word (leb→gt _ _ c))
          (same _ _ (result r w s first str is_last word (leb→gt _ _ c)))
  ]
    where
      same :
          (b : Bool) (q : List Substring × ℕ × ByteStream)
          → Inserted (limit w) first (take (limit w - first) str) r.substrs w q
          → ((close_if b q.2).bytes_popped ≡ w.bytes_popped)
            × ((close_if b q.2).capacity ≡ w.capacity)
            × ((close_if b q.2).has_error ≡ w.has_error)
            × (w.bytes_pushed ≤ (close_if b q.2).bytes_pushed)
      same b q i =
          let (e0, e1, e2, e3, e4, e5) = close_if-same b q.2 in
          (
            e1 ∙ i.grown.same_popped,
            e2 ∙ i.grown.same_capacity,
            e3 ∙ i.grown.same_error,
            rw e0 i.grown.grows,
          )

-- The nodes behind an index do not hold it.
pub covers_below :
    (i lo hi : ℕ) (ns : List Substring) → i < lo → Ordered lo hi ns → covers i ns ≡ false
covers_below i lo hi [] h o = refl
covers_below i lo hi (n ∷ ns) h o =
    ground (arith, covers_below i (n.start + length n.bytes) hi ns (omega arith) o.3)

next-unknown : (r : Reassembler) (w : ByteStream) → IsSound r w → known w.bytes_pushed r w ≡ false
next-unknown r w s = ground (
  arith,
  covers_below w.bytes_pushed (suc w.bytes_pushed) (limit w) r.substrs (omega arith) s.ordered,
)

-- If the Reassembler is sound beside its stream and the insertion ends below 2^64, then insert has
-- written exactly up to the first byte that neither was known nor arrives: the next byte is such a
-- byte, and every byte before it was known or arrives.
pub insert_writes :
    (r : Reassembler) (w : ByteStream)
    → IsSound r w
    → (first : ℕ) (str : List ℕ) (is_last : Bool) → first + length str < u64_mod
    → let next = (insert r first str is_last w).1.bytes_pushed in
      ((known next r w || arrives next first str w) ≡ false)
      × ((i : ℕ) → i < next → (known i r w || arrives i first str w) ≡ true)
insert_writes r w s first str is_last word = (
  sym (insert-known r w s first str is_last word next)
      ∙ next-unknown after.0 after.1 (insert-IsSound r w s first str is_last word),
  λ i h. sym (insert-known r w s first str is_last word i) ∙ ground arith,
)
  where
    after : Reassembler × ByteStream
    after = insert r first str is_last w

    next : ℕ
    next = after.1.bytes_pushed

-- A Reassembler that is sound beside its stream and the stream together hold no more bytes than
-- the capacity.
pub pending-le :
    (r : Reassembler) (w : ByteStream)
    → IsSound r w
    → bytes_pending r + w.bytes_buffered ≤ w.capacity
unfolding bytes_pending
pending-le r w s = omega (
  arith,
  total-le r.substrs {lo = w.bytes_pushed} {hi = limit w}
      (omega (arith, s.sink.valid.total, s.sink.valid.bounded))
      (Ordered-mono r.substrs (omega arith) (omega arith) s.ordered),
)

-- The reader takes bytes, by pop or by read(): the window moves on, and all that is stored stays.
module _ (r : Reassembler) (w v : ByteStream) (len : ℕ) (s : IsSound r w) (p : Popped w v len)
    (room : (limit w + len) * 2 < u64_mod) where
  pub popped-IsSound : IsSound r v × ((i : ℕ) → known i r v ≡ known i r w)
  popped-IsSound = (
    record {
      sink = record {
        valid = p.valid;
        limit = refl;
        word = omega (arith, p.popped, p.same_capacity);
      };
      ordered =
          Ordered-mono r.substrs (omega (arith, p.same_pushed))
            (omega (arith, p.popped, p.same_capacity)) s.ordered;
      counted = s.counted;
    },
    λ i. ground (arith, p.same_pushed),
  )

  pub popped-IsTrue : (whole : ℕ → ℕ) → IsTrue whole r w → IsTrue whole r v
  popped-IsTrue whole t = record {
    stored = t.stored;
    carried =
        rw (p.removed, p.popped) (Agrees-drop whole len w.bytes_popped (contents w) t.carried);
  }

module _ (r : Reassembler) (w v : ByteStream) (len : ℕ) (s : IsSound r w)
    (h : len ≤ w.bytes_buffered) (room : (limit w + len) * 2 < u64_mod) (e : pop w len ≡ ok v) where
  popped : Popped w v len
  popped =
      let (u, f, p) =
        pop-Popped w len s.sink.valid (omega (arith, s.sink.valid.total, s.sink.valid.bounded)) h in
      subst (λ t. Popped w t len) (ok-injective (sym f ∙ e)) p

  -- If the Reassembler is sound beside its stream, a pop of bytes that are buffered, where the
  -- window stays below 2^63, leaves it sound beside the new stream, and the same bytes are known.
  pub pop-IsSound : IsSound r v × ((i : ℕ) → known i r v ≡ known i r w)
  pop-IsSound = popped-IsSound r w v len s popped room

  pub pop-IsTrue : (whole : ℕ → ℕ) → IsTrue whole r w → IsTrue whole r v
  pop-IsTrue = popped-IsTrue r w v len s popped room

-- A new Reassembler on a new stream is sound, and knows no byte.
pub init-IsSound : (capacity : ℕ) → capacity * 2 < u64_mod → IsSound init (Stream.init capacity)
unfolding init Stream.init
init-IsSound capacity h = record {
  sink = record { valid = init-IsValid capacity; limit = refl; word = omega arith };
  ordered = tt;
  counted = refl;
}

pub init-IsTrue : (whole : ℕ → ℕ) (capacity : ℕ) → IsTrue whole init (Stream.init capacity)
unfolding init Stream.init
init-IsTrue whole capacity = record { stored = tt; carried = tt }
