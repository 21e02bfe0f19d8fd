-- ===== src/Reassembler/Flush.antt =====
-- The second loop of Reassembler::insert in src/reassembler.cc: nodes that the stream has reached.
use networkinglab.Base.{
  ℕ, suc, ◌+◌, ◌-◌, ◌*◌, ◌≤◌, ◌<◌, max, ◌≡◌, inl, inr, refl, ap, ◌∙◌, ◌||◌, List, [], ◌∷◌, ◌++◌,
  leb, ltb, length, drop, take_of_length-le, length-drop, sub64, sub64-eq, u64_mod, arith,
  Bool-cases, leb→le, leb→gt, gt→leb,
}
use networkinglab.Stream.{ByteStream, push}
use networkinglab.Stream.Invariant.{contents, IsValid, Pushed, push-Pushed}
use networkinglab.Reassembler.{Substring, flush}
use networkinglab.Reassembler.Layout.{
  finish, Ordered, total, covers, AllAgree, Agrees, Agrees-drop, Agrees-at, Agrees-append,
}

-- A valid stream that accepts the bytes below index `hi`.
pub record Sink (hi : ℕ) (w : ByteStream) : Type 0 where
  pub valid : IsValid w
  pub limit : hi ≡ w.bytes_popped + w.capacity
  pub word : hi * 2 < u64_mod

-- `v` is `w` with more bytes in it.
pub record Grown (w v : ByteStream) : Type 0 where
  pub same_popped : v.bytes_popped ≡ w.bytes_popped
  pub same_capacity : v.capacity ≡ w.capacity
  pub same_closed : v.is_closed ≡ w.is_closed
  pub same_error : v.has_error ≡ w.has_error
  pub grows : w.bytes_pushed ≤ v.bytes_pushed

-- The waiting bytes are those of the whole stream from the popped ones on.
abbrev pub Carries : (ℕ → ℕ) → ByteStream → Type 0
Carries whole w = Agrees whole w.bytes_popped (contents w)

-- What a node that begins at or before the next byte does to the stream.
pub record Reached (hi : ℕ) (n : Substring) (w v : ByteStream) : Type 0 where
  pub sink : Sink hi v
  pub grown : Grown w v
  pub pushed : v.bytes_pushed ≡ max w.bytes_pushed (finish n)
  pub carries : (whole : ℕ → ℕ) → Agrees whole n.start n.bytes → Carries whole w → Carries whole v

pub push-Reached :
    (hi : ℕ) (n : Substring) (w : ByteStream)
    → Sink hi w
    → n.start ≤ w.bytes_pushed
    → finish n ≤ hi
    → Reached hi n w (push w (drop (sub64 w.bytes_pushed n.start) n.bytes))
push-Reached hi n w s early fits = rw past record {
  sink = record {
    valid = p.valid;
    limit = omega (arith, s.limit, p.same_popped, p.same_capacity);
    word = s.word;
  };
  grown = record {
    same_popped = p.same_popped;
    same_capacity = p.same_capacity;
    same_closed = p.same_closed;
    same_error = p.same_error;
    grows = omega (arith, p.pushed);
  };
  pushed = omega (arith, p.pushed, size);
  carries = λ whole a c.
      rw (p.same_popped, appended)
        (Agrees-append whole w.bytes_popped (contents w) fresh c (
          Agrees-at whole (n.start + (w.bytes_pushed - n.start))
            (w.bytes_popped + length (contents w)) fresh (omega (arith, v.counted, v.total))
            (Agrees-drop whole (w.bytes_pushed - n.start) n.start n.bytes a)));
}
  where
    open s use {valid as v}

    fresh : List ℕ
    fresh = drop (w.bytes_pushed - n.start) n.bytes

    size : length fresh ≡ length n.bytes - (w.bytes_pushed - n.start)
    size = length-drop (w.bytes_pushed - n.start) n.bytes

    past : sub64 w.bytes_pushed n.start ≡ w.bytes_pushed - n.start
    past =
        sub64-eq w.bytes_pushed n.start early (omega (arith, v.total, v.bounded, s.limit, s.word))

    p : Pushed w (push w fresh) fresh
    p = push-Pushed w fresh v (omega (arith, s.limit, s.word))

    appended : contents (push w fresh) ≡ contents w ++ fresh
    appended =
        p.appended
        ∙ ap (λ t. contents w ++ t)
            (take_of_length-le (w.capacity - w.bytes_buffered) fresh
              (omega (arith, size, v.total, s.limit)))

pub Grown-refl : (w : ByteStream) → Grown w w
Grown-refl w = record {
  same_popped = refl;
  same_capacity = refl;
  same_closed = refl;
  same_error = refl;
  grows = omega arith;
}

pub Grown-trans : {u v w : ByteStream} → Grown u v → Grown v w → Grown u w
Grown-trans g h = record {
  same_popped = h.same_popped ∙ g.same_popped;
  same_capacity = h.same_capacity ∙ g.same_capacity;
  same_closed = h.same_closed ∙ g.same_closed;
  same_error = h.same_error ∙ g.same_error;
  grows = omega arith;
}

-- What the second loop makes of the nodes `ns` and the stream `w`.
pub record Flushed (hi : ℕ) (ns : List Substring) (w : ByteStream)
    (r : List Substring × ℕ × ByteStream) : Type 0 where
  pub ordered : Ordered (suc r.2.bytes_pushed) hi r.0
  pub counted : r.1 ≡ total r.0
  pub sink : Sink hi r.2
  pub grown : Grown w r.2
  pub covered :
      (i : ℕ) → (ltb i r.2.bytes_pushed || covers i r.0) ≡ (ltb i w.bytes_pushed || covers i ns)
  pub agrees :
      (whole : ℕ → ℕ) → AllAgree whole ns → Carries whole w → AllAgree whole r.0 × Carries whole r.2

-- Nodes behind the next byte stay.
flush_later :
    (hi : ℕ) (ns : List Substring) (lo nb : ℕ) (w : ByteStream)
    → Ordered lo hi ns
    → w.bytes_pushed < lo
    → flush ns nb w ≡ (ns, nb, w)
unfolding flush
flush_later hi [] lo nb w o h = refl
flush_later hi (n ∷ ns) lo nb w o h =
    rw (gt→leb n.start w.bytes_pushed (omega arith))
      (rw (flush_later hi ns (finish n) nb w o.3 (omega arith)))

-- A node within reach, and then the rest of the loop.
due-Flushed :
    {hi : ℕ} {n : Substring} {ns : List Substring} {w v : ByteStream}
    {r : List Substring × ℕ × ByteStream}
    → n.start ≤ w.bytes_pushed
    → Reached hi n w v
    → Flushed hi ns v r
    → Flushed hi (n ∷ ns) w r
due-Flushed h p f = record {
  ordered = f.ordered;
  counted = f.counted;
  sink = f.sink;
  grown = Grown-trans p.grown f.grown;
  covered = λ i. ground (arith, f.covered i, p.pushed);
  agrees = λ whole a c. f.agrees whole a.1 (p.carries whole a.0 c);
}

pub flush-Flushed :
    (hi : ℕ) (ns : List Substring) (lo nb : ℕ) (w : ByteStream)
    → Ordered lo hi ns
    → nb ≡ total ns
    → nb < u64_mod
    → Sink hi w
    → Flushed hi ns w (flush ns nb w)
unfolding flush
flush-Flushed hi [] lo nb w o e b s = record {
  ordered = tt;
  counted = e;
  sink = s;
  grown = Grown-refl w;
  covered = λ i. refl;
  agrees = λ whole a c. (a, c);
}
flush-Flushed hi (n ∷ ns) lo nb w o e b s = elim (Bool-cases (leb n.start w.bytes_pushed)) [
  | inl c ↦
      let p = push-Reached hi n w s (leb→le _ _ c) o.2 in
      rw (c, sub64-eq nb (length n.bytes) (omega arith) b)
        (due-Flushed (leb→le _ _ c) p (
          flush-Flushed hi ns (finish n) (nb - length n.bytes)
            (push w (drop (sub64 w.bytes_pushed n.start) n.bytes)) o.3 (omega arith) (omega arith)
            p.sink))
  | inr c ↦ rw c (
      rw (flush_later hi ns (finish n) nb w o.3 (omega (arith, leb→gt _ _ c))) record {
        ordered = (leb→gt _ _ c, o.1, o.2, o.3);
        counted = e;
        sink = s;
        grown = Grown-refl w;
        covered = λ i. refl;
        agrees = λ whole a c. (a, c);
      })
]
