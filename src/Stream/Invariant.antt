-- ===== src/Stream/Invariant.antt =====
-- The counters and the queue of src/byte_stream.cc: when a stream is valid, and what push and pop
-- do to it.
use networkinglab.Base.{
  take-nil, take_of_zero, drop-drop, drop_of_zero, ge→ltb, lt→ltb, out_of_range, ==→eq, leb, ℕ,
  zero, suc, ◌+◌, ◌-◌, ◌≤◌, ◌<◌, min, ◌≡◌, refl, ap, sym, ◌∙◌, ◌==◌, List, [], ◌∷◌, ◌++◌,
  append-nil, Bool-cases, leb→le, leb→gt, inl, inr, length, take, drop, concat, concat-append,
  length-append, length-take, length-drop, take_of_length-le, drop-append-ge, drop-append-le,
  u64_mod, add64, add64-eq, sub64-eq, ok, arith,
}
use networkinglab.Stream.{
  ByteStream, init, available_capacity, push_string, fit, push, pop_strings, erase_front, pop,
}

-- The bytes that wait, in order.
abbrev pub contents : ByteStream → List ℕ
contents s = concat s.buffer

-- No string of the queue is empty.
abbrev pub AllFull : List (List ℕ) → Type 0
AllFull [] = Unit {0}
AllFull (c ∷ cs) = (0 < length c) × AllFull cs

pub record IsValid (s : ByteStream) : Type 0 where
  pub counted : s.bytes_buffered ≡ length (contents s)
  pub bounded : s.bytes_buffered ≤ s.capacity
  pub total : s.bytes_pushed ≡ s.bytes_popped + s.bytes_buffered
  pub full : AllFull s.buffer

pub init-IsValid : (capacity : ℕ) → IsValid (init capacity)
unfolding init
init-IsValid capacity = record {
  counted = refl;
  bounded = omega arith;
  total = omega arith;
  full = tt;
}

-- No counter comes near the end of uint64_t before the stream has been popped further.
abbrev pub HasRoom : ByteStream → Type 0
HasRoom s = s.bytes_popped + s.capacity < u64_mod

AllFull-append :
    (cs : List (List ℕ)) (c : List ℕ) → AllFull cs → 0 < length c → AllFull (cs ++ (c ∷ []))
AllFull-append [] c h k = (k, tt)
AllFull-append (d ∷ cs) c h k = (h.0, AllFull-append cs c h.1 k)

concat-snoc : (cs : List (List ℕ)) (c : List ℕ) → concat (cs ++ (c ∷ [])) ≡ concat cs ++ c
concat-snoc cs c = concat-append cs (c ∷ []) ∙ ap (λ d. concat cs ++ d) (append-nil c)

fit-take : (n : ℕ) (str : List ℕ) → fit n str ≡ take n str
unfolding fit
fit-take n str = ground (arith, take_of_length-le n str)

pub available_capacity-eq :
    (s : ByteStream) → IsValid s → HasRoom s → available_capacity s ≡ s.capacity - s.bytes_buffered
unfolding available_capacity
available_capacity-eq s v r = sub64-eq s.capacity s.bytes_buffered v.bounded (omega arith)

-- What Writer::push does to a valid stream, in one record.
pub record Pushed (s t : ByteStream) (str : List ℕ) : Type 0 where
  pub same_capacity : t.capacity ≡ s.capacity
  pub same_popped : t.bytes_popped ≡ s.bytes_popped
  pub same_closed : t.is_closed ≡ s.is_closed
  pub same_error : t.has_error ≡ s.has_error
  pub appended : contents t ≡ contents s ++ take (s.capacity - s.bytes_buffered) str
  pub pushed : t.bytes_pushed ≡ s.bytes_pushed + min (s.capacity - s.bytes_buffered) (length str)
  pub valid : IsValid t

module _ (s : ByteStream) (str : List ℕ) (v : IsValid s) (r : HasRoom s) where
  abbrev part : List ℕ
  part = take (s.capacity - s.bytes_buffered) str

  length-part : length part ≡ min (s.capacity - s.bytes_buffered) (length str)
  length-part = length-take (s.capacity - s.bytes_buffered) str

  pushes : add64 s.bytes_pushed (length part) ≡ s.bytes_pushed + length part
  pushes = add64-eq s.bytes_pushed (length part) (omega (arith, length-part, v.total, v.bounded))

  buffers : add64 s.bytes_buffered (length part) ≡ s.bytes_buffered + length part
  buffers = add64-eq s.bytes_buffered (length part) (omega (arith, length-part, v.bounded))

  push_string-Pushed :
      0 < length str → 0 < s.capacity - s.bytes_buffered → Pushed s (push_string s part) str
  unfolding push_string
  push_string-Pushed h k = record {
    same_capacity = refl;
    same_popped = refl;
    same_closed = refl;
    same_error = refl;
    appended = concat-snoc s.buffer part;
    pushed = omega (arith, length-part, pushes, buffers);
    valid = record {
      counted = omega (
        arith,
        length-part,
        buffers,
        ap length (concat-snoc s.buffer part),
        length-append (contents s) part,
      );
      bounded = omega (arith, length-part, pushes, buffers);
      total = omega (arith, length-part, pushes, buffers);
      full = AllFull-append s.buffer part v.full (omega (arith, length-part, pushes, buffers));
    };
  }

  skip-Pushed : part ≡ [] → Pushed s s str
  skip-Pushed e = record {
    same_capacity = refl;
    same_popped = refl;
    same_closed = refl;
    same_error = refl;
    appended = sym (ap (λ t. contents s ++ t) e ∙ append-nil (contents s));
    pushed = omega (arith, length-part, ap length e);
    valid = v;
  }

-- Writer::push appends what fits, counts it, and changes nothing else.
pub push-Pushed :
    (s : ByteStream) (str : List ℕ) → IsValid s → HasRoom s → Pushed s (push s str) str
unfolding push
push-Pushed s [] v r = skip-Pushed s [] v r (take-nil (s.capacity - s.bytes_buffered))
push-Pushed s (x ∷ xs) v r =
    rw (available_capacity-eq s v r) (elim (Bool-cases (s.capacity - s.bytes_buffered == 0)) [
      | inl e ↦ rw e (
          skip-Pushed s (x ∷ xs) v r
            (take_of_zero (s.capacity - s.bytes_buffered) (x ∷ xs) (==→eq _ 0 e)))
      | inr e ↦ rw e (rw fit-take (push_string-Pushed s (x ∷ xs) v r (omega arith) (ground arith)))
    ])

pop_strings_lem :
    (len : ℕ) (cs : List (List ℕ))
    → AllFull cs
    → len ≤ length (concat cs)
    → (rest : List (List ℕ)) × (erase_front (pop_strings len cs) ≡ ok rest)
      × (concat rest ≡ drop len (concat cs))
      × AllFull rest
unfolding pop_strings erase_front
pop_strings_lem zero [] h k = ([], refl, refl, tt)
pop_strings_lem (suc len) [] h k = elim k [ ]
pop_strings_lem len (c ∷ cs) h k = elim (Bool-cases (leb (length c) len)) [
  | inl e ↦
      let (rest, p, q, f) =
        pop_strings_lem (len - length c) cs h.1
          (omega (arith, length-append c (concat cs), leb→le _ _ e)) in
      (rest, rw (e, pop_strings) p, q ∙ sym (drop-append-ge len c (concat cs) (leb→le _ _ e)), f)
  | inr e ↦ rw (e, pop_strings) (cut len (leb→gt _ _ e))
]
  where
    cut :
        (len : ℕ)
        → len < length c
        → (rest : List (List ℕ)) × (erase_front (len, c ∷ cs) ≡ ok rest)
          × (concat rest ≡ drop len (concat (c ∷ cs)))
          × AllFull rest
    cut zero l = (c ∷ cs, refl, refl, h)
    cut (suc len) l = (
      drop (suc len) c ∷ cs,
      refl,
      sym (drop-append-le (suc len) c (concat cs) (omega arith)),
      (omega (arith, length-drop (suc len) c), h.1),
    )

-- What Reader::pop does to a valid stream that has `len` bytes.
pub record Popped (s t : ByteStream) (len : ℕ) : Type 0 where
  pub same_capacity : t.capacity ≡ s.capacity
  pub same_pushed : t.bytes_pushed ≡ s.bytes_pushed
  pub same_closed : t.is_closed ≡ s.is_closed
  pub same_error : t.has_error ≡ s.has_error
  pub removed : contents t ≡ drop len (contents s)
  pub popped : t.bytes_popped ≡ s.bytes_popped + len
  pub valid : IsValid t

pub pop_short : (s : ByteStream) (len : ℕ) → s.bytes_buffered < len → pop s len ≡ out_of_range
unfolding pop
pop_short s len h = rw (lt→ltb s.bytes_buffered len h)

pub pop-Popped :
    (s : ByteStream) (len : ℕ)
    → IsValid s
    → s.bytes_pushed < u64_mod
    → len ≤ s.bytes_buffered
    → (t : ByteStream) × (pop s len ≡ ok t) × Popped s t len
unfolding pop
pop-Popped s len v r h =
    let (cs, p, q, f) = pop_strings_lem len s.buffer v.full (omega arith) in
    (
      record s {
        bytes_popped = s.bytes_popped + len;
        bytes_buffered = s.bytes_buffered - len;
        buffer = cs;
      },
      rw (ge→ltb s.bytes_buffered len h) (
          rw p (
            rw (
              add64-eq s.bytes_popped len (omega arith),
              sub64-eq s.bytes_buffered len h (omega arith),
            ))),
      record {
        same_capacity = refl;
        same_pushed = refl;
        same_closed = refl;
        same_error = refl;
        removed = q;
        popped = refl;
        valid = record {
          counted = omega (arith, ap length q, length-drop len (contents s));
          bounded = omega arith;
          total = omega arith;
          full = f;
        };
      },
    )

pub Popped-zero : (s : ByteStream) (n : ℕ) → IsValid s → n ≡ 0 → Popped s s n
Popped-zero s n v e = record {
  same_capacity = refl;
  same_pushed = refl;
  same_closed = refl;
  same_error = refl;
  removed = sym (drop_of_zero n (contents s) e);
  popped = omega arith;
  valid = v;
}

pub Popped-trans :
    {s t u : ByteStream} (m n k : ℕ) → Popped s t m → Popped t u n → k ≡ m + n → Popped s u k
Popped-trans {s} {t} {u} m n k p q e = record {
  same_capacity = q.same_capacity ∙ p.same_capacity;
  same_pushed = q.same_pushed ∙ p.same_pushed;
  same_closed = q.same_closed ∙ p.same_closed;
  same_error = q.same_error ∙ p.same_error;
  removed =
      q.removed
      ∙ ap (drop n) p.removed
      ∙ drop-drop n m (contents s)
      ∙ ap (λ i. drop i (contents s)) (sym e);
  popped = omega arith;
  valid = q.valid;
}
