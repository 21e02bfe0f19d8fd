-- ===== src/StreamCopy/Flowing.antt =====
-- The callbacks of apps/bidirectional_stream_copy.cc: what has come in has gone out or waits.
use networkinglab.Base.{
  ℕ, zero, suc, ◌+◌, ◌-◌, ◌≤◌, ◌<◌, ◌^◌, ◌≡◌, refl, ap, sym, subst, ◌∙◌, true, false, ◌||◌, ◌&&◌,
  not, inl, inr, Bool, Bool-cases, List, [], ◌∷◌, ◌++◌, append_assoc, ltb, ltb→ge, ◌==◌, is_empty,
  if◌then◌else◌, length, length-append, take, drop, take_of_length-le, take-append-le,
  take-append-drop, replicate, concat, u64_mod, Outcome, ok, ◌>>=◌, Holds, Holds->>=, Holds-Unit,
  Holds-self, ok-injective, length-take, arith,
}
use networkinglab.Stream
use networkinglab.Stream.{ByteStream, available_capacity, peek, front, is_finished}
use networkinglab.Stream.Invariant.{
  contents, IsValid, available_capacity-eq, Pushed, push-Pushed, Popped, pop-Popped,
}
use networkinglab.Descriptor.{Answer, done, failed, FdWrapper, would_block}
use networkinglab.Descriptor
use networkinglab.StreamCopy.{Flow, take_in, give_out, finish}

-- What has come in has gone out or waits, in order.
pub record IsLossless (f : Flow) : Type 0 where
  pub valid : IsValid f.stream
  pub sized : f.stream.capacity < 2 ^ 62
  pub kept : f.taken ≡ f.given ++ contents f.stream
  pub popped : length f.given ≡ f.stream.bytes_popped

-- As long as fewer than 2^63 bytes have come in and no read has found nothing to read.
abbrev pub Flows : Flow → Type 0
Flows f = length f.taken < 2 ^ 63 → f.stalled ≡ false → IsLossless f

pub length-replicate : (n x : ℕ) → length (replicate n x) ≡ n
length-replicate zero x = refl
length-replicate (suc n) x = ap suc (length-replicate n x)

pub is_empty-replicate : (n x : ℕ) → 0 < n → is_empty (replicate n x) ≡ false
is_empty-replicate zero x h = absurd (omega arith)
is_empty-replicate (suc n) x h = refl

-- A read of the available capacity.
read_room :
    (d : FdWrapper) (n : ℕ) (bytes : List ℕ)
    → 0 < n
    → Holds
        (λ r. (r.0 ≡ bytes) × (length bytes ≤ n))
        (Descriptor.read d (replicate n 0) (done bytes))
unfolding Descriptor.read
read_room d n bytes h =
    rw (is_empty-replicate n 0 h, length-replicate n 0)
      (elim (Bool-cases (ltb n (length bytes))) [
        | inl e ↦ rw e tt
        | inr e ↦ rw e (refl, ltb→ge _ _ e)
      ])

module _ (f : Flow) (h : Flows f) where
  module _ (bytes : List ℕ) (b : Bool) (fits : length bytes ≤ available_capacity f.stream)
      (few : length (f.taken ++ bytes) < 2 ^ 63) (busy : f.stalled ≡ false) where
    before : IsLossless f
    before = h (omega (arith, length-append f.taken bytes)) busy

    wide : f.stream.bytes_popped + f.stream.capacity < u64_mod
    wide = omega (
      arith,
      before.popped,
      before.sized,
      ap length before.kept,
      length-append f.given (contents f.stream),
      length-append f.taken bytes,
    )

    push_room : Pushed f.stream (Stream.push f.stream bytes) bytes
    push_room = push-Pushed f.stream bytes before.valid wide

    all : take (f.stream.capacity - f.stream.bytes_buffered) bytes ≡ bytes
    all =
        take_of_length-le (f.stream.capacity - f.stream.bytes_buffered) bytes
          (omega (arith, fits, available_capacity-eq f.stream before.valid wide))

    took :
        IsLossless
          (record f { stream = Stream.push f.stream bytes; taken = f.taken ++ bytes; stalled = b })
    took = record {
      valid = push_room.valid;
      sized = rw push_room.same_capacity before.sized;
      kept =
          ap (λ ys. ys ++ bytes) before.kept
          ∙ append_assoc f.given (contents f.stream) bytes
          ∙ ap (λ ys. f.given ++ ys)
              (sym (push_room.appended ∙ ap (λ ys. contents f.stream ++ ys) all));
      popped = before.popped ∙ sym push_room.same_popped;
    }

-- Closing the stream loses nothing.
pub close-IsLossless :
    (f : Flow) → IsLossless f → IsLossless (record f { stream = Stream.close f.stream })
unfolding Stream.close
close-IsLossless f k = record {
  valid = record {
    counted = k.valid.counted;
    bounded = k.valid.bounded;
    total = k.valid.total;
    full = k.valid.full;
  };
  sized = k.sized;
  kept = k.kept;
  popped = k.popped;
}

-- Closed or not.
ended-IsLossless :
    (b : Bool) (f : Flow)
    → IsLossless f
    → IsLossless (record f { stream = if b then Stream.close f.stream else f.stream })
ended-IsLossless false f k = k
ended-IsLossless true f k = close-IsLossless f k

-- A read where there is room.
pub take_in-Holds :
    (d : FdWrapper) (f : Flow) (a : Answer (List ℕ))
    → 0 < available_capacity f.stream
    → Flows f
    → Holds (λ r. Flows r.1) (take_in d f a)
unfolding take_in
take_in-Holds d f (done bytes) room h =
    Holds->>= (λ r. (r.0 ≡ bytes) × (length bytes ≤ available_capacity f.stream)) (λ r. Flows r.1)
      (Descriptor.read d (replicate (available_capacity f.stream) 0) (done bytes)) _
      (read_room d (available_capacity f.stream) bytes room)
      (λ r g few calm.
        ended-IsLossless r.1.eof _
          (rw (g.0) (took f h bytes (f.stalled || false) g.1 few (ground arith))))
take_in-Holds d f (failed e) room h =
    Holds->>= (λ r. Unit {0}) (λ r. Flows r.1)
      (Descriptor.read d (replicate (available_capacity f.stream) 0) (failed e)) _ (Holds-Unit _)
      (λ r g few calm. absurd (ground arith))

-- What write takes off the front of the stream.
gave :
    (f : Flow) (c : List ℕ) (cs : List (List ℕ)) (n : ℕ) (s : ByteStream)
    → IsLossless f
    → f.stream.buffer ≡ c ∷ cs
    → n ≤ length c
    → Popped f.stream s n
    → IsLossless (record f { stream = s; given = f.given ++ take n c })
gave f c cs n s k e h p = record {
  valid = p.valid;
  sized = rw p.same_capacity k.sized;
  kept =
      k.kept
      ∙ ap (λ ys. f.given ++ ys)
          (sym (take-append-drop n (contents f.stream))
            ∙ ap (λ ys. ys ++ drop n (contents f.stream)) front_part
            ∙ ap (λ ys. take n c ++ ys) (sym p.removed))
      ∙ sym (append_assoc f.given (take n c) (contents s));
  popped = length-append f.given (take n c) ∙ omega (arith, k.popped, p.popped, length-take n c);
}
  where
    front_part : take n (contents f.stream) ≡ take n c
    front_part = ap (λ b. take n (concat b)) e ∙ take-append-le n c (concat cs) h

write_front :
    (d : FdWrapper) (c : List ℕ) (a : Answer ℕ)
    → Holds (λ r. r.0 ≤ length c) (Descriptor.write d c a)
unfolding Descriptor.write Descriptor.write_vector
write_front d c a =
    Holds->>= (λ n. Unit {0}) (λ r. r.0 ≤ length c) (Descriptor.check_system_call d a) _
      (Holds-Unit _)
      (λ n u. elim (Bool-cases ((n == 0) && not (length (c ++ []) == 0))) [
        | inl e ↦ rw e tt
        | inr e ↦ rw e (elim (Bool-cases (ltb (length (c ++ [])) n)) [
          | inl k ↦ rw k tt
          | inr k ↦ rw k (omega (arith, ltb→ge _ _ k, length-append c []))
        ])
      ])

-- The front string is the first one of the queue.
peek-Holds :
    (s : ByteStream) (b : List (List ℕ))
    → s.buffer ≡ b
    → Holds (λ view. (cs : List (List ℕ)) × (s.buffer ≡ view ∷ cs)) (front b)
unfolding front
peek-Holds s [] e = tt
peek-Holds s (c ∷ cs) e = (cs, e)

module _ (f : Flow) (c : List ℕ) (cs : List (List ℕ)) (e : f.stream.buffer ≡ c ∷ cs)
    (k : IsLossless f) where
  shorter : (n : ℕ) → n ≤ length c → n ≤ f.stream.bytes_buffered
  shorter n g =
      omega (arith, k.valid.counted, ap (λ b. length (concat b)) e, length-append c (concat cs))

  small : length f.taken < 2 ^ 63 → f.stream.bytes_pushed < u64_mod
  small few = omega (
    arith,
    k.popped,
    k.valid.total,
    k.valid.bounded,
    k.sized,
    ap length k.kept,
    length-append f.given (contents f.stream),
  )

  popped-gave :
      (n : ℕ) (s : ByteStream)
      → n ≤ length c
      → length f.taken < 2 ^ 63
      → Stream.pop f.stream n ≡ ok s
      → IsLossless (record f { stream = s; given = f.given ++ take n c })
  popped-gave n s g few q =
      let (t, o, p) = pop-Popped f.stream n k.valid (small few) (shorter n g) in
      gave f c cs n s k e g (subst (λ v. Popped f.stream v n) (ok-injective (sym o ∙ q)) p)

front-Holds :
    (d : FdWrapper) (f : Flow) (a : Answer ℕ)
    → Flows f
    → Holds {A = FdWrapper × Flow}
        (λ r. Flows r.1)
        (peek f.stream >>= λ view. Descriptor.write d view a >>= λ r.
          Stream.pop f.stream r.0 >>= λ s.
          ok (r.1, record f { stream = s; given = f.given ++ take r.0 view }))
unfolding peek
front-Holds d f a h =
    Holds->>= {A = List ℕ} {B = FdWrapper × Flow}
      (λ view. (cs : List (List ℕ)) × (f.stream.buffer ≡ view ∷ cs)) (λ r. Flows r.1)
      (front f.stream.buffer)
      (λ view. Descriptor.write d view a >>= λ r. Stream.pop f.stream r.0 >>= λ s.
        ok (r.1, record f { stream = s; given = f.given ++ take r.0 view }))
      (peek-Holds f.stream f.stream.buffer refl)
      (λ c v.
        Holds->>= {A = ℕ × FdWrapper} {B = FdWrapper × Flow} (λ r. r.0 ≤ length c) (λ r. Flows r.1)
          (Descriptor.write d c a)
          (λ r. Stream.pop f.stream r.0 >>= λ s.
            ok (r.1, record f { stream = s; given = f.given ++ take r.0 c }))
          (write_front d c a)
          (λ r g.
            Holds->>= {A = ByteStream} {B = FdWrapper × Flow} (λ s. Stream.pop f.stream r.0 ≡ ok s)
              (λ t. Flows t.1) (Stream.pop f.stream r.0) _ (Holds-self _)
              (λ s q few calm. popped-gave f c v.0 v.1 (h few calm) r.0 s g few q)))

-- A write, and what is popped then.
pub give_out-Holds :
    (d : FdWrapper) (f : Flow) (a : Answer ℕ) → Flows f → Holds (λ r. Flows r.1) (give_out d f a)
unfolding give_out
give_out-Holds d f a h = elim (Bool-cases (f.stream.bytes_buffered == 0)) [
  | inl e ↦ rw e h
  | inr e ↦ rw e (front-Holds d f a h)
]

-- Passing the end on touches no byte.
pub finish-Holds :
    (pass_on : FdWrapper → Outcome FdWrapper) (r : FdWrapper × Flow)
    → Flows r.1
    → Holds (λ t. Flows t.1) (finish pass_on r)
unfolding finish
finish-Holds pass_on (d, f) h = elim (Bool-cases (is_finished f.stream)) [
  | inl e ↦ rw e (
      Holds->>= {A = FdWrapper} {B = FdWrapper × Flow} (λ d'. Unit {0}) (λ t. Flows t.1) (pass_on d)
        _ (Holds-Unit (pass_on d))
        (λ d' u few calm.
          let k = h few calm in
          record { valid = k.valid; sized = k.sized; kept = k.kept; popped = k.popped }))
  | inr e ↦ rw e h
]
