-- ===== src/Connection/Pushing.antt =====
-- TCPSender::push of src/tcp_sender.cc: after any number of rounds the sender has sent pieces of its
-- stream.
use networkinglab.Base.{
  ℕ, zero, suc, ◌+◌, ◌<◌, ◌≡◌, refl, ap, sym, subst, ◌∙◌, true, false, ◌||◌, inl, inr, Bool-cases,
  List, [], ◌∷◌, ◌++◌, ltb, ◌==◌, ==→eq, length, add64, add64-eq, u32_mod, ok, ok-injective,
  Outcome, arith,
}
use networkinglab.Wrap.{Wrap32, wrap}
use networkinglab.Wrap.Laws.{wrap-eq}
use networkinglab.Message.{TcpSenderMessage, flag, flag_le, sequence_length}
use networkinglab.Stream.{ByteStream}
use networkinglab.Stream.Invariant.{contents}
use networkinglab.Reassembler.Layout.{Agrees, Agrees-take, Agrees-drop}
use networkinglab.Receiver.Delivery.{IsSegment}
use networkinglab.Sender.{TcpSender, emit, conclude, push_loop, push, available_window}
use networkinglab.Connection.Pieces.{
  IsPiece, AllPieces, Onward, Onward-refl, Onward-trans, AllPieces-Onward, AllPieces-append,
}
use networkinglab.Connection.Sending.{IsSending, Rounded, round-Rounded}

wrap_zero : (isn : Wrap32) → isn < u32_mod → wrap 0 isn ≡ isn
wrap_zero isn z = omega (arith, wrap-eq 0 isn)

module _ (whole : ℕ → ℕ) (isn : Wrap32) (z : isn < u32_mod) where
  module _ (s : TcpSender) (w : ByteStream) (t : TcpSender) (m : TcpSenderMessage) (x : ByteStream)
      (k : IsSending whole isn s w) (r : Rounded s w t m x) where
    onward : Onward w x
    onward = record {
      further = omega (arith, r.popped.popped);
      stays_closed = λ e. r.popped.same_closed ∙ e;
    }

    rest : Agrees whole x.bytes_popped (contents x)
    rest =
        rw (r.popped.removed, r.popped.popped)
          (Agrees-drop whole (length m.payload) w.bytes_popped (contents w) k.bytes)

    empties : w.bytes_buffered ≡ 0 → x.bytes_buffered ≡ 0
    empties e =
        omega (arith, r.popped.valid.total, r.popped.popped, r.popped.same_pushed, k.valid.total)

    ends : t.fin ≡ true → (x.is_closed ≡ true) × (x.bytes_buffered ≡ 0)
    ends e = elim (Bool-cases s.fin) [
      | inl d ↦ (r.popped.same_closed ∙ (k.ended d).0, empties (k.ended d).1)
      | inr d ↦ elim (Bool-cases m.fin) [
        | inl f ↦ r.drained f
        | inr f ↦ absurd (omega (arith, r.closing, ap flag d, ap flag e, ap flag f))
      ]
    ]

    -- A segment without sequence numbers ends the loop.
    idle-IsSending : sequence_length m ≡ 0 → IsSending whole isn t x
    unfolding sequence_length
    idle-IsSending e = record {
      zero_point = r.same_isn ∙ k.zero_point;
      valid = r.popped.valid;
      short = rw r.popped.same_capacity k.short;
      few = omega (arith, r.popped.same_pushed, k.few);
      bytes = rest;
      numbers =
          omega (
            arith,
            r.same_sent,
            k.numbers,
            r.opening,
            r.closing,
            ap flag r.synced,
            r.popped.popped,
          );
      opened = λ d. absurd (omega (arith, ap flag r.synced, ap flag d));
      ended = ends;
      queued = rw r.same_outstanding (AllPieces-Onward whole isn s.outstanding onward k.queued);
      readied = rw r.same_ready (AllPieces-Onward whole isn s.ready_to_send onward k.readied);
    }

    module _ (some : 0 < sequence_length m) where
      unfinished : s.fin ≡ false
      unfolding sequence_length
      unfinished = elim (Bool-cases s.fin) [
        | inr d ↦ d
        | inl d ↦ absurd (elim (Bool-cases s.syn) [
          | inl c ↦ omega (
            arith,
            ap flag d,
            ap flag c,
            r.opening,
            r.closing,
            flag_le t.fin,
            some,
            (k.ended d).1,
            r.popped.valid.total,
            r.popped.popped,
            r.popped.same_pushed,
            k.valid.total,
          )
          | inr c ↦ omega (arith, ap flag d, ap flag (k.opened c).0)
        ])
      ]

      numbered : s.seqnums_sent ≡ flag s.syn + w.bytes_popped
      numbered = omega (arith, k.numbers, ap flag unfinished)

      segment : IsSegment whole isn w.bytes_popped m
      segment = record {
        opening = λ e. (
          r.number ∙ ap (λ n. wrap n s.isn) (first e) ∙ rw k.zero_point (wrap_zero isn z),
          (k.opened (unsynced e)).1,
        );
        numbered = λ e.
            rw (r.number, k.zero_point)
              (ap (λ n. wrap n isn) (omega (arith, numbered, r.opening, ap flag e)));
        truthful =
            subst (Agrees whole w.bytes_popped) (sym r.payload)
              (Agrees-take whole (length m.payload) w.bytes_popped (contents w) k.bytes);
      }
        where
          unsynced : m.syn ≡ true → s.syn ≡ false
          unsynced e = elim (Bool-cases s.syn) [
            | inr c ↦ c
            | inl c ↦ absurd (omega (arith, r.opening, ap flag e, ap flag c))
          ]

          first : m.syn ≡ true → s.seqnums_sent ≡ 0
          first e = omega (arith, numbered, r.opening, ap flag e, (k.opened (unsynced e)).1)

      piece : IsPiece whole isn x m
      piece = record {
        index = w.bytes_popped;
        segment = segment;
        begun = omega (arith, r.popped.popped);
        within = λ h. omega (arith, r.popped.popped);
        final = λ e. (r.drained e).0;
      }

      joins :
          (ms : List TcpSenderMessage)
          → AllPieces whole isn w ms
          → AllPieces whole isn x (ms ++ (m ∷ []))
      joins ms h =
          AllPieces-append whole isn x ms (m ∷ []) (AllPieces-Onward whole isn ms onward h)
            (piece, tt)

      fits : add64 t.seqnums_sent (sequence_length m) ≡ s.seqnums_sent + sequence_length m
      unfolding sequence_length
      fits = rw r.same_sent (
          add64-eq s.seqnums_sent (sequence_length m) (
            omega (
              arith,
              numbered,
              flag_le s.syn,
              flag_le m.syn,
              flag_le m.fin,
              k.few,
              r.popped.valid.total,
              r.popped.popped,
              r.popped.same_pushed,
            )))

      emit-IsSending : IsSending whole isn (emit t m) x
      unfolding emit sequence_length
      emit-IsSending = record {
        zero_point = r.same_isn ∙ k.zero_point;
        valid = r.popped.valid;
        short = rw r.popped.same_capacity k.short;
        few = omega (arith, r.popped.same_pushed, k.few);
        bytes = rest;
        numbers = omega (
          arith,
          fits,
          numbered,
          r.opening,
          r.closing,
          ap flag unfinished,
          ap flag r.synced,
          r.popped.popped,
        );
        opened = λ d. absurd (omega (arith, ap flag r.synced, ap flag d));
        ended = ends;
        queued = rw r.same_outstanding (joins s.outstanding k.queued);
        readied = rw r.same_ready (joins s.ready_to_send k.readied);
      }

  -- A loop that has begun with the stream `w` has left `u` and `y`.
  abbrev pub Leaves : ByteStream → TcpSender → ByteStream → Type 0
  Leaves w u y = IsSending whole isn u y × Onward w y × (y.bytes_pushed ≡ w.bytes_pushed)

  -- The loop on `fuel`, for every sender and stream.
  abbrev Keeps : ℕ → ℕ → Type 0
  Keeps available fuel =
      (s : TcpSender) (w : ByteStream) (u : TcpSender) (y : ByteStream)
      → IsSending whole isn s w
      → push_loop fuel available s w ≡ ok (u, y)
      → Leaves w u y

  returned :
      {t u : TcpSender} {w x y : ByteStream}
      → Leaves w t x
      → ◌≡◌ {A = Outcome (TcpSender × ByteStream)} (ok (t, x)) (ok (u, y))
      → Leaves w u y
  returned {t} {u} {w} {x} {y} k e =
      subst {A = TcpSender × ByteStream} (λ p. Leaves w p.0 p.1) (ok-injective e) k

  later :
      {w x y : ByteStream} {u : TcpSender}
      → Onward w x
      → x.bytes_pushed ≡ w.bytes_pushed
      → Leaves x u y
      → Leaves w u y
  later o p k = (k.0, Onward-trans o k.1, k.2 ∙ p)

  conclude-Leaves :
      (available fuel : ℕ)
      → Keeps available fuel
      → (s : TcpSender) (w : ByteStream) (t : TcpSender) (m : TcpSenderMessage) (x : ByteStream)
        (u : TcpSender) (y : ByteStream)
      → IsSending whole isn s w
      → Rounded s w t m x
      → conclude (push_loop fuel available) (t, m, x) ≡ ok (u, y)
      → Leaves w u y
  unfolding conclude
  conclude-Leaves available fuel ih s w t m x u y k r = elim (Bool-cases (sequence_length m == 0)) [
    | inl d ↦ rw d (returned (idle-IsSending s w t m x k r (==→eq _ 0 d), o, r.popped.same_pushed))
    | inr d ↦ elim (Bool-cases (m.fin || (x.bytes_buffered == 0))) [
      | inl f ↦
          rw (d, f)
            (returned (emit-IsSending s w t m x k r (ground arith), o, r.popped.same_pushed))
      | inr f ↦
          rw (d, f)
            (λ e.
              later o r.popped.same_pushed
                (ih (emit t m) x u y (emit-IsSending s w t m x k r (ground arith)) e))
    ]
  ]
    where
      o : Onward w x
      o = onward s w t m x k r

  push_loop-Leaves : (available fuel : ℕ) → Keeps available fuel
  unfolding push_loop
  push_loop-Leaves available zero s w u y k = λ e. cc
  push_loop-Leaves available (suc fuel) s w u y k =
      elim (Bool-cases (ltb s.seqnums_in_flight available)) [
        | inr e ↦ rw e (returned (k, Onward-refl w, refl))
        | inl e ↦
            let (t, m, x, p, r) =
              round-Rounded available s w k.valid (omega (arith, k.few))
                (push_loop fuel available) in
            rw (e, p)
              (conclude-Leaves available fuel (push_loop-Leaves available fuel) s w t m x u y k r)
      ]

  -- A call of push that returns leaves a sender that has sent pieces of its stream, which has
  -- moved on, with nothing written to it.
  pub push-Leaves :
      (s : TcpSender) (w : ByteStream) (u : TcpSender) (y : ByteStream)
      → IsSending whole isn s w
      → push s w ≡ ok (u, y)
      → Leaves w u y
  unfolding push
  push-Leaves s w = push_loop-Leaves (available_window s) (suc (available_window s)) s w
