-- ===== src/Sender/Pushing.antt =====
-- TCPSender::push of src/tcp_sender.cc: the loop, and the segments that it sends.
use networkinglab.Base.{
  ℕ, zero, suc, ◌+◌, ◌-◌, ◌≤◌, ◌<◌, max, ◌≡◌, refl, ap, sym, ◌∙◌, false, ◌||◌, inl, inr, Bool-cases,
  List, [], ◌∷◌, ◌++◌, ltb, ltb→lt, ◌==◌, ==→eq, length, subst₂, append-nil, append_assoc, add64,
  add64-eq, u64_mod, u16_mod, Outcome, ok, arith,
}
use networkinglab.Wrap.{Wrap32, wrap}
use networkinglab.Message.{TcpSenderMessage, sequence_length}
use networkinglab.Stream.{ByteStream}
use networkinglab.Stream.Invariant.{contents, IsValid}
use networkinglab.Sender.{TcpSender, emit, conclude, push_loop, available_window, push}
use networkinglab.Sender.Round.{Steady, Made, round-Made}

-- The segments take up the numbers from `a` to `b` without a gap, each of them at least one.
abbrev pub Chain : Wrap32 → ℕ → ℕ → List TcpSenderMessage → Type 0
Chain isn a b [] = a ≡ b
Chain isn a b (m ∷ ms) =
    (m.seqno ≡ wrap a isn) × (0 < sequence_length m) × Chain isn (a + sequence_length m) b ms

abbrev pub payloads : List TcpSenderMessage → List ℕ
payloads [] = []
payloads (m ∷ ms) = m.payload ++ payloads ms

-- The sender has gone from `s` to `t` by sending the segments `ms` of the stream `w`, which leaves `x`.
pub record Sent (available : ℕ) (s : TcpSender) (w : ByteStream) (ms : List TcpSenderMessage)
    (t : TcpSender) (x : ByteStream) : Type 0 where
  pub steady : Steady s t
  pub queued : t.outstanding ≡ s.outstanding ++ ms
  pub readied : t.ready_to_send ≡ s.ready_to_send ++ ms
  pub numbered : Chain s.isn s.seqnums_sent t.seqnums_sent ms
  pub counted : t.seqnums_in_flight + s.seqnums_sent ≡ s.seqnums_in_flight + t.seqnums_sent
  pub within : t.seqnums_in_flight ≤ max available s.seqnums_in_flight
  pub bytes : contents w ≡ payloads ms ++ contents x
  pub valid : IsValid x
  pub same_pushed : x.bytes_pushed ≡ w.bytes_pushed

module _ (available : ℕ) (s : TcpSender) (w : ByteStream) where
  none-Sent : IsValid w → Sent available s w [] s w
  none-Sent v = record {
    steady = record { same_isn = refl; same_window = refl; same_timer = refl; same_backoff = refl };
    queued = sym (append-nil s.outstanding);
    readied = sym (append-nil s.ready_to_send);
    numbered = refl;
    counted = refl;
    within = omega arith;
    bytes = refl;
    valid = v;
    same_pushed = refl;
  }

  -- A segment without sequence numbers ends the loop.
  idle-Sent :
      (t : TcpSender) (m : TcpSenderMessage) (x : ByteStream)
      → Made available s w t m x
      → sequence_length m ≡ 0
      → Sent available s w [] t x
  unfolding sequence_length
  idle-Sent t m x k e = record {
    steady = k.steady;
    queued = k.same_outstanding ∙ sym (append-nil s.outstanding);
    readied = k.same_ready ∙ sym (append-nil s.ready_to_send);
    numbered = sym k.same_sent;
    counted = omega (arith, k.flight, k.same_sent);
    within = omega (arith, k.flight);
    bytes = k.bytes ∙ ap (λ b. b ++ contents x) (nothing m.payload (omega arith));
    valid = k.valid;
    same_pushed = k.same_pushed;
  }
    where
      nothing : (b : List ℕ) → length b ≡ 0 → b ≡ []
      nothing [] h = refl
      nothing (y ∷ ys) h = absurd (omega arith)

  module _ (t : TcpSender) (m : TcpSenderMessage) (x : ByteStream) (k : Made available s w t m x)
      (some : 0 < sequence_length m) (word : s.seqnums_sent + sequence_length m < u64_mod) where
    sent_on : add64 t.seqnums_sent (sequence_length m) ≡ s.seqnums_sent + sequence_length m
    sent_on = rw k.same_sent (add64-eq s.seqnums_sent (sequence_length m) word)

    -- A segment, and then what the rest of the loop sends.
    emit-Sent :
        (ms : List TcpSenderMessage) (u : TcpSender) (y : ByteStream)
        → Sent available (emit t m) x ms u y
        → Sent available s w (m ∷ ms) u y
    unfolding emit
    emit-Sent ms u y r = record {
      steady = record {
        same_isn = r.steady.same_isn ∙ k.steady.same_isn;
        same_window = r.steady.same_window ∙ k.steady.same_window;
        same_timer = r.steady.same_timer ∙ k.steady.same_timer;
        same_backoff = r.steady.same_backoff ∙ k.steady.same_backoff;
      };
      queued =
          r.queued
          ∙ append_assoc t.outstanding (m ∷ []) ms
          ∙ ap (λ q. q ++ (m ∷ ms)) k.same_outstanding;
      readied =
          r.readied
          ∙ append_assoc t.ready_to_send (m ∷ []) ms
          ∙ ap (λ q. q ++ (m ∷ ms)) k.same_ready;
      numbered = (
        k.number,
        some,
        subst₂ (λ i n. Chain i n u.seqnums_sent ms) k.steady.same_isn sent_on r.numbered,
      );
      counted = omega (arith, r.counted, sent_on, k.flight);
      within = omega (arith, r.within, k.within);
      bytes =
          k.bytes
          ∙ ap (λ b. m.payload ++ b) r.bytes
          ∙ sym (append_assoc m.payload (payloads ms) (contents y));
      valid = r.valid;
      same_pushed = r.same_pushed ∙ k.same_pushed;
    }

-- What the loop comes to.
abbrev pub Sends : ℕ → TcpSender → ByteStream → Outcome (TcpSender × ByteStream) → Type 0
Sends available s w r =
    (ms : List TcpSenderMessage) × (t : TcpSender) × (x : ByteStream) × (r ≡ ok (t, x))
    × Sent available s w ms t x

-- The loop on `fuel`, for every sender and stream.
abbrev Loops : ℕ → ℕ → Type 0
Loops available fuel =
    (s : TcpSender) (w : ByteStream)
    → IsValid w
    → w.bytes_pushed < u64_mod
    → available - s.seqnums_in_flight < fuel
    → s.seqnums_sent + (available - s.seqnums_in_flight) < u64_mod
    → Sends available s w (push_loop fuel available s w)

conclude-Sends :
    (available fuel : ℕ)
    → Loops available fuel
    → (s : TcpSender) (w : ByteStream) (t : TcpSender) (m : TcpSenderMessage) (x : ByteStream)
    → IsValid w
    → w.bytes_pushed < u64_mod
    → available - s.seqnums_in_flight < suc fuel
    → s.seqnums_sent + (available - s.seqnums_in_flight) < u64_mod
    → s.seqnums_in_flight < available
    → Made available s w t m x
    → Sends available s w (conclude (push_loop fuel available) (t, m, x))
unfolding conclude emit
conclude-Sends available fuel ih s w t m x v word f room open_ k =
    elim (Bool-cases (sequence_length m == 0)) [
      | inl e ↦ rw e ([], t, x, refl, idle-Sent available s w t m x k (==→eq _ 0 e))
      | inr e ↦ elim (Bool-cases (m.fin || (x.bytes_buffered == 0))) [
        | inl d ↦
            rw (e, d)
              (
                m ∷ [],
                emit t m,
                x,
                refl,
                after e [] (emit t m) x (none-Sent available (emit t m) x k.valid),
              )
        | inr d ↦
            rw (e, d)
              (let (ms, u, y, p, q) =
                  ih (emit t m) x k.valid (rw k.same_pushed word) (shorter e) (roomy e) in
                (m ∷ ms, u, y, p, after e ms u y q))
      ]
    ]
  where
    some : (sequence_length m == 0) ≡ false → 0 < sequence_length m
    some e = ground arith

    fits : s.seqnums_sent + sequence_length m < u64_mod
    fits = omega (arith, k.flight, k.within)

    after :
        (sequence_length m == 0) ≡ false
        → (ms : List TcpSenderMessage) (u : TcpSender) (y : ByteStream)
        → Sent available (emit t m) x ms u y
        → Sent available s w (m ∷ ms) u y
    after e = emit-Sent available s w t m x k (some e) fits

    shorter : (sequence_length m == 0) ≡ false → available - (emit t m).seqnums_in_flight < fuel
    shorter e = omega (arith, some e, k.flight, k.within)

    roomy :
        (sequence_length m == 0) ≡ false
        → (emit t m).seqnums_sent + (available - (emit t m).seqnums_in_flight) < u64_mod
    roomy e = omega (arith, sent_on available s w t m x k (some e) fits, k.flight, k.within)

push_loop-Sends : (available fuel : ℕ) → available < u64_mod → Loops available fuel
unfolding push_loop
push_loop-Sends available zero a s w v word f room = elim f [ ]
push_loop-Sends available (suc fuel) a s w v word f room =
    elim (Bool-cases (ltb s.seqnums_in_flight available)) [
      | inr e ↦ rw e ([], s, w, refl, none-Sent available s w v)
      | inl e ↦
          let (t, m, x, p, k) =
            round-Made available s w v word (ltb→lt _ _ e) a (push_loop fuel available) in
          rw (e, p)
            (conclude-Sends available fuel (push_loop-Sends available fuel a) s w t m x v word f
              room (ltb→lt _ _ e) k)
    ]

pub available_window_lt : (s : TcpSender) → s.window_size < u16_mod → available_window s < u16_mod
available_window_lt s h = ground arith

-- On a valid stream with fewer than 2^64 bytes pushed, with a window that fits uint16_t and fewer
-- than 2^64 - 2^16 numbers sent, push comes to an end and does not throw. The segments that it
-- sends join the end of both queues, are numbered on from the ones before without a gap, none of
-- them empty, and their payloads are the bytes that leave the stream, in order. The numbers in
-- flight grow by theirs and do not pass the window (one, if it is zero) unless they were past it
-- before. The zero point, the window, the timer and the retransmission count stay.
pub push-Sends :
    (s : TcpSender) (w : ByteStream)
    → IsValid w
    → w.bytes_pushed < u64_mod
    → s.window_size < u16_mod
    → s.seqnums_sent + u16_mod < u64_mod
    → Sends (available_window s) s w (push s w)
unfolding push
push-Sends s w v word win room =
    push_loop-Sends (available_window s) (suc (available_window s))
      (omega (arith, available_window_lt s win)) s w v word (omega arith)
      (omega (arith, available_window_lt s win))
