-- ===== src/Sender/Timing.antt =====
-- TCPSender::tick of src/tcp_sender.cc: the retransmission timer.
use networkinglab.Base.{
  ℕ, ◌+◌, ◌*◌, ◌≤◌, ◌<◌, ◌≡◌, refl, ap, sym, subst, ◌∙◌, ◌⊎◌, inl, inr, List, [], ◌∷◌, ◌++◌, le→leb,
  gt→leb, ◌==◌, if◌then◌else◌, is_empty, add64-eq, u64_mod, u16_mod, ok, ok-injective, arith,
}
use networkinglab.Message.{TcpSenderMessage}
use networkinglab.Stream.{ByteStream}
use networkinglab.Stream.Invariant.{IsValid}
use networkinglab.Sender.Timer
use networkinglab.Sender.{TcpSender, tick, retransmit, push}
use networkinglab.Sender.Round.{Steady}
use networkinglab.Sender.Pushing.{push-Sends}

-- The sender after `ms` milliseconds in which nothing else happens.
abbrev pub aged : TcpSender → ℕ → TcpSender
aged s ms = record s {
  timer = record { rto = s.timer.rto; time_passage = s.timer.time_passage + ms };
}

-- If nothing is outstanding or the timer does not run out within the time that passes, and the
-- time fits uint64_t, then tick only lets the time pass.
pub tick_waits :
    (s : TcpSender) (ms : ℕ)
    → s.timer.time_passage + ms < u64_mod
    → (s.outstanding ≡ []) ⊎ (s.timer.time_passage + ms < s.timer.rto)
    → tick s ms ≡ aged s ms
unfolding tick retransmit Timer.tick Timer.is_expired
tick_waits s ms w (inl e) = rw (add64-eq s.timer.time_passage ms w) (ground (arith, ap is_empty e))
tick_waits s ms w (inr h) =
    rw (add64-eq s.timer.time_passage ms w, gt→leb s.timer.rto (s.timer.time_passage + ms) h) refl

-- If a segment is outstanding and the timer runs out within the time that passes, the oldest
-- outstanding segment is sent again, the timer starts anew, with twice the timeout unless the
-- window is zero, the retransmission is counted, and nothing else changes; no counter passes 2^64.
pub tick_resends :
    (s : TcpSender) (ms : ℕ) (m : TcpSenderMessage) (rest : List TcpSenderMessage)
    → s.timer.time_passage + ms < u64_mod
    → s.timer.rto * 2 < u64_mod
    → s.retransmissions + 1 < u64_mod
    → s.outstanding ≡ m ∷ rest
    → s.timer.rto ≤ s.timer.time_passage + ms
    → tick s ms ≡ record s {
      ready_to_send = s.ready_to_send ++ (m ∷ []);
      timer = record {
        rto = if s.window_size == 0 then s.timer.rto else s.timer.rto * 2;
        time_passage = 0;
      };
      retransmissions = s.retransmissions + 1;
    }
unfolding tick retransmit Timer.tick Timer.is_expired Timer.start Timer.double_rto
tick_resends s ms m rest w d c e h =
    rw (add64-eq s.timer.time_passage ms w, le→leb s.timer.rto (s.timer.time_passage + ms) h)
      (ground (arith, e, add64-eq s.retransmissions 1 c))

-- If nothing is outstanding, an idle time passes that runs the timer out, and push, on a valid
-- stream, with a window that fits uint16_t and no counter near 2^64, then sends a segment, a tick
-- of no time at all sends that segment again and counts a retransmission.
pub resends_too_soon :
    (s t : TcpSender) (w x : ByteStream) (idle : ℕ) (m : TcpSenderMessage)
    (rest : List TcpSenderMessage)
    → s.outstanding ≡ []
    → s.timer.time_passage + idle < u64_mod
    → s.timer.rto * 2 < u64_mod
    → s.retransmissions + 1 < u64_mod
    → s.timer.rto ≤ s.timer.time_passage + idle
    → IsValid w
    → w.bytes_pushed < u64_mod
    → s.window_size < u16_mod
    → s.seqnums_sent + u16_mod < u64_mod
    → push (tick s idle) w ≡ ok (t, x)
    → t.outstanding ≡ m ∷ rest
    → ((tick t 0).ready_to_send ≡ t.ready_to_send ++ (m ∷ []))
      × ((tick t 0).retransmissions ≡ s.retransmissions + 1)
resends_too_soon s t w x idle m rest none_out wi d c late v word win room e out =
    let again =
      tick_resends t 0 m rest (omega (arith, passage)) (omega (arith, rto))
        (omega (arith, same.same_backoff)) out (omega (arith, passage, rto)) in
    (
      ap (λ u. u.ready_to_send) again,
      ap (λ u. u.retransmissions) again ∙ omega (arith, same.same_backoff),
    )
  where
    same : Steady (aged s idle) t
    same =
        let (ms, t', x', p, k) = push-Sends (aged s idle) w v word win room in
        subst (Steady (aged s idle))
          (ap (λ r. r.0)
            (ok-injective
              (sym p ∙ ap (λ u. push u w) (sym (tick_waits s idle wi (inl none_out))) ∙ e)))
          k.steady

    passage : t.timer.time_passage ≡ s.timer.time_passage + idle
    passage = ap (λ r. r.time_passage) same.same_timer

    rto : t.timer.rto ≡ s.timer.rto
    rto = ap (λ r. r.rto) same.same_timer
