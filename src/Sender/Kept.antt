-- ===== src/Sender/Kept.antt =====
-- TCPSender::receive of src/tcp_sender.cc: what no acknowledgment changes.
use networkinglab.Base.{
  ℕ, ◌≡◌, refl, List, [], ◌∷◌, Bool-cases, Option-cases, inl, inr, leb, ltb, add64, sub64,
}
use networkinglab.Wrap.{Wrap32, unwrap}
use networkinglab.Message.{TcpSenderMessage, TcpReceiverMessage, sequence_length}
use networkinglab.Sender.Timer
use networkinglab.Sender.{TcpSender, acknowledge, take_ack, reset_backoff, receive}

-- The same number of sequence numbers has been sent, and the window is the same.
abbrev pub Keeps : TcpSender → TcpSender → Type 0
Keeps s t = (t.seqnums_sent ≡ s.seqnums_sent) × (t.window_size ≡ s.window_size)

acknowledge-Keeps :
    (a : ℕ) (s : TcpSender) (ms : List TcpSenderMessage) → Keeps s (acknowledge a s ms)
unfolding acknowledge
acknowledge-Keeps a s [] = (refl, refl)
acknowledge-Keeps a s (m ∷ ms) =
    elim (Bool-cases (leb (add64 (unwrap m.seqno s.isn s.seqnums_sent) (sequence_length m)) a)) [
      | inl e ↦
          rw (acknowledge, e)
            (acknowledge-Keeps a
              (record s {
                seqnums_in_flight = sub64 s.seqnums_in_flight (sequence_length m);
                timer = Timer.start s.timer;
              })
              ms)
      | inr e ↦ rw (acknowledge, e) (refl, refl)
    ]

take_ack-Keeps : (s : TcpSender) (ackno : Wrap32) → Keeps s (take_ack s ackno)
unfolding take_ack reset_backoff
take_ack-Keeps s ackno =
    elim (Bool-cases (ltb s.seqnums_sent (unwrap ackno s.isn s.seqnums_sent))) [
      | inl e ↦ rw e (refl, refl)
      | inr e ↦ rw e (acknowledge-Keeps (unwrap ackno s.isn s.seqnums_sent) s s.outstanding)
    ]

-- receive takes the window of the message, and forgets no number that has been sent.
pub receive-Keeps :
    (s : TcpSender) (msg : TcpReceiverMessage)
    → Keeps (record s { window_size = msg.window_size }) (receive s msg)
unfolding receive
receive-Keeps s msg = elim (Option-cases msg.ackno) [
  | inl e ↦ rw e (refl, refl)
  | inr (ackno, e) ↦ rw e (take_ack-Keeps (record s { window_size = msg.window_size }) ackno)
]
