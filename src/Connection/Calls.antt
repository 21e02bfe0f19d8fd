-- ===== src/Connection/Calls.antt =====
-- The other calls of the sending side, of src/tcp_sender.cc and src/byte_stream.cc: what a sender
-- that has sent pieces of its stream keeps.
use networkinglab.Base.{
  ℕ, ◌+◌, ◌-◌, ◌≤◌, ◌^◌, ◌≡◌, refl, ap, subst, ◌∙◌, true, false, not, ◌||◌, inl, inr, Bool-cases,
  Option-cases, Option, some, none, some-injective, List, [], ◌∷◌, ltb, leb, is_empty, length, take,
  add64, sub64, arith,
}
use networkinglab.Wrap.{Wrap32, wrap, unwrap}
use networkinglab.Message.{TcpSenderMessage, TcpReceiverMessage, flag, flag_le, sequence_length}
use networkinglab.Stream.{ByteStream, close}
use networkinglab.Stream
use networkinglab.Stream.Invariant.{contents, Pushed, push-Pushed}
use networkinglab.Reassembler.Layout.{Agrees, Agrees-append, Agrees-at}
use networkinglab.Sender.Timer
use networkinglab.Sender.{
  TcpSender, acknowledge, take_ack, reset_backoff, receive, retransmit, tick, maybe_send, pop_front,
  send_empty_message,
}
use networkinglab.Connection.Pieces.{IsPiece, AllPieces, Onward, AllPieces-Onward, AllPieces-append}
use networkinglab.Connection.Sending.{IsSending}

module _ (whole : ℕ → ℕ) (isn : Wrap32) (w : ByteStream) where
  alike-IsSending :
      {s t : TcpSender}
      → IsSending whole isn s w
      → t.isn ≡ s.isn
      → t.seqnums_sent ≡ s.seqnums_sent
      → t.syn ≡ s.syn
      → t.fin ≡ s.fin
      → AllPieces whole isn w t.outstanding
      → AllPieces whole isn w t.ready_to_send
      → IsSending whole isn t w
  alike-IsSending k same_isn same_sent same_syn same_fin q r = record {
    zero_point = same_isn ∙ k.zero_point;
    valid = k.valid;
    short = k.short;
    few = k.few;
    bytes = k.bytes;
    numbers = rw (same_sent, same_syn, same_fin) k.numbers;
    opened = rw (same_syn, same_fin) k.opened;
    ended = rw same_fin k.ended;
    queued = q;
    readied = r;
  }

  acknowledge-IsSending :
      (a : ℕ) (s : TcpSender) (ms : List TcpSenderMessage)
      → IsSending whole isn s w
      → AllPieces whole isn w ms
      → IsSending whole isn (acknowledge a s ms) w
  unfolding acknowledge
  acknowledge-IsSending a s [] k h = alike-IsSending k refl refl refl refl tt k.readied
  acknowledge-IsSending a s (m ∷ ms) k h =
      elim (Bool-cases (leb (add64 (unwrap m.seqno s.isn s.seqnums_sent) (sequence_length m)) a)) [
        | inl e ↦
            rw (acknowledge, e)
              (acknowledge-IsSending a
                (record s {
                  seqnums_in_flight = sub64 s.seqnums_in_flight (sequence_length m);
                  timer = Timer.start s.timer;
                })
                ms (alike-IsSending k refl refl refl refl k.queued k.readied) h.1)
        | inr e ↦ rw (acknowledge, e) (alike-IsSending k refl refl refl refl h k.readied)
      ]

  -- Acknowledgments only take segments away.
  take_ack-IsSending :
      (s : TcpSender) (ackno : Wrap32)
      → IsSending whole isn s w
      → IsSending whole isn (take_ack s ackno) w
  unfolding take_ack reset_backoff
  take_ack-IsSending s ackno k =
      elim (Bool-cases (ltb s.seqnums_sent (unwrap ackno s.isn s.seqnums_sent))) [
        | inl e ↦ rw e k
        | inr e ↦ rw e (
            let t = acknowledge (unwrap ackno s.isn s.seqnums_sent) s s.outstanding in
            let q =
              acknowledge-IsSending (unwrap ackno s.isn s.seqnums_sent) s s.outstanding k
                k.queued in
            alike-IsSending q refl refl refl refl q.queued q.readied)
      ]

  -- Whatever a message of the other side says, the sender has still sent pieces of its stream.
  pub receive-IsSending :
      (s : TcpSender) (msg : TcpReceiverMessage)
      → IsSending whole isn s w
      → IsSending whole isn (receive s msg) w
  unfolding receive
  receive-IsSending s msg k = elim (Option-cases msg.ackno) [
    | inl e ↦ rw e (windowed s msg.window_size k)
    | inr (ackno, e) ↦ rw e (
        take_ack-IsSending (record s { window_size = msg.window_size }) ackno
          (windowed s msg.window_size k))
  ]
    where
      windowed :
          (s : TcpSender) (n : ℕ)
          → IsSending whole isn s w
          → IsSending whole isn (record s { window_size = n }) w
      windowed s n k = alike-IsSending k refl refl refl refl k.queued k.readied

  retransmit-IsSending :
      (s : TcpSender) (ms : List TcpSenderMessage)
      → IsSending whole isn s w
      → AllPieces whole isn w ms
      → IsSending whole isn (retransmit s ms) w
  unfolding retransmit
  retransmit-IsSending s [] k h = k
  retransmit-IsSending s (m ∷ ms) k h =
      alike-IsSending k refl refl refl refl k.queued
        (AllPieces-append whole isn w s.ready_to_send (m ∷ []) k.readied (h.0, tt))

  pub tick-IsSending :
      (s : TcpSender) (ms : ℕ) → IsSending whole isn s w → IsSending whole isn (tick s ms) w
  unfolding tick
  tick-IsSending s ms k =
      let s' : TcpSender = record s { timer = Timer.tick s.timer ms } in
      let k' : IsSending whole isn s' w =
        alike-IsSending k refl refl refl refl k.queued k.readied in
      elim (Bool-cases (not (Timer.is_expired s'.timer) || is_empty s.outstanding)) [
        | inl e ↦ rw e k'
        | inr e ↦ rw e (retransmit-IsSending s' s.outstanding k' k.queued)
      ]

  -- What maybe_send hands out is a piece, and the rest stays.
  pub maybe_send-IsSending :
      (s t : TcpSender) (m : TcpSenderMessage)
      → IsSending whole isn s w
      → maybe_send s ≡ (some m, t)
      → IsPiece whole isn w m × IsSending whole isn t w
  unfolding maybe_send pop_front
  maybe_send-IsSending s t m k e = go s.ready_to_send refl k.readied e
    where
      go :
          (ms : List TcpSenderMessage)
          → s.ready_to_send ≡ ms
          → AllPieces whole isn w ms
          → elim (pop_front ms) as (λ _. Option TcpSenderMessage × TcpSender) [
            | none ↦ (none, s)
            | some (m, ms) ↦ (some m, record s { ready_to_send = ms })
          ]
            ≡ (some m, t)
          → IsPiece whole isn w m × IsSending whole isn t w
      go [] q h e = cc
      go (n ∷ ns) q h e = (
        subst (λ i. IsPiece whole isn w i) (some-injective n m (ap (λ r. r.0) e)) h.0,
        subst (λ u. IsSending whole isn u w) (ap (λ r. r.1) e)
            (alike-IsSending k refl refl refl refl k.queued h.1),
      )

  -- The segment without content of a sender that has sent its SYN is a piece.
  pub send_empty_message-IsPiece :
      (s : TcpSender)
      → IsSending whole isn s w
      → s.syn ≡ true
      → IsPiece whole isn w (send_empty_message s)
  unfolding send_empty_message
  send_empty_message-IsPiece s k e = record {
    index = w.bytes_popped + flag s.fin;
    segment = record {
      opening = λ d. cc;
      numbered = λ d. rw k.zero_point (ap (λ n. wrap n isn) (omega (arith, k.numbers, ap flag e)));
      truthful = tt;
    };
    begun = omega (arith, flag_le s.fin);
    within = λ h. absurd (omega arith);
    final = λ d. cc;
  }

pub close-same_pushed : (w : ByteStream) → (close w).bytes_pushed ≡ w.bytes_pushed
unfolding close
close-same_pushed w = refl

pub close-Onward : (w : ByteStream) → Onward w (close w)
unfolding close
close-Onward w = record { further = omega arith; stays_closed = λ e. refl }

module _ (whole : ℕ → ℕ) (isn : Wrap32) (s : TcpSender) (w : ByteStream)
    (k : IsSending whole isn s w) where
  pub write-Onward : (str : List ℕ) → Onward w (Stream.push w str)
  write-Onward str = record {
    further = omega (arith, p.same_popped);
    stays_closed = λ e. p.same_closed ∙ e;
  }
    where
      p : Pushed w (Stream.push w str) str
      p = push-Pushed w str k.valid (omega (arith, k.valid.total, k.few, k.short))

  -- The application writes on: what fits goes behind what it has written.
  pub write-IsSending :
      (str : List ℕ)
      → w.is_closed ≡ false
      → w.bytes_pushed + length str + 3 ≤ 2 ^ 31
      → Agrees whole w.bytes_pushed (take (w.capacity - w.bytes_buffered) str)
      → IsSending whole isn s (Stream.push w str)
  write-IsSending str c few a = record {
    zero_point = k.zero_point;
    valid = p.valid;
    short = rw p.same_capacity k.short;
    few = omega (arith, p.pushed);
    bytes =
        rw (p.same_popped, p.appended)
          (Agrees-append whole w.bytes_popped (contents w) _ k.bytes (
            Agrees-at whole w.bytes_pushed (w.bytes_popped + length (contents w)) _
              (omega (arith, k.valid.counted, k.valid.total)) a));
    numbers = rw p.same_popped k.numbers;
    opened = rw p.same_popped k.opened;
    ended = λ e. absurd (omega (arith, ap flag (k.ended e).0, ap flag c));
    queued = AllPieces-Onward whole isn s.outstanding (write-Onward str) k.queued;
    readied = AllPieces-Onward whole isn s.ready_to_send (write-Onward str) k.readied;
  }
    where
      p : Pushed w (Stream.push w str) str
      p = push-Pushed w str k.valid (omega (arith, k.valid.total, k.few, k.short))

  pub close-IsSending : IsSending whole isn s (close w)
  unfolding close
  close-IsSending = record {
    zero_point = k.zero_point;
    valid = record {
      counted = k.valid.counted;
      bounded = k.valid.bounded;
      total = k.valid.total;
      full = k.valid.full;
    };
    short = k.short;
    few = k.few;
    bytes = k.bytes;
    numbers = k.numbers;
    opened = k.opened;
    ended = λ e. (refl, (k.ended e).1);
    queued = AllPieces-Onward whole isn s.outstanding (close-Onward w) k.queued;
    readied = AllPieces-Onward whole isn s.ready_to_send (close-Onward w) k.readied;
  }
