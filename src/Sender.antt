-- ===== src/Sender.antt =====
-- src/tcp_sender.{hh,cc}: the half of a connection that cuts the stream into segments, resends them
-- and reads acknowledgments. A queue stands front first.
pub mod Timer
pub mod Round
pub mod Pushing
pub mod Acks
pub mod Kept
pub mod Timing
pub mod Backoff
mod Tests
use networkinglab.Base.{
  ℕ, zero, suc, ◌+◌, ◌-◌, min, Bool, true, false, not, ◌&&◌, ◌||◌, Option, none, some, List, [],
  ◌∷◌, ◌++◌, leb, ltb, ◌==◌, if◌then◌else◌, length, is_empty, add64, sub64, Outcome, ok, no_fuel,
  ◌>>=◌,
}
use networkinglab.Wrap.{Wrap32, wrap, unwrap, plus}
use networkinglab.Message.{TcpSenderMessage, TcpReceiverMessage, sequence_length, max_payload_size}
use networkinglab.Stream.{ByteStream, is_finished, read}
use Timer.{RtoTimer}
use Timer

pub record TcpSender : Type 0 where
  pub isn : Wrap32
  pub initial_rto_ms : ℕ
  pub syn : Bool
  pub fin : Bool
  pub window_size : ℕ
  pub retransmissions : ℕ
  pub seqnums_sent : ℕ
  pub seqnums_in_flight : ℕ
  pub outstanding : List TcpSenderMessage
  pub ready_to_send : List TcpSenderMessage
  pub timer : RtoTimer

-- fixed_isn.value_or( Wrap32 { random_device()() } ); the random number is an argument.
value_or : Option Wrap32 → Wrap32 → Wrap32
value_or none r = r
value_or (some isn) r = isn

-- TCPSender::TCPSender.
unfoldable pub init : ℕ → Option Wrap32 → Wrap32 → TcpSender
unfolding value_or
init initial_rto_ms fixed_isn random = record {
  isn = value_or fixed_isn random;
  initial_rto_ms = initial_rto_ms;
  syn = false;
  fin = false;
  window_size = 1;
  retransmissions = 0;
  seqnums_sent = 0;
  seqnums_in_flight = 0;
  outstanding = [];
  ready_to_send = [];
  timer = Timer.init initial_rto_ms;
}

-- TCPSender::sequence_numbers_in_flight and TCPSender::consecutive_retransmissions.
unfoldable pub sequence_numbers_in_flight : TcpSender → ℕ
sequence_numbers_in_flight s = s.seqnums_in_flight

pub consecutive_retransmissions : TcpSender → ℕ
consecutive_retransmissions s = s.retransmissions

unfoldable pub pop_front : List TcpSenderMessage → Option (TcpSenderMessage × List TcpSenderMessage)
pop_front [] = none
pop_front (m ∷ ms) = some (m, ms)

-- TCPSender::maybe_send.
unfoldable pub maybe_send : TcpSender → Option TcpSenderMessage × TcpSender
unfolding pop_front
maybe_send s = elim (pop_front s.ready_to_send) [
  | none ↦ (none, s)
  | some (m, ms) ↦ (some m, record s { ready_to_send = ms })
]

-- The segment that push makes at the head of its loop: a SYN if none has been sent.
unfoldable pub synchronize : TcpSender → TcpSender × TcpSenderMessage
synchronize s =
    let open_segment : Bool → TcpSenderMessage =
      λ flag. record { seqno = wrap s.seqnums_sent s.isn; syn = flag; payload = []; fin = false } in
    if s.syn then (s, open_segment false) else (
      record s { syn = true; seqnums_in_flight = add64 s.seqnums_in_flight 1 },
      open_segment true,
    )

-- The payload goes in, from the stream.
unfoldable pub fill :
    ℕ
    → TcpSender × TcpSenderMessage
    → ByteStream
    → Outcome (TcpSender × TcpSenderMessage × ByteStream)
fill available (s, m) w =
    read w (min max_payload_size (sub64 available s.seqnums_in_flight)) >>= λ r. ok (
      record s { seqnums_in_flight = add64 s.seqnums_in_flight (length r.0) },
      record m { payload = r.0 },
      r.1,
    )

-- A FIN, if the stream is finished, the window has room and none has been sent.
unfoldable pub finish :
    ℕ → TcpSender × TcpSenderMessage × ByteStream → TcpSender × TcpSenderMessage × ByteStream
finish available (s, m, w) =
    if is_finished w && (ltb s.seqnums_in_flight available && not s.fin)
    then (
      record s { fin = true; seqnums_in_flight = add64 s.seqnums_in_flight 1 },
      record m { fin = true },
      w,
    )
    else (s, m, w)

-- The segment goes out, and is kept until it is acknowledged.
unfoldable pub emit : TcpSender → TcpSenderMessage → TcpSender
emit s m = record s {
  seqnums_sent = add64 s.seqnums_sent (sequence_length m);
  outstanding = s.outstanding ++ (m ∷ []);
  ready_to_send = s.ready_to_send ++ (m ∷ []);
}

-- The end of a round: stop without a segment, stop after it, or go on with `more`.
unfoldable pub conclude :
    (TcpSender → ByteStream → Outcome (TcpSender × ByteStream))
    → TcpSender × TcpSenderMessage × ByteStream
    → Outcome (TcpSender × ByteStream)
conclude more (s, m, w) =
    if sequence_length m == 0
    then ok (s, w)
    else if m.fin || (w.bytes_buffered == 0)
    then ok (emit s m, w)
    else more (emit s m) w

-- The loop of push, on fuel.
unfoldable pub push_loop : ℕ → ℕ → TcpSender → ByteStream → Outcome (TcpSender × ByteStream)
push_loop zero available s w = no_fuel
push_loop (suc fuel) available s w =
    if ltb s.seqnums_in_flight available
    then (fill available (synchronize s) w >>= λ r.
        conclude (push_loop fuel available) (finish available r))
    else ok (s, w)

-- available_win_sz.
abbrev pub available_window : TcpSender → ℕ
available_window s = if s.window_size == 0 then 1 else s.window_size

-- TCPSender::push: a round adds a sequence number to those in flight, or is the last.
unfoldable pub push : TcpSender → ByteStream → Outcome (TcpSender × ByteStream)
push s w = push_loop (suc (available_window s)) (available_window s) s w

-- TCPSender::send_empty_message. operator+ takes a uint32_t.
unfoldable pub send_empty_message : TcpSender → TcpSenderMessage
send_empty_message s = record {
  seqno = wrap s.seqnums_sent s.isn;
  syn = false;
  payload = [];
  fin = false;
}

-- The loop of receive: segments that are acknowledged whole leave, and each restarts the timer.
unfoldable pub acknowledge : ℕ → TcpSender → List TcpSenderMessage → TcpSender
acknowledge absolute_ackno s [] = record s { outstanding = [] }
acknowledge absolute_ackno s (m ∷ ms) =
    elim (leb (add64 (unwrap m.seqno s.isn s.seqnums_sent) (sequence_length m)) absolute_ackno) [
      | true ↦
          acknowledge absolute_ackno
            (record s {
              seqnums_in_flight = sub64 s.seqnums_in_flight (sequence_length m);
              timer = Timer.start s.timer;
            })
            ms
      | false ↦ record s { outstanding = m ∷ ms }
    ]

-- The end of receive.
unfoldable pub reset_backoff : TcpSender → TcpSender
reset_backoff s = record s { timer = Timer.set_rto s.timer s.initial_rto_ms; retransmissions = 0 }

-- receive with an ackno.
unfoldable pub take_ack : TcpSender → Wrap32 → TcpSender
take_ack s ackno =
    let absolute_ackno = unwrap ackno s.isn s.seqnums_sent in
    if ltb s.seqnums_sent absolute_ackno
    then s
    else reset_backoff (acknowledge absolute_ackno s s.outstanding)

-- TCPSender::receive.
unfoldable pub receive : TcpSender → TcpReceiverMessage → TcpSender
receive s msg = elim msg.ackno [
  | none ↦ record s { window_size = msg.window_size }
  | some ackno ↦ take_ack (record s { window_size = msg.window_size }) ackno
]

-- What tick does at the first outstanding segment once the timer has run out.
unfoldable pub retransmit : TcpSender → List TcpSenderMessage → TcpSender
retransmit s [] = s
retransmit s (m ∷ ms) = record s {
  ready_to_send = s.ready_to_send ++ (m ∷ []);
  timer =
      if s.window_size == 0 then Timer.start s.timer else Timer.double_rto (Timer.start s.timer);
  retransmissions = add64 s.retransmissions 1;
}

-- TCPSender::tick.
unfoldable pub tick : TcpSender → ℕ → TcpSender
tick s ms =
    let s' = record s { timer = Timer.tick s.timer ms } in
    if not (Timer.is_expired s'.timer) || is_empty s'.outstanding
    then s'
    else retransmit s' s'.outstanding
