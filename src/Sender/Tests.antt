-- ===== src/Sender/Tests.antt =====
-- Runs of src/tcp_sender.cc, and the theorems at them.
use networkinglab.Base.{
  ℕ, ◌≡◌, refl, List, [], ◌∷◌, ◌++◌, false, true, some, ok, ◌>>=◌, arith, add32, sub32, add64,
  sub64,
}
use networkinglab.Wrap.{wrap, unwrap, plus}
use networkinglab.Message.{TcpSenderMessage, sequence_length}
use networkinglab.Stream
use networkinglab.Stream.{ByteStream, read, read_loop, pop, pop_strings, erase_front, is_finished}
use networkinglab.Stream.Invariant.{IsValid}
use networkinglab.Sender.Timer
use networkinglab.Sender.{
  TcpSender, init, value_or, push, push_loop, synchronize, fill, finish, emit, conclude,
  acknowledge, take_ack, reset_backoff, receive, tick, retransmit, maybe_send, pop_front,
  send_empty_message, sequence_numbers_in_flight, consecutive_retransmissions,
}
use networkinglab.Sender.Pushing.{Sends, push-Sends}
use networkinglab.Sender.Acks.{push-Tracks, Tracks, Split, reply, receive-Split}
use networkinglab.Sender.Timing.{resends_too_soon}
use networkinglab.Sender.Backoff.{Wait, ticks, ticks_back_off}

-- Five bytes wait, and no more will come.
abbrev some_stream : ByteStream
some_stream = record {
  capacity = 8;
  buffer = (100 ∷ 101 ∷ 102 ∷ []) ∷ (103 ∷ 104 ∷ []) ∷ [];
  bytes_pushed = 5;
  bytes_popped = 0;
  bytes_buffered = 5;
  is_closed = true;
  has_error = false;
}

some_stream-IsValid : IsValid some_stream
some_stream-IsValid = record {
  counted = refl;
  bounded = omega arith;
  total = omega arith;
  full = omega arith;
}

-- The SYN, number 7, has been acknowledged, and the window is four.
abbrev open_sender : TcpSender
open_sender = record {
  isn = 7;
  initial_rto_ms = 1000;
  syn = true;
  fin = false;
  window_size = 4;
  retransmissions = 0;
  seqnums_sent = 1;
  seqnums_in_flight = 0;
  outstanding = [];
  ready_to_send = [];
  timer = record { rto = 1000; time_passage = 0 };
}

abbrev first_segment : TcpSenderMessage
first_segment = record { seqno = 8; syn = false; payload = 100 ∷ 101 ∷ []; fin = false }

abbrev second_segment : TcpSenderMessage
second_segment = record { seqno = 10; syn = false; payload = 102 ∷ 103 ∷ []; fin = false }

-- Two segments are outstanding.
abbrev busy_sender : TcpSender
busy_sender = record open_sender {
  seqnums_sent = 5;
  seqnums_in_flight = 4;
  outstanding = first_segment ∷ second_segment ∷ [];
}

open_sender-Tracks : Tracks open_sender
open_sender-Tracks = record {
  zero_point = omega arith;
  below = omega arith;
  near = omega arith;
  word = omega arith;
  chain = refl;
}

busy_sender-Tracks : Tracks busy_sender
unfolding wrap plus add32 sequence_length
busy_sender-Tracks = record {
  zero_point = omega arith;
  below = omega arith;
  near = omega arith;
  word = omega arith;
  chain = (refl, omega arith, (refl, omega arith, refl));
}

-- A window of eight takes all five bytes and the FIN in one segment.
sends_the_fin :
    (push (record open_sender { window_size = 8 }) some_stream >>= λ r. ok r.0.outstanding)
    ≡ ok (
        record { seqno = 8; syn = false; payload = 100 ∷ 101 ∷ 102 ∷ 103 ∷ 104 ∷ []; fin = true }
        ∷ [])
unfolding push push_loop synchronize fill finish emit conclude read read_loop Stream.peek pop
    pop_strings erase_front is_finished wrap plus add32 add64 sub64 sequence_length
sends_the_fin = refl

drops_the_first : (receive busy_sender (reply busy_sender 4 4)).outstanding ≡ second_segment ∷ []
unfolding receive take_ack reset_backoff acknowledge unwrap wrap plus add32 sub32 add64 sub64
    sequence_length
drops_the_first = refl

hands_out_in_order : (maybe_send (tick busy_sender 1000)).0 ≡ some first_segment
unfolding maybe_send pop_front tick retransmit Timer.tick Timer.is_expired add64
hands_out_in_order = refl

numbers_the_empty_message :
    send_empty_message busy_sender ≡ record { seqno = 12; syn = false; payload = []; fin = false }
unfolding send_empty_message wrap plus add32
numbers_the_empty_message = refl

-- A new sender sends its SYN alone: the window is one.
sends_the_syn :
    (push (init 1000 (some 7) 99) some_stream >>= λ r.
    ok (sequence_numbers_in_flight r.0 ∷ consecutive_retransmissions r.0 ∷ r.0.window_size ∷ []))
    ≡ ok (1 ∷ 0 ∷ 1 ∷ [])
unfolding init value_or Timer.init sequence_numbers_in_flight consecutive_retransmissions push
    push_loop synchronize fill finish emit conclude read read_loop is_finished wrap plus add32 add64
    sub64 sequence_length
sends_the_syn = refl

push-Sends_example : Sends 4 open_sender some_stream (push open_sender some_stream)
push-Sends_example =
    push-Sends open_sender some_stream some_stream-IsValid (omega arith) (omega arith) (omega arith)

push-Tracks_example :
    (t : TcpSender) × (x : ByteStream) × (push open_sender some_stream ≡ ok (t, x)) × Tracks t
push-Tracks_example =
    push-Tracks open_sender some_stream open_sender-Tracks some_stream-IsValid (omega arith)
      (omega arith) (omega arith)

receive-Split_example :
    (gone : List TcpSenderMessage) × (cut : ℕ) × Split 4
      (record busy_sender { window_size = 9 })
      1
      cut
      busy_sender.outstanding
      gone
      (receive busy_sender (reply busy_sender 4 9))
    × Tracks (receive busy_sender (reply busy_sender 4 9))
receive-Split_example = receive-Split busy_sender 4 9 busy_sender-Tracks (omega arith) (omega arith)

abbrev after_push : TcpSender
after_push = record open_sender {
  seqnums_sent = 5;
  seqnums_in_flight = 4;
  outstanding =
      record { seqno = 8; syn = false; payload = 100 ∷ 101 ∷ 102 ∷ 103 ∷ []; fin = false } ∷ [];
  ready_to_send =
      record { seqno = 8; syn = false; payload = 100 ∷ 101 ∷ 102 ∷ 103 ∷ []; fin = false } ∷ [];
}

abbrev idle_push : TcpSender
idle_push = record after_push { timer = record { rto = 1000; time_passage = 5000 } }

abbrev rest_of_stream : ByteStream
rest_of_stream = record some_stream {
  buffer = (104 ∷ []) ∷ [];
  bytes_popped = 4;
  bytes_buffered = 1;
}

idle_push_eq : push (tick open_sender 5000) some_stream ≡ ok (idle_push, rest_of_stream)
unfolding tick retransmit Timer.tick Timer.is_expired push push_loop synchronize fill finish emit
    conclude read read_loop Stream.peek pop pop_strings erase_front is_finished wrap plus add32
    add64 sub64 sequence_length
idle_push_eq = refl

-- The timer runs out after three ticks, and then, with twice the timeout, at a single one.
abbrev two_waits : List Wait
two_waits = (400 ∷ 500 ∷ [], 100) ∷ ([], 2300) ∷ []

ticks_back_off_example : ticks busy_sender (400 ∷ 500 ∷ 100 ∷ 2300 ∷ []) ≡ record busy_sender {
  ready_to_send = first_segment ∷ first_segment ∷ [];
  timer = record { rto = 4000; time_passage = 0 };
  retransmissions = 2;
}
ticks_back_off_example =
    ticks_back_off busy_sender first_segment (second_segment ∷ []) two_waits refl refl (omega arith)
      (omega arith)
      (omega arith, omega arith, omega arith, (omega arith, omega arith, omega arith, tt))

resends_too_soon_example :
    ((tick idle_push 0).ready_to_send ≡ idle_push.ready_to_send ++ idle_push.outstanding)
    × ((tick idle_push 0).retransmissions ≡ 1)
resends_too_soon_example =
    resends_too_soon open_sender idle_push some_stream rest_of_stream 5000
      (record { seqno = 8; syn = false; payload = 100 ∷ 101 ∷ 102 ∷ 103 ∷ []; fin = false }) [] refl
      (omega arith) (omega arith) (omega arith) (omega arith) some_stream-IsValid (omega arith)
      (omega arith) (omega arith) idle_push_eq refl
