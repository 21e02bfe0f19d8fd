-- ===== src/Connection/Tests.antt =====
-- A run of a connection, and the theorem at it.
use networkinglab.Base.{
  ◌≤◌, ◌<◌, ◌≡◌, u32_mod, refl, false, true, some, [], ◌∷◌, ◌++◌, length, take, ok, arith, add32,
  sub32, add64, sub64,
}
use networkinglab.Wrap.{wrap, plus, unwrap}
use networkinglab.Message.{TcpSenderMessage, TcpReceiverMessage, sequence_length}
use networkinglab.Stream
use networkinglab.Stream.{
  ByteStream, push_string, fit, available_capacity, read, read_loop, peek, pop, pop_strings,
  erase_front, is_finished,
}
use networkinglab.Stream.Invariant.{contents}
use networkinglab.Reassembler
use networkinglab.Reassembler.{insert}
use networkinglab.Sender
use networkinglab.Sender.Timer
use networkinglab.Sender.{
  TcpSender, push, push_loop, synchronize, fill, finish, emit, conclude, maybe_send, pop_front,
  take_ack, acknowledge, reset_backoff,
}
use networkinglab.Receiver
use networkinglab.Receiver.Delivery.{Inbound, arrive, fresh}
use networkinglab.Connection.{
  Link, Reach, writes, pushes, hears, departs, arrives, reads, here, next, opened,
}
use networkinglab.Connection.Prefix.{Reach-prefix}

abbrev started : Link
started = opened 1000 (some 7) 0 8 8

abbrev after_write : Link
after_write = record started {
  outbound = Stream.push started.outbound (100 ∷ 101 ∷ []);
  written = [] ++ take (available_capacity started.outbound) (100 ∷ 101 ∷ []);
}

abbrev opening : TcpSenderMessage
opening = record { seqno = 7; syn = true; payload = []; fin = false }

abbrev bytes : TcpSenderMessage
bytes = record { seqno = 8; syn = false; payload = 100 ∷ 101 ∷ []; fin = false }

-- The window is one until it is known, so the SYN goes out alone.
abbrev opening_sender : TcpSender
opening_sender = record {
  isn = 7;
  initial_rto_ms = 1000;
  syn = true;
  fin = false;
  window_size = 1;
  retransmissions = 0;
  seqnums_sent = 1;
  seqnums_in_flight = 1;
  outstanding = opening ∷ [];
  ready_to_send = opening ∷ [];
  timer = record { rto = 1000; time_passage = 0 };
}

pushes_syn :
    Sender.push after_write.sender after_write.outbound ≡ ok (opening_sender, after_write.outbound)
unfolding Sender.init Stream.init Stream.push push_string fit available_capacity Sender.push
    push_loop synchronize fill finish emit conclude read read_loop peek pop pop_strings erase_front
    is_finished sequence_length wrap plus add32 sub32 add64 sub64 Timer.init
pushes_syn = refl

-- The other side acknowledges the SYN, and has a window of four.
abbrev answer : TcpReceiverMessage
answer = record { ackno = some 8; window_size = 4 }

abbrev busy_sender : TcpSender
busy_sender = record opening_sender {
  window_size = 4;
  seqnums_sent = 3;
  seqnums_in_flight = 2;
  outstanding = bytes ∷ [];
  ready_to_send = opening ∷ bytes ∷ [];
}

abbrev emptied : ByteStream
emptied = record {
  capacity = 8;
  buffer = [];
  bytes_pushed = 2;
  bytes_popped = 2;
  bytes_buffered = 0;
  is_closed = false;
  has_error = false;
}

pushes_bytes :
    Sender.push (Sender.receive opening_sender answer) after_write.outbound
    ≡ ok (busy_sender, emptied)
unfolding Sender.init Stream.init Stream.push push_string fit available_capacity Sender.push
    push_loop synchronize fill finish emit conclude read read_loop peek pop pop_strings erase_front
    is_finished sequence_length wrap plus add32 sub32 add64 sub64 Sender.receive take_ack
    acknowledge reset_backoff unwrap Timer.start Timer.set_rto Timer.init
pushes_bytes = refl

sends_syn :
    maybe_send busy_sender ≡ (some opening, record busy_sender { ready_to_send = bytes ∷ [] })
unfolding maybe_send pop_front
sends_syn = refl

sends_bytes :
    maybe_send (record busy_sender { ready_to_send = bytes ∷ [] })
    ≡ (some bytes, record busy_sender { ready_to_send = [] })
unfolding maybe_send pop_front
sends_bytes = refl

-- The SYN arrives, and then the bytes.
abbrev arrived : Inbound
arrived = arrive bytes (arrive opening (fresh 8))

reads_bytes : read arrived.stream 5 ≡ ok (100 ∷ 101 ∷ [], emptied)
unfolding Receiver.receive Receiver.init Stream.init Reassembler.init insert Stream.push push_string
    fit available_capacity unwrap wrap plus add32 sub32 add64 sub64 read read_loop peek pop
    pop_strings erase_front
reads_bytes = refl

abbrev at_end : Link
at_end = record {
  sender = record busy_sender { ready_to_send = [] };
  outbound = emptied;
  network = bytes ∷ opening ∷ [];
  inbound = record arrived { stream = emptied };
  written = 100 ∷ 101 ∷ [];
  delivered = 100 ∷ 101 ∷ [];
}

isn_small : (Sender.init 1000 (some 7) 0).isn < u32_mod
unfolding Sender.init
isn_small = omega arith

run : Reach started at_end
unfolding available_capacity sub64 Stream.init
run =
    next
      (next
        (next
          (next
            (next
              (next
                (next
                  (next (next here (writes (100 ∷ 101 ∷ []) refl (omega arith)))
                    (pushes _ _ pushes_syn))
                  (hears answer))
                (pushes _ _ pushes_bytes))
              (departs _ _ sends_syn))
            (departs _ _ sends_bytes))
          (arrives (bytes ∷ []) [] opening refl))
        (arrives [] (opening ∷ []) bytes refl))
      (reads 5 (100 ∷ 101 ∷ []) emptied reads_bytes)

Reach-prefix_example :
    (at_end.delivered ++ contents emptied ≡ take 2 at_end.written)
    × (2 ≤ length at_end.written)
    × (emptied.is_closed ≡ true → emptied.is_closed ≡ true)
Reach-prefix_example =
    Reach-prefix 1000 (some 7) 0 8 8 isn_small (omega arith) (omega arith) {s = at_end} run
