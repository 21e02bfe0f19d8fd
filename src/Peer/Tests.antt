-- ===== src/Peer/Tests.antt =====
-- The theorems about util/tcp_peer.hh at concrete peers.
use networkinglab.Base.{◌≡◌, refl, [], ◌∷◌, true, false, none, some, ok, arith}
use networkinglab.Message.{TcpSegment, sequence_length}
use networkinglab.Stream.{ByteStream}
use networkinglab.Stream.Invariant.{IsValid}
use networkinglab.Receiver
use networkinglab.Peer.{TcpPeer, receive, maybe_send}
use networkinglab.Peer.Replies.{receive-answered}

-- A stream in which two bytes wait.
abbrev two_bytes : ByteStream
two_bytes = record {
  capacity = 8;
  buffer = (100 ∷ 101 ∷ []) ∷ [];
  bytes_pushed = 2;
  bytes_popped = 0;
  bytes_buffered = 2;
  is_closed = false;
  has_error = false;
}

two_bytes-IsValid : IsValid two_bytes
two_bytes-IsValid = record {
  counted = refl;
  bounded = omega arith;
  total = omega arith;
  full = omega arith;
}

-- A peer that has sent nothing, with zero point 7.
abbrev listening : TcpPeer
listening = record {
  cfg = record { rt_timeout = 1000; recv_capacity = 8; send_capacity = 8; fixed_isn = some 7 };
  sender = record {
    isn = 7;
    initial_rto_ms = 1000;
    syn = false;
    fin = false;
    window_size = 1;
    retransmissions = 0;
    seqnums_sent = 0;
    seqnums_in_flight = 0;
    outstanding = [];
    ready_to_send = [];
    timer = record { rto = 1000; time_passage = 0 };
  };
  receiver = record { isn = none };
  reassembler = record { substrs = []; nbytes_substrs = 0; should_close = false };
  outbound_stream = two_bytes;
  inbound_stream = record two_bytes { buffer = []; bytes_pushed = 0; bytes_buffered = 0 };
  need_send = false;
}

-- A SYN with zero point 30, and the same with the RST flag.
abbrev opening : TcpSegment
opening = record {
  sender_message = record { seqno = 30; syn = true; payload = []; fin = false };
  receiver_message = record { ackno = none; window_size = 50 };
  reset = false;
  udinfo = record { src_port = 0; dst_port = 0; cksum = 0 };
}

abbrev resetting : TcpSegment
resetting = record opening { reset = true }

receive-answered_example :
    let r = receive listening opening in
    (out : TcpSegment) × (q : TcpPeer) × (maybe_send r ≡ ok (some out, q))
    × (out.receiver_message ≡ Receiver.send r.receiver r.inbound_stream)
    × (q.need_send ≡ false)
unfolding sequence_length
receive-answered_example =
    receive-answered listening opening refl refl (omega arith) two_bytes-IsValid (omega arith)
      (omega arith) (omega arith)
