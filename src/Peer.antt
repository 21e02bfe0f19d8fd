-- ===== src/Peer.antt =====
-- util/tcp_peer.hh: one end of a connection, a sender and a receiver with their streams.
pub mod Replies
mod Tests
use networkinglab.Base.{
  ℕ, Bool, true, false, not, ◌&&◌, ◌||◌, Option, none, some, ◌==◌, if◌then◌else◌, Outcome, ok,
  ◌>>=◌,
}
use networkinglab.Wrap.{Wrap32, plus, equals}
use networkinglab.Message.{
  TcpConfig, TcpSegment, TcpSenderMessage, TcpReceiverMessage, sequence_length,
}
use networkinglab.Stream
use networkinglab.Stream.{ByteStream, is_finished, set_error}
use networkinglab.Reassembler
use networkinglab.Reassembler.{Reassembler}
use networkinglab.Receiver
use networkinglab.Receiver.{TcpReceiver}
use networkinglab.Sender
use networkinglab.Sender.{TcpSender, sequence_numbers_in_flight, send_empty_message}

pub record TcpPeer : Type 0 where
  pub cfg : TcpConfig
  pub sender : TcpSender
  pub receiver : TcpReceiver
  pub reassembler : Reassembler
  pub outbound_stream : ByteStream
  pub inbound_stream : ByteStream
  pub need_send : Bool

-- TCPPeer::TCPPeer; the random number of the sender is an argument.
unfoldable pub init : TcpConfig → Wrap32 → TcpPeer
init cfg random = record {
  cfg = cfg;
  sender = Sender.init cfg.rt_timeout cfg.fixed_isn random;
  receiver = Receiver.init;
  reassembler = Reassembler.init;
  outbound_stream = Stream.init cfg.send_capacity;
  inbound_stream = Stream.init cfg.recv_capacity;
  need_send = false;
}

-- TCPPeer::push.
unfoldable pub push : TcpPeer → Outcome TcpPeer
push p = Sender.push p.sender p.outbound_stream >>= λ r.
    ok (record p { sender = r.0; outbound_stream = r.1 })

-- TCPPeer::tick.
unfoldable pub tick : TcpPeer → ℕ → TcpPeer
tick p ms = record p { sender = Sender.tick p.sender ms }

abbrev pub has_value {ℓ} : {A : Type ℓ} → Option A → Bool
has_value none = false
has_value (some a) = true

-- TCPPeer::has_ackno.
unfoldable pub has_ackno : TcpPeer → Bool
has_ackno p = has_value (Receiver.send p.receiver p.inbound_stream).ackno

-- TCPPeer::active.
unfoldable pub active : TcpPeer → Bool
active p =
    if p.inbound_stream.has_error
    then false
    else not (is_finished p.outbound_stream)
      || (not p.inbound_stream.is_closed || not (sequence_numbers_in_flight p.sender == 0))

-- The message is numbered one below what the receiver wants: a keep-alive.
pub is_keep_alive : Option Wrap32 → TcpSenderMessage → Bool
is_keep_alive none m = false
is_keep_alive (some our_ackno) m = equals (plus m.seqno 1) our_ackno

-- TCPPeer::receive, where neither the segment nor the stream has an error.
unfoldable pub take_segment : TcpPeer → TcpSegment → TcpPeer
take_segment p seg =
    let (t, r, w) = Receiver.receive p.receiver seg.sender_message p.reassembler p.inbound_stream in
    record p {
      sender = Sender.receive p.sender seg.receiver_message;
      need_send =
          (p.need_send || not (sequence_length seg.sender_message == 0))
          || is_keep_alive (Receiver.send p.receiver p.inbound_stream).ackno seg.sender_message;
      receiver = t;
      reassembler = r;
      inbound_stream = w;
    }

-- TCPPeer::receive.
unfoldable pub receive : TcpPeer → TcpSegment → TcpPeer
receive p seg =
    if seg.reset || p.inbound_stream.has_error
    then record p { inbound_stream = set_error p.inbound_stream }
    else take_segment p seg

-- The message to send: the sender's, or an empty one if something has to be sent.
unfoldable pub choose_message : TcpPeer → Option TcpSenderMessage → Option TcpSenderMessage
choose_message p (some m) = some m
choose_message p none = if p.need_send then some (send_empty_message p.sender) else none

-- The segment around the message; its ports and checksum are zero.
unfoldable pub wrap_segment : TcpPeer → TcpReceiverMessage → TcpSenderMessage → TcpSegment
wrap_segment p reply m = record {
  sender_message = m;
  receiver_message = reply;
  reset = p.outbound_stream.has_error || p.inbound_stream.has_error;
  udinfo = record { src_port = 0; dst_port = 0; cksum = 0 };
}

-- TCPPeer::maybe_send behind the push.
unfoldable pub release : TcpReceiverMessage → TcpPeer → Option TcpSegment × TcpPeer
release reply p =
    let (waiting, s) = Sender.maybe_send p.sender in
    let q = record p { sender = s } in
    (
      elim (choose_message q waiting) [ none ↦ none | some m ↦ some (wrap_segment q reply m) ],
      record q { need_send = false },
    )

-- TCPPeer::maybe_send.
unfoldable pub maybe_send : TcpPeer → Outcome (Option TcpSegment × TcpPeer)
maybe_send p =
    let reply = Receiver.send p.receiver p.inbound_stream in
    (elim (has_value reply.ackno) [ true ↦ push p | false ↦ ok p ]) >>= λ q. ok (release reply q)
