-- ===== src/Receiver.antt =====
-- src/tcp_receiver.{hh,cc}: the half of a connection that takes segments and acknowledges them.
pub mod Delivery
pub mod Replies
mod Tests
use networkinglab.Base.{
  ℕ, zero, Bool, true, false, Option, none, some, List, ltb, if◌then◌else◌, add64, sub64,
}
use networkinglab.Wrap.{Wrap32, wrap, unwrap}
use networkinglab.Message.{TcpSenderMessage, TcpReceiverMessage, flag}
use networkinglab.Stream.{ByteStream, available_capacity}
use networkinglab.Reassembler.{Reassembler, insert}

pub record TcpReceiver : Type 0 where
  pub isn : Option Wrap32

-- A TCPReceiver as it is made.
unfoldable pub init : TcpReceiver
init = record { isn = none }

-- UINT16_MAX.
abbrev pub uint16_max : ℕ
uint16_max = 65535

-- The first lines of receive: a SYN sets the zero point.
abbrev pub note_syn : TcpReceiver → TcpSenderMessage → TcpReceiver
note_syn t m = if m.syn then record { isn = some m.seqno } else t

-- The stream index of the payload, from the zero point and the bytes pushed so far.
abbrev pub first_index : Wrap32 → TcpSenderMessage → ByteStream → ℕ
first_index isn m w = if m.syn then 0 else sub64 (unwrap m.seqno isn w.bytes_pushed) 1

-- The rest of receive, with the zero point.
abbrev pub place :
    Option Wrap32 → TcpSenderMessage → Reassembler → ByteStream → Reassembler × ByteStream
place none m r w = (r, w)
place (some isn) m r w = insert r (first_index isn m w) m.payload m.fin w

-- TCPReceiver::receive.
unfoldable pub receive :
    TcpReceiver
    → TcpSenderMessage
    → Reassembler
    → ByteStream
    → TcpReceiver × Reassembler × ByteStream
receive t m r w = let t' = note_syn t m in let (r', w') = place t'.isn m r w in (t', r', w')

abbrev pub ackno : Option Wrap32 → ByteStream → Option Wrap32
ackno none w = none
ackno (some isn) w = some (wrap (add64 (add64 w.bytes_pushed 1) (flag w.is_closed)) isn)

-- TCPReceiver::send.
unfoldable pub send : TcpReceiver → ByteStream → TcpReceiverMessage
send t w = record {
  ackno = ackno t.isn w;
  window_size = if ltb (available_capacity w) uint16_max then available_capacity w else uint16_max;
}
