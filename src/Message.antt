-- ===== src/Message.antt =====
-- util/tcp_sender_message.hh, util/tcp_receiver_message.hh, util/tcp_config.hh, util/udinfo.hh and
-- the members of util/tcp_segment.hh: what the ends of a connection say to one another.
use networkinglab.Base.{ℕ, ◌+◌, ◌≤◌, arith, Bool, true, false, Option, List, length}
use networkinglab.Wrap.{Wrap32}

pub record TcpSenderMessage : Type 0 where
  pub seqno : Wrap32
  pub syn : Bool
  pub payload : List ℕ
  pub fin : Bool

-- A flag as a number of sequence numbers.
abbrev pub flag : Bool → ℕ
flag false = 0
flag true = 1

pub flag_le : (b : Bool) → flag b ≤ 1
flag_le false = omega arith
flag_le true = omega arith

-- TCPSenderMessage::sequence_length. A payload is far shorter than 2^64 bytes.
unfoldable pub sequence_length : TcpSenderMessage → ℕ
sequence_length m = flag m.syn + length m.payload + flag m.fin

pub record TcpReceiverMessage : Type 0 where
  pub ackno : Option Wrap32
  pub window_size : ℕ

-- TCPConfig::MAX_PAYLOAD_SIZE.
abbrev pub max_payload_size : ℕ
max_payload_size = 1000

-- TCPConfig, less its constants; the other constants serve the adapters.
pub record TcpConfig : Type 0 where
  pub rt_timeout : ℕ
  pub recv_capacity : ℕ
  pub send_capacity : ℕ
  pub fixed_isn : Option Wrap32

pub record UserDatagramInfo : Type 0 where
  pub src_port : ℕ
  pub dst_port : ℕ
  pub cksum : ℕ

-- TCPSegment, as a value.
pub record TcpSegment : Type 0 where
  pub sender_message : TcpSenderMessage
  pub receiver_message : TcpReceiverMessage
  pub reset : Bool
  pub udinfo : UserDatagramInfo
