-- ===== src/Segment.antt =====
-- util/tcp_segment.{hh,cc}: a TCP segment as bytes.
pub mod RoundTrip
pub mod Summing
mod Tests
use networkinglab.Base.{
  ℕ, ◌+◌, ◌-◌, ◌*◌, ◌/◌, ◌%◌, Bool, true, false, not, Option, none, some, List, [], ◌∷◌, ltb, ◌==◌,
  if◌then◌else◌, u32_mod,
}
use networkinglab.Wrap.{Wrap32}
use networkinglab.Message.{TcpSenderMessage, TcpReceiverMessage, TcpSegment, UserDatagramInfo}
use networkinglab.Wire.{Parser, Serializer, serializer, integer, put_integer, put_buffer, finish}
use networkinglab.Wire.Parsing.{
  Parsing, pure, ◌>>=◌, ◌>>◌, set_error, skip_bytes, all_remaining_concat,
}
use networkinglab.Checksum
use networkinglab.Checksum.{add, add_all, value}

-- TCPHeaderMinLen, in words of 32 bits.
abbrev pub tcp_header_min_len : ℕ
tcp_header_min_len = 5

-- TCPSegment {}, whose ports and checksum are zero.
abbrev pub no_segment : TcpSegment
no_segment = record {
  sender_message = record { seqno = 0; syn = false; payload = []; fin = false };
  receiver_message = record { ackno = none; window_size = 0 };
  reset = false;
  udinfo = record { src_port = 0; dst_port = 0; cksum = 0 };
}

-- Is bit `2 ^ k` set, where `k` is written as the power?
abbrev pub has_bit : ℕ → ℕ → Bool
has_bit word power = word / power % 2 == 1

-- Options are skipped; the difference is one of 32 bits.
unfoldable pub skip_options : ℕ → Parsing (Unit {0})
skip_options data_offset = do
  if ltb data_offset tcp_header_min_len then set_error else pure tt
  skip_bytes ((data_offset * 4 + u32_mod - tcp_header_min_len * 4) % u32_mod)

-- TCPSegment::parse behind the checksum.
unfoldable pub parse_members : TcpSegment → Parsing TcpSegment
parse_members seg = do
  src_port ← integer 2 seg.udinfo.src_port
  dst_port ← integer 2 seg.udinfo.dst_port
  seqno ← integer 4 0
  ackno ← integer 4 seqno
  octet ← integer 1 0
  flags ← integer 1 octet
  window_size ← integer 2 seg.receiver_message.window_size
  cksum ← integer 2 seg.udinfo.cksum
  urgent ← integer 2 0
  skip_options (octet / 16)
  payload ← all_remaining_concat
  pure (record {
    sender_message = record {
      seqno = seqno;
      syn = has_bit flags 2;
      payload = payload;
      fin = has_bit flags 1;
    };
    receiver_message = record {
      ackno = if not (has_bit flags 16) then none else some ackno;
      window_size = window_size;
    };
    reset = has_bit flags 4;
    udinfo = record { src_port = src_port; dst_port = dst_port; cksum = cksum };
  })

-- TCPSegment::parse: the checksum is that of all that is left, read from a copy of the parser.
unfoldable pub parse : TcpSegment → ℕ → Parsing TcpSegment
unfolding parse_members
parse seg datagram_layer_pseudo_checksum = do
  all_remaining ← all_remaining_concat
  if not (value (add (Checksum.init datagram_layer_pseudo_checksum) all_remaining) == 0)
      then (set_error >> pure seg)
      else parse_members seg

-- receiver_message.ackno.value_or( Wrap32 { 0 } ).
abbrev pub ackno_value : Option Wrap32 → Wrap32
ackno_value none = 0
ackno_value (some ackno) = ackno

abbrev pub ackno_flag : Option Wrap32 → ℕ
ackno_flag none = 0
ackno_flag (some ackno) = 16

-- The flags in one byte.
unfoldable pub flags : TcpSegment → ℕ
flags seg =
    ackno_flag seg.receiver_message.ackno
    + ((if seg.reset then 4 else 0)
        + ((if seg.sender_message.syn then 2 else 0) + (if seg.sender_message.fin then 1 else 0)))

-- The integers of TCPSegment::serialize, in order.
unfoldable pub put_members : TcpSegment → Serializer → Serializer
put_members seg s = put_integer 2 0 (
    put_integer 2 seg.udinfo.cksum (
      put_integer 2 seg.receiver_message.window_size (
        put_integer 1 (flags seg) (
          put_integer 1 (tcp_header_min_len * 16) (
            put_integer 4 (ackno_value seg.receiver_message.ackno) (
              put_integer 4 seg.sender_message.seqno
                (put_integer 2 seg.udinfo.dst_port (put_integer 2 seg.udinfo.src_port s))))))))

-- TCPSegment::serialize.
unfoldable pub serialize : TcpSegment → Serializer → Serializer
unfolding put_members
serialize seg s = put_buffer seg.sender_message.payload (put_members seg s)

-- The segment with another checksum.
abbrev pub with_cksum : TcpSegment → ℕ → TcpSegment
with_cksum seg cksum = record seg { udinfo = record seg.udinfo { cksum = cksum } }

-- TCPSegment::compute_checksum.
unfoldable pub compute_checksum : TcpSegment → ℕ → TcpSegment
compute_checksum seg datagram_layer_pseudo_checksum = with_cksum seg (
    value (
      add_all (Checksum.init datagram_layer_pseudo_checksum)
        (finish (serialize (with_cksum seg 0) serializer))))
