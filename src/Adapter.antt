-- ===== src/Adapter.antt =====
-- util/tcp_over_ip.{hh,cc}, util/fd_adapter.hh and FdAdapterConfig of util/tcp_config.hh: segments in
-- datagrams. An Address is its 32-bit number and its port.
pub mod Carried
mod Tests
use networkinglab.Base.{
  ℕ, ◌+◌, ◌*◌, ◌%◌, Bool, true, false, not, ◌&&◌, Option, none, some, List, ◌==◌, if◌then◌else◌,
  length, Outcome, ok, ◌>>=◌, map_ok, u16_mod,
}
use networkinglab.Message.{TcpSegment}
use networkinglab.Wire.{parser, serializer, finish}
use networkinglab.Ipv4
use networkinglab.Ipv4.{Ipv4Header, Ipv4Datagram, new_header, proto_tcp, pseudo_checksum}
use networkinglab.Segment
use networkinglab.Segment.{no_segment}

pub record Address : Type 0 where
  pub ip : ℕ
  pub port : ℕ

pub record FdAdapterConfig : Type 0 where
  pub source : Address
  pub destination : Address
  pub loss_rate_dn : ℕ
  pub loss_rate_up : ℕ

-- FdAdapterBase.
pub record FdAdapter : Type 0 where
  pub cfg : FdAdapterConfig
  pub listen : Bool

-- FdAdapterBase as it is made.
abbrev pub new_adapter : FdAdapter
new_adapter = record {
  cfg = record {
    source = record { ip = 0; port = 0 };
    destination = record { ip = 0; port = 0 };
    loss_rate_dn = 0;
    loss_rate_up = 0;
  };
  listen = false;
}

-- FdAdapterBase::set_listening.
unfoldable pub set_listening : FdAdapter → Bool → FdAdapter
set_listening a l = record a { listen = l }

-- parse( tcp_seg, ip_dgram.payload, ... ): the segment, if the parser has no error.
unfoldable pub parse_segment : ℕ → List (List ℕ) → Outcome (Option TcpSegment)
parse_segment pseudo buffers = Segment.parse no_segment pseudo (parser buffers) >>= λ r.
    ok (if r.1.error then none else some r.0)

-- The last test of unwrap_tcp_in_ip: is the segment from our peer?
unfoldable pub from_peer : FdAdapter → TcpSegment → Option TcpSegment × FdAdapter
from_peer a seg =
    if not (seg.udinfo.src_port == a.cfg.destination.port) then (none, a) else (some seg, a)

-- The adapter has its peer in the sender of the datagram.
unfoldable pub connect : FdAdapter → Ipv4Header → TcpSegment → FdAdapter
unfolding set_listening
connect a h seg =
    set_listening
      (record a {
        cfg = record a.cfg {
          source = record { ip = h.dst; port = a.cfg.source.port };
          destination = record { ip = h.src; port = seg.udinfo.src_port };
        };
      })
      false

-- unwrap_tcp_in_ip from the port of the segment on. A listening adapter connects at a SYN.
unfoldable pub accept : FdAdapter → Ipv4Header → TcpSegment → Option TcpSegment × FdAdapter
unfolding from_peer connect
accept a h seg =
    if not (seg.udinfo.dst_port == a.cfg.source.port)
    then (none, a)
    else if a.listen
    then (if seg.sender_message.syn && not seg.reset
        then from_peer (connect a h seg) seg
        else (none, a))
    else from_peer a seg

-- unwrap_tcp_in_ip with the parsed segment.
unfoldable pub accept_parsed :
    FdAdapter → Ipv4Header → Option TcpSegment → Option TcpSegment × FdAdapter
unfolding accept
accept_parsed a h none = (none, a)
accept_parsed a h (some seg) = accept a h seg

-- Are the addresses and the protocol of the datagram those that the adapter takes?
unfoldable pub is_ours : FdAdapter → Ipv4Header → Bool
is_ours a h =
    not (not a.listen && not (h.dst == a.cfg.source.ip))
    && (not (not a.listen && not (h.src == a.cfg.destination.ip)) && (h.proto == proto_tcp))

-- TCPOverIPv4Adapter::unwrap_tcp_in_ip.
unfoldable pub unwrap_tcp_in_ip : FdAdapter → Ipv4Datagram → Outcome (Option TcpSegment × FdAdapter)
unfolding is_ours parse_segment accept_parsed
unwrap_tcp_in_ip a d =
    if is_ours a d.header
    then map_ok (accept_parsed a d.header) (parse_segment (pseudo_checksum d.header) d.payload)
    else ok (none, a)

-- The ports of the adapter in the segment.
abbrev pub with_ports : FdAdapter → TcpSegment → TcpSegment
with_ports a seg = record seg {
  udinfo = record seg.udinfo { src_port = a.cfg.source.port; dst_port = a.cfg.destination.port };
}

-- The header of the datagram, not yet summed.
abbrev pub datagram_header : FdAdapter → TcpSegment → Ipv4Header
datagram_header a seg = record new_header {
  src = a.cfg.source.ip;
  dst = a.cfg.destination.ip;
  len = (new_header.hlen * 4 + 20 + length seg.sender_message.payload) % u16_mod;
}

-- TCPOverIPv4Adapter::wrap_tcp_in_ip. The segment is changed, and comes back with the datagram.
unfoldable pub wrap_tcp_in_ip : FdAdapter → TcpSegment → Outcome (Ipv4Datagram × TcpSegment)
wrap_tcp_in_ip a seg =
    let h = datagram_header a seg in
    let sent = Segment.compute_checksum (with_ports a seg) (pseudo_checksum h) in
    Ipv4.compute_checksum h >>= λ h'.
    ok (record { header = h'; payload = finish (Segment.serialize sent serializer) }, sent)
