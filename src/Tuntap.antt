-- ===== src/Tuntap.antt =====
-- util/tuntap_adapter.{hh,cc} and util/lossy_fd_adapter.hh: segments over a TUN and a TAP device, and
-- with losses. What a device reads is an argument, and what is written to it is returned, a list of
-- strings for each write.
pub mod Pending
pub mod Crossing
pub mod Dividing
mod Tests
use networkinglab.Base.{
  ℕ, zero, suc, ◌+◌, ◌%◌, Bool, true, false, not, ◌&&◌, Option, none, some, List, [], ◌∷◌, ◌++◌,
  length, ltb, ◌==◌, if◌then◌else◌, Outcome, ok, no_fuel, take, drop, ◌>>=◌, map_ok, u16_mod,
}
use networkinglab.Message.{TcpSegment}
use networkinglab.Wire.{parser, serializer, finish}
use networkinglab.Ethernet.{EthernetAddress, EthernetFrame, no_header, parse_frame, serialize_frame}
use networkinglab.Ipv4.{Ipv4Datagram, header_length, serialize_datagram}
use networkinglab.Descriptor.{read_buffer_size}
use networkinglab.Interface
use networkinglab.Interface.{NetworkInterface, parse_ip, send_datagram, recv_frame, maybe_send}
use networkinglab.Adapter.{Address, FdAdapter, new_adapter, unwrap_tcp_in_ip, wrap_tcp_in_ip}

-- FileDescriptor::read for a vector: the strings of the given sizes, as far as the bytes go that
-- the device delivers.
unfoldable pub scatter : List ℕ → List ℕ → List (List ℕ)
scatter [] bytes = []
scatter (size ∷ sizes) bytes = take size bytes ∷ scatter sizes (drop size bytes)

-- The end of both reads: the segment in a datagram, if there is a datagram.
unfoldable pub unwrap_parsed :
    FdAdapter → Option Ipv4Datagram → Outcome (Option TcpSegment × FdAdapter)
unwrap_parsed a none = ok (none, a)
unwrap_parsed a (some d) = unwrap_tcp_in_ip a d

-- TCPOverIPv4OverTunFdAdapter::read, where the device delivers the bytes.
unfoldable pub tun_read : FdAdapter → List ℕ → Outcome (Option TcpSegment × FdAdapter)
unfolding unwrap_parsed scatter
tun_read a bytes =
    parse_ip (scatter (header_length ∷ read_buffer_size ∷ []) bytes) >>= unwrap_parsed a

-- TCPOverIPv4OverTunFdAdapter::write. The segment is changed, and comes back with the strings.
unfoldable pub tun_write : FdAdapter → TcpSegment → Outcome (List (List ℕ) × TcpSegment)
tun_write a seg =
    wrap_tcp_in_ip a seg >>= λ r. map_ok (λ s. (finish s, r.1)) (serialize_datagram r.0 serializer)

-- TCPOverIPv4OverEthernetAdapter, less its device.
pub record EthernetAdapter : Type 0 where
  pub adapter : FdAdapter
  pub interface : NetworkInterface
  pub next_hop : Address

-- EthernetFrame {}.
abbrev pub dummy_frame : EthernetFrame
dummy_frame = record { header = no_header; payload = [] }

-- serialize of a frame.
abbrev pub frame_strings : EthernetFrame → List (List ℕ)
frame_strings frame = finish (serialize_frame frame serializer)

-- TCPOverIPv4OverEthernetAdapter::TCPOverIPv4OverEthernetAdapter, and what it writes.
unfoldable pub init : EthernetAddress → Address → Address → List (List (List ℕ)) × EthernetAdapter
init eth_address ip_address next_hop = (
  frame_strings dummy_frame ∷ [],
  record {
    adapter = new_adapter;
    interface = Interface.init eth_address ip_address.ip;
    next_hop = next_hop;
  },
)

-- The loop of TCPOverIPv4OverEthernetAdapter::send_pending, on fuel.
unfoldable pub send_loop : ℕ → NetworkInterface → Outcome (List (List (List ℕ)) × NetworkInterface)
send_loop zero i = no_fuel
send_loop (suc fuel) i =
    let rest = send_loop fuel (maybe_send i).1 in
    elim (maybe_send i).0 [
      | none ↦ ok ([], (maybe_send i).1)
      | some frame ↦ map_ok (λ r. (frame_strings frame ∷ r.0, r.1)) rest
    ]

-- TCPOverIPv4OverEthernetAdapter::send_pending. Each round but the last sends a frame.
unfoldable pub send_pending : EthernetAdapter → Outcome (List (List (List ℕ)) × EthernetAdapter)
unfolding send_loop
send_pending e =
    map_ok (λ r. (r.0, record e { interface = r.1 }))
      (send_loop (length e.interface.ready_to_send + 1) e.interface)

-- TCPOverIPv4OverEthernetAdapter::tick.
unfoldable pub tick : EthernetAdapter → ℕ → Outcome (List (List (List ℕ)) × EthernetAdapter)
unfolding send_pending
tick e ms = send_pending (record e { interface = Interface.tick e.interface ms })

-- TCPOverIPv4OverEthernetAdapter::write.
unfoldable pub write :
    EthernetAdapter → TcpSegment → Outcome (List (List (List ℕ)) × TcpSegment × EthernetAdapter)
unfolding send_pending
write e seg = wrap_tcp_in_ip e.adapter seg >>= λ r.
    send_datagram e.interface r.0 e.next_hop.ip >>= λ i.
    map_ok (λ w. (w.0, r.1, w.1)) (send_pending (record e { interface = i }))

-- parse( frame, buffers ).
unfoldable pub parse_ethernet : List (List ℕ) → Outcome (Option EthernetFrame)
parse_ethernet buffers =
    map_ok (λ r. if r.1.error then none else some r.0) (parse_frame dummy_frame (parser buffers))

-- TCPOverIPv4OverEthernetAdapter::read behind the parsing of the frame.
unfoldable pub read_frame :
    EthernetAdapter
    → Option EthernetFrame
    → Outcome (List (List (List ℕ)) × Option TcpSegment × EthernetAdapter)
unfolding send_pending unwrap_parsed
read_frame e none = ok ([], none, e)
read_frame e (some frame) = recv_frame e.interface frame >>= λ r.
    send_pending (record e { interface = r.1 }) >>= λ w.
    map_ok (λ u. (w.0, u.0, record w.1 { adapter = u.1 })) (unwrap_parsed w.1.adapter r.0)

-- EthernetHeader::LENGTH.
abbrev pub ethernet_length : ℕ
ethernet_length = 14

-- TCPOverIPv4OverEthernetAdapter::read, where the device delivers the bytes.
unfoldable pub read :
    EthernetAdapter → List ℕ → Outcome (List (List (List ℕ)) × Option TcpSegment × EthernetAdapter)
unfolding read_frame parse_ethernet
read e bytes =
    parse_ethernet (scatter (ethernet_length ∷ header_length ∷ read_buffer_size ∷ []) bytes)
    >>= read_frame e

-- LossyFdAdapter::_should_drop, with the random number that is drawn.
unfoldable pub should_drop : FdAdapter → Bool → ℕ → Bool
should_drop a uplink rand =
    let loss = if uplink then a.cfg.loss_rate_up else a.cfg.loss_rate_dn in
    not (loss == 0) && ltb (rand % u16_mod) loss

-- LossyFdAdapter::read over the TUN adapter.
unfoldable pub lossy_read : FdAdapter → ℕ → List ℕ → Outcome (Option TcpSegment × FdAdapter)
unfolding tun_read should_drop
lossy_read a rand bytes =
    map_ok (λ r. if should_drop r.1 false rand then (none, r.1) else r) (tun_read a bytes)

-- LossyFdAdapter::write over the TUN adapter: the strings, if the segment is not dropped.
unfoldable pub lossy_write :
    FdAdapter → ℕ → TcpSegment → Outcome (Option (List (List ℕ)) × TcpSegment)
unfolding tun_write should_drop
lossy_write a rand seg =
    if should_drop a true rand
    then ok (none, seg)
    else map_ok (λ r. (some r.0, r.1)) (tun_write a seg)
