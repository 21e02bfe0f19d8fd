-- ===== src/Interface.antt =====
-- src/network_interface.{hh,cc}: datagrams in Ethernet frames, and the ARP table. The IP address is
-- its 32-bit number. The table is an association list, a key at most once; the queues stand front
-- first.
pub mod Table
pub mod Resolving
pub mod Sending
pub mod Releasing
mod Tests
use networkinglab.Base.{
  ℕ, Bool, true, false, not, ◌&&◌, Option, none, some, List, [], ◌∷◌, ◌++◌, ltb, ◌==◌,
  if◌then◌else◌, add64, Outcome, ok, ◌>>=◌, map_ok,
}
use networkinglab.Wire.{parser, serializer, finish}
use networkinglab.Ethernet.{
  EthernetAddress, EthernetHeader, EthernetFrame, ethernet_broadcast, same_address, type_ipv4,
  type_arp, no_address,
}
use networkinglab.Arp
use networkinglab.Arp.{ArpMessage, no_message, opcode_request, opcode_reply}
use networkinglab.Ipv4.{Ipv4Datagram, new_header, parse_datagram, serialize_datagram}

-- A mapping: an Ethernet address and its age in milliseconds.
abbrev pub Mapping : Type 0
Mapping = EthernetAddress × ℕ

abbrev pub ArpTable : Type 0
ArpTable = List (ℕ × Mapping)

-- std::unordered_map::find.
unfoldable pub find : ℕ → ArpTable → Option Mapping
find k [] = none
find k ((j, m) ∷ t) = if j == k then some m else find k t

-- Assignment through std::unordered_map::operator[].
unfoldable pub assign : ℕ → Mapping → ArpTable → ArpTable
assign k m [] = (k, m) ∷ []
assign k m ((j, n) ∷ t) = if j == k then (k, m) ∷ t else (j, n) ∷ assign k m t

pub record NetworkInterface : Type 0 where
  pub ethernet_address : EthernetAddress
  pub ip_address : ℕ
  pub arp_table : ArpTable
  pub ready_to_send : List EthernetFrame
  pub unknown_eth_addr : List (ℕ × EthernetFrame)

-- NetworkInterface::NetworkInterface, less what it prints.
unfoldable pub init : EthernetAddress → ℕ → NetworkInterface
init ethernet_address ip_address = record {
  ethernet_address = ethernet_address;
  ip_address = ip_address;
  arp_table = [];
  ready_to_send = [];
  unknown_eth_addr = [];
}

-- ready_to_send_.push.
abbrev pub make_ready : EthernetFrame → NetworkInterface → NetworkInterface
make_ready ef i = record i { ready_to_send = i.ready_to_send ++ (ef ∷ []) }

-- A mapping that waits for a reply has the broadcast address.
unfoldable pub is_asked : Mapping → Bool
unfolding same_address
is_asked m = same_address m.0 ethernet_broadcast

-- The ARP request for an address.
abbrev pub arp_request : NetworkInterface → ℕ → ArpMessage
arp_request i next_hop = record no_message {
  opcode = opcode_request;
  sender_ethernet_address = i.ethernet_address;
  sender_ip_address = i.ip_address;
  target_ip_address = next_hop;
}

-- The frame of an ARP message from the interface.
abbrev pub arp_frame : NetworkInterface → EthernetAddress → List (List ℕ) → EthernetFrame
arp_frame i dst payload = record {
  header = record { dst = dst; src = i.ethernet_address; type = type_arp };
  payload = payload;
}

-- The frame of a datagram from the interface.
abbrev pub ip_frame : NetworkInterface → EthernetAddress → List (List ℕ) → EthernetFrame
ip_frame i dst payload = record {
  header = record { dst = dst; src = i.ethernet_address; type = type_ipv4 };
  payload = payload;
}

-- send_datagram where the Ethernet address is unknown: the datagram waits, and a request goes out.
unfoldable pub ask : NetworkInterface → ℕ → List (List ℕ) → Outcome NetworkInterface
ask i next_hop payload =
    map_ok
      (λ s. make_ready (arp_frame i ethernet_broadcast (finish s)) (record i {
        arp_table = assign next_hop (ethernet_broadcast, 0) i.arp_table;
        unknown_eth_addr =
            i.unknown_eth_addr ++ ((next_hop, ip_frame i ethernet_broadcast payload) ∷ []);
      }))
      (Arp.serialize (arp_request i next_hop) serializer)

-- send_datagram with the bytes of the datagram.
unfoldable pub dispatch :
    NetworkInterface → ℕ → Option Mapping → List (List ℕ) → Outcome NetworkInterface
unfolding ask is_asked
dispatch i next_hop none payload = ask i next_hop payload
dispatch i next_hop (some m) payload =
    if not (is_asked m) then ok (make_ready (ip_frame i m.0 payload) i) else ask i next_hop payload

-- A request for the address has been sent less than five seconds ago.
unfoldable pub is_pending : Option Mapping → Bool
unfolding is_asked
is_pending none = false
is_pending (some m) = is_asked m && ltb m.1 5000

-- NetworkInterface::send_datagram.
unfoldable pub send_datagram : NetworkInterface → Ipv4Datagram → ℕ → Outcome NetworkInterface
unfolding dispatch is_pending
send_datagram i dgram next_hop =
    let mapping = find next_hop i.arp_table in
    if is_pending mapping
    then ok i
    else (serialize_datagram dgram serializer >>= λ s. dispatch i next_hop mapping (finish s))

-- IPv4Datagram {}.
abbrev pub no_datagram : Ipv4Datagram
no_datagram = record { header = new_header; payload = [] }

-- parse( ipmsg, frame.payload ) and parse( arpmsg, frame.payload ).
unfoldable pub parse_ip : List (List ℕ) → Outcome (Option Ipv4Datagram)
parse_ip payload =
    map_ok (λ r. if r.1.error then none else some r.0) (parse_datagram no_datagram (parser payload))

unfoldable pub parse_arp : List (List ℕ) → Outcome (Option ArpMessage)
parse_arp payload =
    map_ok (λ r. if r.1.error then none else some r.0) (Arp.parse no_message (parser payload))

-- The reply to a request.
abbrev pub arp_reply : NetworkInterface → ArpMessage → ArpMessage
arp_reply i m = record no_message {
  opcode = opcode_reply;
  sender_ethernet_address = i.ethernet_address;
  sender_ip_address = i.ip_address;
  target_ethernet_address = m.sender_ethernet_address;
  target_ip_address = m.sender_ip_address;
}

-- recv_frame with an ARP message: its sender is learned, and a request for this address answered.
unfoldable pub learn : NetworkInterface → Option ArpMessage → Outcome NetworkInterface
learn i none = ok i
learn i (some m) =
    let j = record i {
      arp_table = assign m.sender_ip_address (m.sender_ethernet_address, 0) i.arp_table;
    } in
    if (m.opcode == opcode_request) && (m.target_ip_address == i.ip_address)
    then map_ok (λ s. make_ready (arp_frame i m.sender_ethernet_address (finish s)) j)
        (Arp.serialize (arp_reply i m) serializer)
    else ok j

-- A frame with the Ethernet address that has been found for it.
abbrev pub with_dst : EthernetFrame → EthernetAddress → EthernetFrame
with_dst f dst = record f { header = record f.header { dst = dst } }

-- The loop of recv_frame over the datagrams that wait: those whose mapping is found are released.
unfoldable pub release :
    ArpTable → List (ℕ × EthernetFrame) → List EthernetFrame × List (ℕ × EthernetFrame)
release t [] = ([], [])
release t ((k, f) ∷ waiting) =
    let (ready, kept) = release t waiting in
    elim (find k t) [ some m ↦ (with_dst f m.0 ∷ ready, kept) | none ↦ (ready, (k, f) ∷ kept) ]

unfoldable pub release_known : NetworkInterface → NetworkInterface
unfolding release
release_known i =
    let (ready, kept) = release i.arp_table i.unknown_eth_addr in
    record i { ready_to_send = i.ready_to_send ++ ready; unknown_eth_addr = kept }

-- The datagram for this interface in a frame, if there is one.
unfoldable pub take_datagram : NetworkInterface → EthernetFrame → Outcome (Option Ipv4Datagram)
unfolding parse_ip same_address
take_datagram i frame =
    if frame.header.type == type_ipv4
    then map_ok (λ ipmsg. if same_address frame.header.dst i.ethernet_address then ipmsg else none)
        (parse_ip frame.payload)
    else ok none

-- The ARP message in a frame, if there is one.
unfoldable pub take_arp : EthernetFrame → Outcome (Option ArpMessage)
unfolding parse_arp
take_arp frame = if frame.header.type == type_arp then parse_arp frame.payload else ok none

-- recv_frame where it does not return a datagram.
unfoldable pub recv_other : NetworkInterface → EthernetFrame → Outcome NetworkInterface
unfolding take_arp learn release_known
recv_other i frame = take_arp frame >>= λ arpmsg. map_ok release_known (learn i arpmsg)

-- recv_frame returns a datagram at once.
unfoldable pub deliver :
    NetworkInterface
    → EthernetFrame
    → Option Ipv4Datagram
    → Outcome (Option Ipv4Datagram × NetworkInterface)
unfolding recv_other
deliver i frame none = map_ok (λ j. (none, j)) (recv_other i frame)
deliver i frame (some d) = ok (some d, i)

-- NetworkInterface::recv_frame.
unfoldable pub recv_frame :
    NetworkInterface → EthernetFrame → Outcome (Option Ipv4Datagram × NetworkInterface)
unfolding take_datagram deliver
recv_frame i frame = take_datagram i frame >>= deliver i frame

-- The loop of NetworkInterface::tick: mappings grow older, and leave after thirty seconds.
unfoldable pub age : ℕ → ArpTable → ArpTable
age ms [] = []
age ms ((k, m) ∷ t) =
    let older = age ms t in
    if ltb 30000 (add64 m.1 ms) then older else (k, (m.0, add64 m.1 ms)) ∷ older

-- NetworkInterface::tick.
unfoldable pub tick : NetworkInterface → ℕ → NetworkInterface
unfolding age
tick i ms = record i { arp_table = age ms i.arp_table }

abbrev pub pop_front : List EthernetFrame → Option EthernetFrame × List EthernetFrame
pop_front [] = (none, [])
pop_front (f ∷ fs) = (some f, fs)

-- NetworkInterface::maybe_send.
unfoldable pub maybe_send : NetworkInterface → Option EthernetFrame × NetworkInterface
maybe_send i = let (ef, rest) = pop_front i.ready_to_send in (ef, record i { ready_to_send = rest })
