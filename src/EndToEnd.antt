-- ===== src/EndToEnd.antt =====
-- apps/endtoend.cc: a socket, a router and the Internet side, joined by queues of frames. What the
-- system calls answer is a part of the state, and so is what the adapter has written.
pub mod Networking
pub mod Routes
pub mod Receiving
pub mod Running
mod Tests
use networkinglab.Base.{
  ℕ, zero, suc, ◌+◌, ◌*◌, ◌/◌, Bool, true, false, not, Option, none, some, List, [], ◌∷◌, ◌++◌,
  length, ◌==◌, if◌then◌else◌, replicate, Outcome, ok, no_fuel, out_of_range, runtime_error,
  undefined, ◌>>=◌, map_ok,
}
use networkinglab.Message.{TcpSegment}
use networkinglab.Wire.{serializer, finish}
use networkinglab.Ethernet.{EthernetAddress, EthernetFrame}
use networkinglab.Ipv4.{header_length, serialize_datagram}
use networkinglab.Descriptor.{Answer, FdWrapper, read_vector, write_vector}
use networkinglab.Adapter.{
  Address, FdAdapter, FdAdapterConfig, new_adapter, set_listening, wrap_tcp_in_ip,
}
use networkinglab.Interface
use networkinglab.Interface.{NetworkInterface, send_datagram, recv_frame, maybe_send}
use networkinglab.Tuntap.{unwrap_parsed, frame_strings, parse_ethernet, ethernet_length}
use networkinglab.Router.{
  Router, Entry, AsyncNetworkInterface, async_interface, add_route, add_interface,
}
use networkinglab.Minnow.{AdapterOps}

-- random_host_ethernet_address, from the bytes that are drawn: |= 0x02 and &= 0xfe.
unfoldable pub random_host_ethernet_address : List ℕ → EthernetAddress
random_host_ethernet_address [] = []
random_host_ethernet_address (b ∷ bs) = (b / 4 * 4 + 2) ∷ bs

-- random_router_ethernet_address.
unfoldable pub random_router_ethernet_address : List ℕ → EthernetAddress
random_router_ethernet_address (a ∷ b ∷ c ∷ bs) = 2 ∷ 0 ∷ 0 ∷ bs
random_router_ethernet_address bs = bs

-- maybe_receive_frame.
unfoldable pub maybe_receive_frame :
    FdWrapper → Answer (List ℕ) → Outcome (Option EthernetFrame × FdWrapper)
maybe_receive_frame d a =
    read_vector d (replicate ethernet_length 0 ∷ replicate header_length 0 ∷ [] ∷ []) a >>= λ r.
    map_ok (λ f. (f, r.1)) (parse_ethernet r.0)

-- NetworkInterfaceAdapter, less its sockets, with the answers to its writes, by how many writes have
-- been before, and what has been written.
pub record InterfaceAdapter : Type 0 where
  pub adapter : FdAdapter
  pub interface : NetworkInterface
  pub next_hop : Address
  pub answer : ℕ → Answer ℕ
  pub written : List (List (List ℕ))

-- NetworkInterfaceAdapter::NetworkInterfaceAdapter, with the bytes that are drawn.
unfoldable pub new_interface_adapter :
    List ℕ → Address → Address → (ℕ → Answer ℕ) → InterfaceAdapter
unfolding random_host_ethernet_address
new_interface_adapter drawn ip_address next_hop answer = record {
  adapter = new_adapter;
  interface = Interface.init (random_host_ethernet_address drawn) ip_address.ip;
  next_hop = next_hop;
  answer = answer;
  written = [];
}

-- The loop of send_pending, on fuel.
unfoldable pub send_frames :
    ℕ → InterfaceAdapter → FdWrapper → Outcome (InterfaceAdapter × FdWrapper)
send_frames zero a d = no_fuel
send_frames (suc fuel) a d =
    let (f, i) = maybe_send a.interface in
    elim f [
      | none ↦ ok (record a { interface = i }, d)
      | some frame ↦ write_vector d (frame_strings frame) (a.answer (length a.written)) >>= λ n.
          send_frames fuel
            (record a { interface = i; written = a.written ++ (frame_strings frame ∷ []) }) n.1
    ]

-- send_pending. Each round but the last sends a frame.
unfoldable pub send_pending : InterfaceAdapter → FdWrapper → Outcome (InterfaceAdapter × FdWrapper)
unfolding send_frames
send_pending a d = send_frames (length a.interface.ready_to_send + 1) a d

-- NetworkInterfaceAdapter::read behind maybe_receive_frame.
unfoldable pub read_frame :
    InterfaceAdapter
    → FdWrapper
    → Option EthernetFrame
    → Outcome (Option TcpSegment × InterfaceAdapter × FdWrapper)
unfolding send_pending
read_frame a d none = ok (none, a, d)
read_frame a d (some frame) = recv_frame a.interface frame >>= λ r.
    send_pending (record a { interface = r.1 }) d >>= λ w.
    map_ok (λ u. (u.0, record w.0 { adapter = u.1 }, w.1)) (unwrap_parsed w.0.adapter r.0)

-- NetworkInterfaceAdapter.
unfoldable pub interface_ops : AdapterOps InterfaceAdapter FdAdapterConfig
unfolding maybe_receive_frame read_frame send_pending
interface_ops = record {
  read = λ a d from_router. maybe_receive_frame d from_router >>= λ r. read_frame a r.1 r.0;
  write = λ a d seg. wrap_tcp_in_ip a.adapter seg >>= λ r.
      send_datagram a.interface r.0 a.next_hop.ip >>= λ i.
      send_pending (record a { interface = i }) d;
  tick = λ a d ms. send_pending (record a { interface = Interface.tick a.interface ms }) d;
  configure = λ a c. record a { adapter = record a.adapter { cfg = c } };
  set_listening = λ a l. record a { adapter = set_listening a.adapter l };
}

-- FdAdapterConfig {}.
abbrev pub default_config : FdAdapterConfig
default_config = new_adapter.cfg

-- TCPSocketEndToEnd::connect: the configuration, where a port is drawn.
unfoldable pub connect_config : Address → ℕ → Address → FdAdapterConfig
connect_config local_address port address = record default_config {
  source = record local_address { port = port };
  destination = address;
}

-- TCPSocketEndToEnd::bind: the new local address.
unfoldable pub bind : Address → Address → Outcome Address
bind local_address address =
    if not (address.ip == local_address.ip)
    then runtime_error
    else ok (record local_address { port = address.port })

-- TCPSocketEndToEnd::listen_and_accept: the configuration.
unfoldable pub listen_config : Address → FdAdapterConfig
listen_config local_address = record default_config { source = local_address }

-- Address::ipv4_numeric of a dotted address.
abbrev pub dotted : ℕ → ℕ → ℕ → ℕ → ℕ
dotted a b c d = ((a * 256 + b) * 256 + c) * 256 + d

-- The indices of the interfaces.
abbrev pub host_side : ℕ
host_side = 0

abbrev pub internet_side : ℕ
internet_side = 1

-- Router router.
abbrev pub no_router : Router
no_router = record { interfaces = []; routing_table = [] }

-- { random_router_ethernet_address(), address }.
unfoldable pub router_side : List ℕ → ℕ → AsyncNetworkInterface
unfolding random_router_ethernet_address
router_side drawn ip = async_interface (Interface.init (random_router_ethernet_address drawn) ip)

-- Two interfaces of the router, with the bytes that are drawn for each, and their indices.
unfoldable pub two_sides : List ℕ → ℕ → List ℕ → ℕ → ℕ × ℕ × Router
unfolding router_side
two_sides drawn host_ip drawn' internet_ip =
    let (h, r) = add_interface no_router (router_side drawn host_ip) in
    let (i, t) = add_interface r (router_side drawn' internet_ip) in (h, i, t)

-- The router of program_body.
unfoldable pub set_up : Bool → List ℕ → List ℕ → Router
unfolding two_sides
set_up true drawn drawn' =
    let (h, i, r) = two_sides drawn (dotted 192 168 0 1) drawn' (dotted 10 0 0 192) in
    record r {
      routing_table =
          add_route
            (add_route (add_route [] (dotted 192 168 0 0) 16 none h) (dotted 10 0 0 0) 8 none i)
            (dotted 172 16 0 0) 12 (some (dotted 10 0 0 172)) i;
    }
set_up false drawn drawn' =
    let (h, i, r) = two_sides drawn (dotted 172 16 0 1) drawn' (dotted 10 0 0 172) in
    record r {
      routing_table =
          add_route
            (add_route (add_route [] (dotted 172 16 0 0) 12 none h) (dotted 10 0 0 0) 8 none i)
            (dotted 192 168 0 0) 16 (some (dotted 10 0 0 192)) i;
    }
