-- ===== src/Router.antt =====
-- src/router.{hh,cc}: the interfaces with their queues, the routing table, and route. An address is
-- its 32-bit number.
pub mod Longest
pub mod Queues
pub mod Naming
pub mod Forwarding
mod Tests
use networkinglab.Base.{
  ℕ, ◌-◌, ◌*◌, ◌/◌, ◌%◌, ◌^◌, Bool, true, false, ◌&&◌, Option, none, some, List, [], ◌∷◌, ◌++◌, ltb,
  ◌==◌, if◌then◌else◌, u32_mod, Outcome, ok, undefined, out_of_range, ◌>>=◌, map_ok, zero, suc,
  ◌||◌, length,
}
use networkinglab.Ethernet.{EthernetFrame}
use networkinglab.Ipv4
use networkinglab.Ipv4.{Ipv4Datagram}
use networkinglab.Interface
use networkinglab.Interface.{NetworkInterface, send_datagram}

pub record AsyncNetworkInterface : Type 0 where
  pub interface : NetworkInterface
  pub datagrams_in : List Ipv4Datagram

-- AsyncNetworkInterface::AsyncNetworkInterface.
abbrev pub async_interface : NetworkInterface → AsyncNetworkInterface
async_interface i = record { interface = i; datagrams_in = [] }

-- datagrams_in_.push, where there is a datagram.
abbrev pub enqueue : List Ipv4Datagram → Option Ipv4Datagram → List Ipv4Datagram
enqueue datagrams none = datagrams
enqueue datagrams (some d) = datagrams ++ (d ∷ [])

-- AsyncNetworkInterface::recv_frame.
unfoldable pub recv_frame : AsyncNetworkInterface → EthernetFrame → Outcome AsyncNetworkInterface
recv_frame a frame =
    map_ok (λ r. record { interface = r.1; datagrams_in = enqueue a.datagrams_in r.0 })
      (Interface.recv_frame a.interface frame)

-- AsyncNetworkInterface::maybe_receive, on the queue.
abbrev pub take_front : List Ipv4Datagram → Option Ipv4Datagram × List Ipv4Datagram
take_front [] = (none, [])
take_front (d ∷ ds) = (some d, ds)

-- AsyncNetworkInterface::maybe_receive.
unfoldable pub maybe_receive : AsyncNetworkInterface → Option Ipv4Datagram × AsyncNetworkInterface
maybe_receive a = let (d, ds) = take_front a.datagrams_in in (d, record a { datagrams_in = ds })

-- Router::Entry.
pub record Entry : Type 0 where
  pub route_prefix : ℕ
  pub prefix_length : ℕ
  pub next_hop : Option ℕ
  pub interface_num : ℕ

-- Router::add_route.
unfoldable pub add_route : List Entry → ℕ → ℕ → Option ℕ → ℕ → List Entry
add_route table route_prefix prefix_length next_hop interface_num =
    table
    ++ (record {
      route_prefix = route_prefix;
      prefix_length = prefix_length;
      next_hop = next_hop;
      interface_num = interface_num;
    }
        ∷ [])

-- dst_prefix: the destination shifted right and left by 32 - prefix_length. A shift by a negative
-- number is undefined.
unfoldable pub dst_prefix : ℕ → ℕ → Outcome ℕ
dst_prefix dst len =
    if len == 0
    then ok 0
    else if ltb 32 len
    then undefined
    else ok (dst / 2 ^ (32 - len) * 2 ^ (32 - len) % u32_mod)

-- Is there no match yet, or one with a shorter prefix?
unfoldable pub improves : Option Entry → Entry → Bool
improves none e = true
improves (some m) e = ltb m.prefix_length e.prefix_length

-- The loop of Router::route over the table, from the match so far.
unfoldable pub find_entry : ℕ → List Entry → Option Entry → Outcome (Option Entry)
find_entry dst [] match_entry = ok match_entry
find_entry dst (e ∷ es) match_entry = dst_prefix dst e.prefix_length >>= λ p.
    find_entry dst es
      (if (p == e.route_prefix) && improves match_entry e then some e else match_entry)

pub record Router : Type 0 where
  pub interfaces : List AsyncNetworkInterface
  pub routing_table : List Entry

-- Router::add_interface.
unfoldable pub add_interface : Router → AsyncNetworkInterface → ℕ × Router
add_interface r i =
    let grown = r.interfaces ++ (i ∷ []) in (length grown - 1, record r { interfaces = grown })

-- maybe_receive of the interface at an index of the loop of route.
unfoldable pub receive_at :
    ℕ → List AsyncNetworkInterface → Option Ipv4Datagram × List AsyncNetworkInterface
unfolding maybe_receive
receive_at k [] = (none, [])
receive_at zero (a ∷ rest) = let (d, b) = maybe_receive a in (d, b ∷ rest)
receive_at (suc k) (a ∷ rest) = let (d, bs) = receive_at k rest in (d, a ∷ bs)

-- send_datagram of the interface at an index. Router::interface throws behind the last.
unfoldable pub send_at :
    ℕ → List AsyncNetworkInterface → Ipv4Datagram → ℕ → Outcome (List AsyncNetworkInterface)
send_at n [] d next_hop = out_of_range
send_at zero (a ∷ rest) d next_hop =
    map_ok (λ i. record a { interface = i } ∷ rest) (send_datagram a.interface d next_hop)
send_at (suc n) (a ∷ rest) d next_hop = map_ok (λ bs. a ∷ bs) (send_at n rest d next_hop)

-- Is the TTL zero, or does it become zero?
abbrev pub expires : Ipv4Datagram → Bool
expires d = (d.header.ttl == 0) || (d.header.ttl - 1 == 0)

-- next_hop.value_or( Address::from_ipv4_numeric( dst ) ).
abbrev pub hop_or : Option ℕ → ℕ → ℕ
hop_or none dst = dst
hop_or (some next_hop) dst = next_hop

-- A round of Router::route behind the search of the table: the checksum is computed anew.
unfoldable pub send_matched : Router → Ipv4Datagram → Option Entry → Outcome Router
unfolding send_at
send_matched r d none = ok r
send_matched r d (some e) = Ipv4.compute_checksum d.header >>= λ h.
    map_ok (λ is. record r { interfaces = is })
      (send_at e.interface_num r.interfaces (record d { header = h }) (hop_or e.next_hop h.dst))

-- A round of Router::route with the datagram that has been received.
unfoldable pub forward : Router → Option Ipv4Datagram → Outcome Router
unfolding send_matched find_entry
forward r none = ok r
forward r (some d) =
    if expires d
    then ok r
    else (find_entry d.header.dst r.routing_table none >>= λ m.
        send_matched r (record d { header = record d.header { ttl = d.header.ttl - 1 } }) m)

-- A round of Router::route.
unfoldable pub route_at : ℕ → Router → Outcome Router
unfolding receive_at forward
route_at k r = let (d, is) = receive_at k r.interfaces in forward (record r { interfaces = is }) d

-- The loop of Router::route, with `n` interfaces left from the index `k` on.
unfoldable pub route_loop : ℕ → ℕ → Router → Outcome Router
unfolding route_at
route_loop zero k r = ok r
route_loop (suc n) k r = route_at k r >>= route_loop n (suc k)

-- Router::route.
unfoldable pub route : Router → Outcome Router
unfolding route_loop
route r = route_loop (length r.interfaces) 0 r
