-- ===== src/Router/Tests.antt =====
-- Runs of src/router.cc, and the theorems at them.
use networkinglab.Base.{◌≡◌, ◌^◌, ◌*◌, refl, [], ◌∷◌, map, Option, none, some, ok, arith, ◌⊎◌}
use networkinglab.Ipv4.{Ipv4Datagram, new_header}
use networkinglab.Interface.{NetworkInterface}
use networkinglab.Router.{
  Entry, Router, AsyncNetworkInterface, async_interface, add_interface, maybe_receive, route,
  add_route, find_entry, dst_prefix, improves,
}
use networkinglab.Router.Longest.{AllBelow, Member, Matches, height, find_entry-longest}
use networkinglab.Router.Queues.{queues, tail}
use networkinglab.Router.Forwarding.{IsRouter, route_takes_one_each}

-- A default route, and 10.0.0.0/8 and 10.0.0.0/16.
abbrev wide : Entry
wide = record { route_prefix = 0; prefix_length = 0; next_hop = some 1; interface_num = 0 }

abbrev ten : Entry
ten = record { route_prefix = 10 * 2 ^ 24; prefix_length = 8; next_hop = none; interface_num = 1 }

abbrev ten_one : Entry
ten_one = record {
  route_prefix = 10 * 2 ^ 24;
  prefix_length = 16;
  next_hop = none;
  interface_num = 2;
}

adds_last : add_route (wide ∷ []) (10 * 2 ^ 24) 8 none 1 ≡ wide ∷ ten ∷ []
unfolding add_route
adds_last = refl

takes_the_longest : find_entry 167772161 (wide ∷ ten_one ∷ ten ∷ []) none ≡ ok (some ten_one)
unfolding find_entry dst_prefix improves
takes_the_longest = refl

find_entry-longest_example :
    (r : Option Entry) × (find_entry 167772161 (wide ∷ ten_one ∷ ten ∷ []) none ≡ ok r)
    × AllBelow 167772161 (height r) (wide ∷ ten_one ∷ ten ∷ [])
    × ((r ≡ none)
        ⊎ ((m : Entry) × (r ≡ some m) × Member m (wide ∷ ten_one ∷ ten ∷ []) × Matches 167772161 m))
find_entry-longest_example =
    find_entry-longest 167772161 (wide ∷ ten_one ∷ ten ∷ [])
      (omega arith, (omega arith, (omega arith, tt)))

abbrev interface_a : NetworkInterface
interface_a = record {
  ethernet_address = 2 ∷ 0 ∷ 0 ∷ 0 ∷ 0 ∷ 1 ∷ [];
  ip_address = 1;
  arp_table = [];
  ready_to_send = [];
  unknown_eth_addr = [];
}

-- A datagram to 10.0.0.1.
abbrev datagram : Ipv4Datagram
datagram = record { header = record new_header { dst = 167772161 }; payload = [] }

-- Two datagrams wait at the first of two interfaces.
abbrev with_two : AsyncNetworkInterface
with_two = record { interface = interface_a; datagrams_in = datagram ∷ datagram ∷ [] }

abbrev router : Router
router = record {
  interfaces = with_two ∷ async_interface interface_a ∷ [];
  routing_table = wide ∷ ten ∷ [];
}

second_index :
    (add_interface (record router { interfaces = with_two ∷ [] }) (async_interface interface_a))
    ≡ (1, router)
unfolding add_interface
second_index = refl

takes_the_front : (maybe_receive with_two).0 ≡ some datagram
unfolding maybe_receive
takes_the_front = refl

router-IsRouter : IsRouter router
router-IsRouter = record {
  fits = (omega arith, (omega arith, tt));
  named = (omega arith, (omega arith, tt));
  four = ((refl, (refl, tt)), (tt, tt));
}

route_takes_one_each_example :
    (r : Router) × (route router ≡ ok r)
    × (queues r.interfaces ≡ map tail (queues router.interfaces))
    × (r.routing_table ≡ router.routing_table)
route_takes_one_each_example = route_takes_one_each router router-IsRouter
