-- ===== src/Interface/Tests.antt =====
-- Runs of src/network_interface.cc, and the theorems at them.
use networkinglab.Base.{◌≡◌, refl, some, none, [], ◌∷◌, ok, arith, add64}
use networkinglab.Ethernet.{EthernetAddress, EthernetFrame, no_header, ethernet_broadcast}
use networkinglab.Wire.{Serializer, serializer, put_buffers}
use networkinglab.Ipv4.{new_header, serialize_datagram, Ipv4Datagram, put_members, serialize_header}
use networkinglab.Interface.{
  NetworkInterface, init, find, age, tick, send_datagram, recv_frame, arp_frame,
}
use networkinglab.Interface.Releasing.{asked, unresolved, released_unresolved}
use networkinglab.Interface.Resolving.{
  HasAddresses, arp_strings, request, reply, asking, answering, answered, resolves,
}

abbrev address_a : EthernetAddress
address_a = 2 ∷ 0 ∷ 0 ∷ 0 ∷ 0 ∷ 1 ∷ []

abbrev address_b : EthernetAddress
address_b = 2 ∷ 0 ∷ 0 ∷ 0 ∷ 0 ∷ 2 ∷ []

abbrev host_a : NetworkInterface
host_a = record {
  ethernet_address = address_a;
  ip_address = 1;
  arp_table = [];
  ready_to_send = [];
  unknown_eth_addr = [];
}

abbrev host_b : NetworkInterface
host_b = record host_a { ethernet_address = address_b; ip_address = 2 }

abbrev datagram : Ipv4Datagram
datagram = record { header = new_header; payload = [] }

-- Two mappings, one of them pending.
abbrev two_known : NetworkInterface
two_known = record host_a {
  arp_table = (2, (address_b, 29000)) ∷ (3, (ethernet_broadcast, 4000)) ∷ [];
}

one_leaves : (tick two_known 1500).arp_table ≡ (3, (ethernet_broadcast, 5500)) ∷ []
unfolding tick age add64
one_leaves = refl

host_a-HasAddresses : HasAddresses host_a
host_a-HasAddresses = record {
  size = refl;
  bytes =
      (omega arith, (omega arith, (omega arith, (omega arith, (omega arith, (omega arith, tt))))));
  word = omega arith;
}

host_b-HasAddresses : HasAddresses host_b
host_b-HasAddresses = record {
  size = refl;
  bytes =
      (omega arith, (omega arith, (omega arith, (omega arith, (omega arith, (omega arith, tt))))));
  word = omega arith;
}

starts_empty : init address_a 1 ≡ host_a
unfolding init
starts_empty = refl

-- The strings of the datagram.
abbrev serialized : Serializer
serialized = put_members new_header serializer

datagram-serialized : serialize_datagram datagram serializer ≡ ok serialized
unfolding serialize_datagram serialize_header put_buffers
datagram-serialized = refl

resolves_example :
    (send_datagram host_a datagram 2 ≡ ok (asking host_a host_b serialized))
    × (recv_frame host_b (arp_frame host_a ethernet_broadcast (arp_strings (request host_a host_b)))
        ≡ ok (none, answering host_a host_b))
    × (recv_frame
          (asking host_a host_b serialized)
          (arp_frame host_b address_a (arp_strings (reply host_a host_b)))
        ≡ ok (none, answered host_a host_b serialized))
    × (find 2 (answered host_a host_b serialized).arp_table ≡ some (address_b, 0))
    × (find 1 (answering host_a host_b).arp_table ≡ some (address_a, 0))
resolves_example =
    resolves host_a host_b datagram serialized host_a-HasAddresses host_b-HasAddresses
      datagram-serialized (unfold find in refl) refl refl

-- A frame of neither type that the interface knows.
abbrev other_frame : EthernetFrame
other_frame = record { header = no_header; payload = [] }

released_unresolved_example :
    (send_datagram host_a datagram 2 ≡ ok (asked host_a 2 serialized))
    × (recv_frame (asked host_a 2 serialized) other_frame
        ≡ ok (none, unresolved host_a 2 serialized))
    × (find 2 (unresolved host_a 2 serialized).arp_table ≡ some (ethernet_broadcast, 0))
released_unresolved_example =
    released_unresolved host_a datagram 2 serialized other_frame datagram-serialized
      (unfold find in refl) refl refl refl
