-- ===== src/Interface/Releasing.antt =====
-- The loop of recv_frame of src/network_interface.cc over the datagrams that wait.
use networkinglab.Base.{ℕ, ◌≡◌, refl, false, none, some, [], ◌∷◌, ◌++◌, ◌==◌, ok}
use networkinglab.Arp
use networkinglab.Wire.{Serializer, serializer, finish}
use networkinglab.Ethernet.{EthernetFrame, ethernet_broadcast, type_ipv4, type_arp}
use networkinglab.Ipv4.{Ipv4Datagram, serialize_datagram}
use networkinglab.Interface.{
  NetworkInterface, find, assign, make_ready, arp_frame, arp_request, ip_frame, ask, dispatch,
  is_pending, send_datagram, learn, release, release_known, take_datagram, take_arp, recv_other,
  deliver, recv_frame,
}
use networkinglab.Interface.Resolving.{find-assign_self}

-- The interface after send_datagram for an address that it does not know, and the same interface
-- after what waits has been released to the broadcast address.
abbrev pub asked : NetworkInterface → ℕ → Serializer → NetworkInterface
asked i k s =
    make_ready
      (arp_frame i ethernet_broadcast (finish (Arp.put_members (arp_request i k) serializer)))
      (record i {
        arp_table = assign k (ethernet_broadcast, 0) i.arp_table;
        unknown_eth_addr = (k, ip_frame i ethernet_broadcast (finish s)) ∷ [];
      })

abbrev pub unresolved : NetworkInterface → ℕ → Serializer → NetworkInterface
unresolved i k s = record (asked i k s) {
  ready_to_send = (asked i k s).ready_to_send ++ (ip_frame i ethernet_broadcast (finish s) ∷ []);
  unknown_eth_addr = [];
}

module _ (i : NetworkInterface) (k : ℕ) (s : Serializer) where
  send_datagram-asked :
      (d : Ipv4Datagram)
      → serialize_datagram d serializer ≡ ok s
      → find k i.arp_table ≡ none
      → i.unknown_eth_addr ≡ []
      → send_datagram i d k ≡ ok (asked i k s)
  unfolding send_datagram dispatch is_pending ask Arp.serialize Arp.supported
  send_datagram-asked d e n w = rw (send_datagram, n, e, w) refl

  recv_frame-unresolved :
      (f : EthernetFrame)
      → (f.header.type == type_ipv4) ≡ false
      → (f.header.type == type_arp) ≡ false
      → recv_frame (asked i k s) f ≡ ok (none, unresolved i k s)
  unfolding recv_frame take_datagram deliver recv_other take_arp learn release_known release
  recv_frame-unresolved f p a =
      rw (recv_frame, p, a, release, find-assign_self k (ethernet_broadcast, 0) i.arp_table) refl

-- If an interface at which no datagram waits sends a datagram that can be serialized to an IP
-- address that is not in its table, and then receives a frame that is neither IPv4 nor ARP, the
-- datagram is ready in a frame to the broadcast address, although the mapping is still the pending
-- one and no reply has come.
pub released_unresolved :
    (i : NetworkInterface) (d : Ipv4Datagram) (k : ℕ) (s : Serializer) (f : EthernetFrame)
    → serialize_datagram d serializer ≡ ok s
    → find k i.arp_table ≡ none
    → i.unknown_eth_addr ≡ []
    → (f.header.type == type_ipv4) ≡ false
    → (f.header.type == type_arp) ≡ false
    → (send_datagram i d k ≡ ok (asked i k s))
      × (recv_frame (asked i k s) f ≡ ok (none, unresolved i k s))
      × (find k (unresolved i k s).arp_table ≡ some (ethernet_broadcast, 0))
released_unresolved i d k s f e n w p a = (
  send_datagram-asked i k s d e n w,
  recv_frame-unresolved i k s f p a,
  find-assign_self k (ethernet_broadcast, 0) i.arp_table,
)
