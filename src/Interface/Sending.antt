-- ===== src/Interface/Sending.antt =====
-- send_datagram of src/network_interface.cc: it comes to an end without an exception.
use networkinglab.Base.{ℕ, ◌≡◌, refl, inl, inr, Bool-cases, Option, none, some, List, ok, eq→==}
use networkinglab.Wire.{serializer, finish, put_buffers}
use networkinglab.Arp
use networkinglab.Arp.{ArpMessage}
use networkinglab.Ipv4.{Ipv4Datagram, put_members, serialize_header, serialize_datagram}
use networkinglab.Interface.{
  NetworkInterface, Mapping, make_ready, ip_frame, find, ask, dispatch, is_asked, is_pending,
  send_datagram,
}

-- A request can always be serialized.
ask_ok :
    (i : NetworkInterface) (k : ℕ) (payload : List (List ℕ))
    → (j : NetworkInterface) × (ask i k payload ≡ ok j)
unfolding ask Arp.serialize Arp.supported
ask_ok i k payload = (_, refl)

dispatch_ok :
    (i : NetworkInterface) (k : ℕ) (m : Option Mapping) (payload : List (List ℕ))
    → (j : NetworkInterface) × (dispatch i k m payload ≡ ok j)
unfolding dispatch
dispatch_ok i k none payload = ask_ok i k payload
dispatch_ok i k (some m) payload = elim (Bool-cases (is_asked m)) [
  | inl a ↦ let (j, e) = ask_ok i k payload in (j, rw (dispatch, a) e)
  | inr a ↦ (make_ready (ip_frame i m.0 payload) i, rw (dispatch, a) refl)
]

-- A datagram of version 4 is sent.
pub send_datagram_ok :
    (i : NetworkInterface) (d : Ipv4Datagram) (k : ℕ)
    → d.header.ver ≡ 4
    → (j : NetworkInterface) × (send_datagram i d k ≡ ok j)
unfolding send_datagram serialize_datagram serialize_header
send_datagram_ok i d k v = elim (Bool-cases (is_pending (find k i.arp_table))) [
  | inl p ↦ (i, rw (send_datagram, p) refl)
  | inr p ↦
      let s = put_buffers d.payload (put_members d.header serializer) in
      let (j, e) = dispatch_ok i k (find k i.arp_table) (finish s) in
      (j, rw (send_datagram, p, eq→== d.header.ver 4 v) e)
]
