-- ===== src/Interface/Table.antt =====
-- The ARP table of src/network_interface.cc: what is found after each change of it.
use networkinglab.Base.{
  ℕ, ◌≡◌, refl, ap, subst, ◌&&◌, Option, none, some, List, [], ◌∷◌, ltb, ◌==◌, if◌then◌else◌,
  Bool-cases, inl, inr, ==→eq, add64, ok, ok-injective, >>=-ok, arith,
}
use networkinglab.Arp
use networkinglab.Arp.{ArpMessage, opcode_request}
use networkinglab.Wire.{serializer, finish}
use networkinglab.Ethernet.{EthernetFrame, ethernet_broadcast}
use networkinglab.Ipv4.{Ipv4Datagram, serialize_datagram}
use networkinglab.Interface.{
  Mapping, ArpTable, find, assign, age, NetworkInterface, tick, ask, dispatch, is_asked, is_pending,
  send_datagram, learn, release_known, recv_other, take_arp, take_datagram, deliver, recv_frame,
}

pub find-assign :
    (j k : ℕ) (m : Mapping) (t : ArpTable)
    → find j (assign k m t) ≡ (if k == j then some m else find j t)
unfolding find assign
find-assign j k m [] = refl
find-assign j k m ((i, n) ∷ t) = ground (arith, find-assign j k m t)

-- No key stands in the table twice.
abbrev pub IsTable : ArpTable → Type 0
IsTable [] = Unit {0}
IsTable ((k, m) ∷ t) = (find k t ≡ none) × IsTable t

assign-IsTable : (k : ℕ) (m : Mapping) (t : ArpTable) → IsTable t → IsTable (assign k m t)
unfolding assign
assign-IsTable k m [] h = (unfold find in refl, tt)
assign-IsTable k m ((j, n) ∷ t) (f, h) = elim (Bool-cases (j == k)) [
  | inl e ↦ rw (assign, e) (subst (λ i. find i t ≡ none) (==→eq j k e) f, h)
  | inr e ↦ rw (assign, e) (rw (find-assign j k m t) (ground (arith, e, f)), assign-IsTable k m t h)
]

-- A mapping after `ms` milliseconds, if it has not expired.
abbrev pub aged : ℕ → Option Mapping → Option Mapping
aged ms none = none
aged ms (some m) = if ltb 30000 (add64 m.1 ms) then none else some (m.0, add64 m.1 ms)

age_absent : (ms k : ℕ) (t : ArpTable) → find k t ≡ none → find k (age ms t) ≡ none
unfolding find age
age_absent ms k [] h = refl
age_absent ms k ((j, m) ∷ t) h = ground (arith, h, age_absent ms k t)

pub find-age : (ms k : ℕ) (t : ArpTable) → IsTable t → find k (age ms t) ≡ aged ms (find k t)
unfolding find age
find-age ms k [] h = refl
find-age ms k ((j, m) ∷ t) (f, h) = elim (Bool-cases (j == k)) [
  | inl e ↦ elim (Bool-cases (ltb 30000 (add64 m.1 ms))) [
    | inl d ↦ rw (find, e, d) (age_absent ms k t (subst (λ i. find i t ≡ none) (==→eq j k e) f))
    | inr d ↦ rw (find, e, d) (rw (find, e) refl)
  ]
  | inr e ↦ elim (Bool-cases (ltb 30000 (add64 m.1 ms))) [
    | inl d ↦ rw (find, e, d) (find-age ms k t h)
    | inr d ↦ rw (find, e, d) (rw (find, e) (find-age ms k t h))
  ]
]

age-IsTable : (ms : ℕ) (t : ArpTable) → IsTable t → IsTable (age ms t)
unfolding age
age-IsTable ms [] h = tt
age-IsTable ms ((k, m) ∷ t) (f, h) = elim (Bool-cases (ltb 30000 (add64 m.1 ms))) [
  | inl d ↦ rw (age, d) (age-IsTable ms t h)
  | inr d ↦ rw (age, d) (age_absent ms k t f, age-IsTable ms t h)
]

-- The table of the interface is one.
abbrev pub IsInterface : NetworkInterface → Type 0
IsInterface i = IsTable i.arp_table

ask-IsInterface :
    (i j : NetworkInterface) (k : ℕ) (payload : List (List ℕ))
    → IsInterface i
    → ask i k payload ≡ ok j
    → IsInterface j
unfolding ask Arp.serialize Arp.supported
ask-IsInterface i j k payload h e =
    subst IsInterface (ok-injective e) (assign-IsTable k (ethernet_broadcast, 0) i.arp_table h)

dispatch-IsInterface :
    (i j : NetworkInterface) (k : ℕ) (m : Option Mapping) (payload : List (List ℕ))
    → IsInterface i
    → dispatch i k m payload ≡ ok j
    → IsInterface j
unfolding dispatch
dispatch-IsInterface i j k none payload h e = ask-IsInterface i j k payload h e
dispatch-IsInterface i j k (some m) payload h e = elim (Bool-cases (is_asked m)) [
  | inl a ↦ ask-IsInterface i j k payload h (rw (dispatch, a) at e)
  | inr a ↦ subst IsInterface (ok-injective (rw (dispatch, a) at e)) h
]

pub send_datagram-IsInterface :
    (i j : NetworkInterface) (d : Ipv4Datagram) (k : ℕ)
    → IsInterface i
    → send_datagram i d k ≡ ok j
    → IsInterface j
unfolding send_datagram
send_datagram-IsInterface i j d k h e = elim (Bool-cases (is_pending (find k i.arp_table))) [
  | inl p ↦ subst IsInterface (ok-injective (rw (send_datagram, p) at e)) h
  | inr p ↦
      let (s, a, b) = >>=-ok (serialize_datagram d serializer) _ (rw (send_datagram, p) at e) in
      dispatch-IsInterface i j k (find k i.arp_table) (finish s) h b
]

learn-IsInterface :
    (i j : NetworkInterface) (m : Option ArpMessage)
    → IsInterface i
    → learn i m ≡ ok j
    → IsInterface j
unfolding learn Arp.serialize Arp.supported
learn-IsInterface i j none h e = subst IsInterface (ok-injective e) h
learn-IsInterface i j (some m) h e =
    elim (Bool-cases ((m.opcode == opcode_request) && (m.target_ip_address == i.ip_address))) [
      | inl a ↦ subst IsInterface (ok-injective (rw (learn, a) at e)) learned
      | inr a ↦ subst IsInterface (ok-injective (rw (learn, a) at e)) learned
    ]
  where
    learned : IsTable (assign m.sender_ip_address (m.sender_ethernet_address, 0) i.arp_table)
    learned = assign-IsTable m.sender_ip_address (m.sender_ethernet_address, 0) i.arp_table h

recv_other-IsInterface :
    (i j : NetworkInterface) (f : EthernetFrame)
    → IsInterface i
    → recv_other i f ≡ ok j
    → IsInterface j
unfolding recv_other release_known
recv_other-IsInterface i j f h e =
    let (m, a, b) = >>=-ok (take_arp f) _ e in
    let (l, c, d) = >>=-ok (learn i m) _ b in
    subst IsInterface (ok-injective d) (learn-IsInterface i l m h c)

deliver-IsInterface :
    (i j : NetworkInterface) (f : EthernetFrame) (d o : Option Ipv4Datagram)
    → IsInterface i
    → deliver i f d ≡ ok (o, j)
    → IsInterface j
unfolding deliver
deliver-IsInterface i j f none o h e =
    let (k, a, b) = >>=-ok (recv_other i f) _ e in
    subst IsInterface (ap (λ r. r.1) (ok-injective b)) (recv_other-IsInterface i k f h a)
deliver-IsInterface i j f (some d) o h e = subst IsInterface (ap (λ r. r.1) (ok-injective e)) h

pub recv_frame-IsInterface :
    (i j : NetworkInterface) (f : EthernetFrame) (o : Option Ipv4Datagram)
    → IsInterface i
    → recv_frame i f ≡ ok (o, j)
    → IsInterface j
unfolding recv_frame
recv_frame-IsInterface i j f o h e =
    let (d, a, b) = >>=-ok (take_datagram i f) _ e in deliver-IsInterface i j f d o h b

-- If no address stands twice in the table, so it is after tick, and the mapping of each address is
-- then as many milliseconds older, or gone if it is older than thirty seconds, or not there if it
-- was not there before.
pub tick-aged :
    (i : NetworkInterface) (ms k : ℕ)
    → IsInterface i
    → IsInterface (tick i ms) × (find k (tick i ms).arp_table ≡ aged ms (find k i.arp_table))
unfolding tick
tick-aged i ms k h = (age-IsTable ms i.arp_table h, find-age ms k i.arp_table h)
