-- ===== src/Router/Naming.antt =====
-- src/network_interface.cc and src/router.cc: the interfaces keep their addresses.
use networkinglab.Base.{
  ℕ, zero, suc, ◌≡◌, refl, ap, ◌∙◌, Bool-cases, inl, inr, Option, none, some, List, [], ◌∷◌, length,
  ◌==◌, ◌&&◌, ◌>>=◌, Holds, Holds->>=, Holds-Unit,
}
use networkinglab.Wire.{serializer, finish}
use networkinglab.Ethernet.{EthernetAddress, EthernetFrame}
use networkinglab.Arp
use networkinglab.Arp.{ArpMessage, opcode_request}
use networkinglab.Ipv4
use networkinglab.Ipv4.{Ipv4Datagram, serialize_datagram}
use networkinglab.Interface
use networkinglab.Interface.{
  NetworkInterface, Mapping, find, ask, dispatch, is_asked, is_pending, send_datagram, arp_request,
  arp_reply, learn, release_known, take_datagram, take_arp, recv_other, deliver,
}
use networkinglab.Router.{
  Router, AsyncNetworkInterface, Entry, receive_at, maybe_receive, send_at, send_matched, forward,
  find_entry, route_at, route_loop, route, expires, hop_or,
}
use networkinglab.Router

-- Both addresses of an interface.
abbrev pub Name : Type 0
Name = EthernetAddress × ℕ

abbrev pub name : NetworkInterface → Name
name i = (i.ethernet_address, i.ip_address)

abbrev pub names : List AsyncNetworkInterface → List Name
names [] = []
names (a ∷ rest) = name a.interface ∷ names rest

module _ (i : NetworkInterface) where
  abbrev Named : NetworkInterface → Type 0
  Named j = name j ≡ name i

  ask-Named : (hop : ℕ) (payload : List (List ℕ)) → Holds Named (ask i hop payload)
  unfolding ask
  ask-Named hop payload =
      let m = Arp.serialize (arp_request i hop) serializer in
      Holds->>= (λ s. Unit {0}) Named m _ (Holds-Unit m) (λ s u. refl)

  dispatch-Named :
      (hop : ℕ) (mapping : Option Mapping) (payload : List (List ℕ))
      → Holds Named (dispatch i hop mapping payload)
  unfolding dispatch
  dispatch-Named hop none payload = ask-Named hop payload
  dispatch-Named hop (some m) payload = elim (Bool-cases (is_asked m)) [
    | inl e ↦ rw (dispatch, e) (ask-Named hop payload)
    | inr e ↦ rw (dispatch, e) refl
  ]

  send_datagram-Named : (d : Ipv4Datagram) (hop : ℕ) → Holds Named (send_datagram i d hop)
  unfolding send_datagram
  send_datagram-Named d hop = elim (Bool-cases (is_pending (find hop i.arp_table))) [
    | inl e ↦ rw (send_datagram, e) refl
    | inr e ↦
        rw (send_datagram, e)
          (let m = serialize_datagram d serializer in
            Holds->>= (λ s. Unit {0}) Named m _ (Holds-Unit m)
              (λ s u. dispatch-Named hop (find hop i.arp_table) (finish s)))
  ]

  learn-Named : (arpmsg : Option ArpMessage) → Holds Named (learn i arpmsg)
  unfolding learn
  learn-Named none = refl
  learn-Named (some m) =
      elim (Bool-cases ((m.opcode == opcode_request) && (m.target_ip_address == i.ip_address))) [
        | inl e ↦
            rw (learn, e)
              (let t = Arp.serialize (arp_reply i m) serializer in
                Holds->>= (λ s. Unit {0}) Named t _ (Holds-Unit t) (λ s u. refl))
        | inr e ↦ rw (learn, e) refl
      ]

  recv_other-Named : (frame : EthernetFrame) → Holds Named (recv_other i frame)
  unfolding recv_other release_known
  recv_other-Named frame =
      Holds->>= (λ m. Unit {0}) Named (take_arp frame) _ (Holds-Unit (take_arp frame))
        (λ m u. Holds->>= Named Named (learn i m) _ (learn-Named m) (λ j e. e))

  deliver-Named :
      (frame : EthernetFrame) (d : Option Ipv4Datagram) → Holds (λ r. Named r.1) (deliver i frame d)
  unfolding deliver
  deliver-Named frame none =
      Holds->>= Named (λ r. Named r.1) (recv_other i frame) _ (recv_other-Named frame) (λ j e. e)
  deliver-Named frame (some d) = refl

-- What an interface of a router receives does not touch its addresses.
pub recv_frame-Named :
    (a : AsyncNetworkInterface) (frame : EthernetFrame)
    → Holds (λ b. name b.interface ≡ name a.interface) (Router.recv_frame a frame)
unfolding Router.recv_frame Interface.recv_frame
recv_frame-Named a frame =
    Holds->>= (λ r. name r.1 ≡ name a.interface) (λ b. name b.interface ≡ name a.interface)
      (take_datagram a.interface frame >>= deliver a.interface frame) _
      (Holds->>= (λ d. Unit {0}) (λ r. name r.1 ≡ name a.interface)
        (take_datagram a.interface frame) (deliver a.interface frame)
        (Holds-Unit (take_datagram a.interface frame)) (λ d u. deliver-Named a.interface frame d))
      (λ r e. e)

receive_at-names : (k : ℕ) (is : List AsyncNetworkInterface) → names (receive_at k is).1 ≡ names is
unfolding receive_at maybe_receive
receive_at-names k [] = refl
receive_at-names zero (a ∷ rest) = refl
receive_at-names (suc k) (a ∷ rest) = ap (λ l. name a.interface ∷ l) (receive_at-names k rest)

send_at-names :
    (n : ℕ) (is : List AsyncNetworkInterface) (d : Ipv4Datagram) (hop : ℕ)
    → Holds (λ js. names js ≡ names is) (send_at n is d hop)
unfolding send_at
send_at-names n [] d hop = tt
send_at-names zero (a ∷ rest) d hop =
    Holds->>= (λ j. name j ≡ name a.interface) (λ js. names js ≡ names (a ∷ rest))
      (send_datagram a.interface d hop) _ (send_datagram-Named a.interface d hop)
      (λ j e. ap (λ m. m ∷ names rest) e)
send_at-names (suc n) (a ∷ rest) d hop =
    Holds->>= (λ js. names js ≡ names rest) (λ js. names js ≡ names (a ∷ rest))
      (send_at n rest d hop) _ (send_at-names n rest d hop)
      (λ js e. ap (λ l. name a.interface ∷ l) e)

-- The interfaces have the addresses `ns`.
abbrev Keeping : List Name → Router → Type 0
Keeping ns r = names r.interfaces ≡ ns

send_matched-names :
    (ns : List Name) (r : Router) (d : Ipv4Datagram) (m : Option Entry)
    → Keeping ns r
    → Holds (Keeping ns) (send_matched r d m)
unfolding send_matched
send_matched-names ns r d none h = h
send_matched-names ns r d (some e) h =
    Holds->>= (λ g. Unit {0}) (Keeping ns) (Ipv4.compute_checksum d.header) _
      (Holds-Unit (Ipv4.compute_checksum d.header))
      (λ g u.
        let sent = record d { header = g } in
        let m = send_at e.interface_num r.interfaces sent (hop_or e.next_hop g.dst) in
        Holds->>= (λ js. names js ≡ names r.interfaces) (Keeping ns) m _
          (send_at-names e.interface_num r.interfaces sent (hop_or e.next_hop g.dst))
          (λ js k. k ∙ h))

forward-names :
    (ns : List Name) (r : Router) (d : Option Ipv4Datagram)
    → Keeping ns r
    → Holds (Keeping ns) (forward r d)
unfolding forward
forward-names ns r none h = h
forward-names ns r (some d) h = elim (Bool-cases (expires d)) [
  | inl e ↦ rw (forward, e) h
  | inr e ↦
      rw (forward, e)
        (let m = find_entry d.header.dst r.routing_table none in
          Holds->>= (λ x. Unit {0}) (Keeping ns) m _ (Holds-Unit m)
            (λ x u. send_matched-names ns r _ x h))
]

route_loop-names :
    (ns : List Name) (n k : ℕ) (r : Router) → Keeping ns r → Holds (Keeping ns) (route_loop n k r)
unfolding route_loop route_at
route_loop-names ns zero k r h = h
route_loop-names ns (suc n) k r h =
    Holds->>= (Keeping ns) (Keeping ns) (route_at k r) (route_loop n (suc k))
      (forward-names ns (record r { interfaces = (receive_at k r.interfaces).1 })
        (receive_at k r.interfaces).0 (receive_at-names k r.interfaces ∙ h))
      (λ t g. route_loop-names ns n (suc k) t g)

-- So does route.
pub route-names : (r : Router) → Holds (λ t. names t.interfaces ≡ names r.interfaces) (route r)
unfolding route
route-names r = route_loop-names (names r.interfaces) (length r.interfaces) 0 r refl
