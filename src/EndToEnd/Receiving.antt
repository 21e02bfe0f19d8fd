-- ===== src/EndToEnd/Receiving.antt =====
-- interface( n ) of src/router.hh, as apps/endtoend.cc uses it: what has been received.
use networkinglab.Base.{
  ℕ, zero, suc, ◌≡◌, refl, false, Bool-cases, inl, inr, ◌==◌, Option, none, some, List, [], ◌∷◌,
  length, Outcome, ◌>>=◌, Holds, Holds->>=, Holds-both, Holds-map, ok, ◌++◌, ◌∙◌, ap, Holds-Unit,
  arith,
}
use networkinglab.Wire.{parser}
use networkinglab.Ethernet.{EthernetFrame, type_ipv4, same_address}
use networkinglab.Ipv4.{Ipv4Datagram, parse_datagram}
use networkinglab.Ipv4.Version.{parse_datagram-Four}
use networkinglab.Interface
use networkinglab.Interface.{
  NetworkInterface, no_datagram, parse_ip, take_datagram, recv_other, deliver,
}
use networkinglab.Router.{
  add_route, add_interface, Router, Entry, AsyncNetworkInterface, enqueue, route,
}
use networkinglab.Router
use networkinglab.Router.Queues.{queues}
use networkinglab.Router.Forwarding.{AllFour, AllQueues, OptionFour}
use networkinglab.EndToEnd.Networking.{at_interface, drain_loop}
use networkinglab.Router.Naming.{name, names, recv_frame-Named}

parse_ip-OptionFour : (payload : List (List ℕ)) → Holds OptionFour (parse_ip payload)
unfolding parse_ip
parse_ip-OptionFour payload =
    Holds->>= (λ r. r.1.error ≡ false → r.0.header.ver ≡ 4) OptionFour
      (parse_datagram no_datagram (parser payload)) _
      (parse_datagram-Four no_datagram (parser payload))
      (λ r h. elim (Bool-cases r.1.error) [ inl e ↦ rw e tt | inr e ↦ rw e (h e) ])

take_datagram-OptionFour :
    (i : NetworkInterface) (frame : EthernetFrame) → Holds OptionFour (take_datagram i frame)
unfolding take_datagram
take_datagram-OptionFour i frame = elim (Bool-cases (frame.header.type == type_ipv4)) [
  | inl e ↦ rw e (
      Holds->>= OptionFour OptionFour (parse_ip frame.payload) _ (parse_ip-OptionFour frame.payload)
        (λ m h. elim (Bool-cases (same_address frame.header.dst i.ethernet_address)) [
          | inl f ↦ rw f h
          | inr f ↦ rw f tt
        ]))
  | inr e ↦ rw e tt
]

deliver-OptionFour :
    (i : NetworkInterface) (frame : EthernetFrame) (d : Option Ipv4Datagram)
    → OptionFour d
    → Holds (λ r. OptionFour r.0) (deliver i frame d)
unfolding deliver
deliver-OptionFour i frame none h =
    Holds->>= (λ j. Unit {0}) (λ r. OptionFour r.0) (recv_other i frame) _
      (Holds-Unit (recv_other i frame)) (λ j u. tt)
deliver-OptionFour i frame (some d) h = h

enqueue-AllFour :
    (ds : List Ipv4Datagram) (d : Option Ipv4Datagram)
    → AllFour ds
    → OptionFour d
    → AllFour (enqueue ds d)
enqueue-AllFour ds none a h = a
enqueue-AllFour [] (some d) a h = (h, tt)
enqueue-AllFour (e ∷ ds) (some d) a h = (a.0, enqueue-AllFour ds (some d) a.1 h)

-- What the interfaces of the router get from a frame has version 4.
pub recv_frame-AllFour :
    (a : AsyncNetworkInterface) (frame : EthernetFrame)
    → AllFour a.datagrams_in
    → Holds (λ b. AllFour b.datagrams_in) (Router.recv_frame a frame)
unfolding Router.recv_frame Interface.recv_frame
recv_frame-AllFour a frame h =
    Holds->>= (λ r. OptionFour r.0) (λ b. AllFour b.datagrams_in)
      (take_datagram a.interface frame >>= deliver a.interface frame) _
      (Holds->>= OptionFour (λ r. OptionFour r.0) (take_datagram a.interface frame)
        (deliver a.interface frame) (take_datagram-OptionFour a.interface frame)
        (λ d g. deliver-OptionFour a.interface frame d g))
      (λ r g. enqueue-AllFour a.datagrams_in r.0 h g)

-- The same interfaces as before, by their addresses, with datagrams of version 4.
abbrev pub Same : List AsyncNetworkInterface → List AsyncNetworkInterface → Type 0
Same is js =
    AllQueues (queues js) × (length (queues js) ≡ length (queues is)) × (names js ≡ names is)

-- An interface after a call that leaves its addresses, with datagrams of version 4.
abbrev pub Stays : AsyncNetworkInterface → AsyncNetworkInterface → Type 0
Stays a b = AllFour b.datagrams_in × (name b.interface ≡ name a.interface)

pub recv_frame-Stays :
    (a : AsyncNetworkInterface) (frame : EthernetFrame)
    → AllFour a.datagrams_in
    → Holds (Stays a) (Router.recv_frame a frame)
recv_frame-Stays a frame h =
    Holds-both (λ b. AllFour b.datagrams_in) (λ b. name b.interface ≡ name a.interface)
      (Router.recv_frame a frame) (recv_frame-AllFour a frame h) (recv_frame-Named a frame)

-- The loop over maybe_send leaves the addresses.
drained-Named :
    (fuel : ℕ)
    → ((i : NetworkInterface) (queue : List EthernetFrame)
        → Holds {A = List EthernetFrame × NetworkInterface}
            (λ u. name u.1 ≡ name i)
            (drain_loop fuel i queue))
    → (i j : NetworkInterface) (queue : List EthernetFrame) (f : Option EthernetFrame)
    → name j ≡ name i
    → Holds {A = List EthernetFrame × NetworkInterface}
        (λ u. name u.1 ≡ name i)
        (elim f [ none ↦ ok (queue, j) | some frame ↦ drain_loop fuel j (queue ++ (frame ∷ [])) ])
drained-Named fuel ih i j queue none e = e
drained-Named fuel ih i j queue (some frame) e =
    Holds-map {A = List EthernetFrame × NetworkInterface} (λ u. name u.1 ≡ name j)
      (λ u. name u.1 ≡ name i) (drain_loop fuel j (queue ++ (frame ∷ [])))
      (ih j (queue ++ (frame ∷ []))) (λ u d. d ∙ e)

pub drain_loop-Named :
    (fuel : ℕ) (i : NetworkInterface) (queue : List EthernetFrame)
    → Holds {A = List EthernetFrame × NetworkInterface}
        (λ u. name u.1 ≡ name i)
        (drain_loop fuel i queue)
unfolding drain_loop Interface.maybe_send
drain_loop-Named zero i queue = tt
drain_loop-Named (suc fuel) i queue =
    drained-Named fuel (drain_loop-Named fuel) i _ queue (Interface.maybe_send i).0 refl

pub at_interface-Same :
    {B : Type 0} (f : AsyncNetworkInterface → Outcome (B × AsyncNetworkInterface))
    → ((a : AsyncNetworkInterface) → AllFour a.datagrams_in → Holds (λ r. Stays a r.1) (f a))
    → (n : ℕ) (is : List AsyncNetworkInterface) → AllQueues (queues is)
    → Holds (λ r. Same is r.1) (at_interface f n is)
unfolding at_interface
at_interface-Same f k n [] h = tt
at_interface-Same f k zero (a ∷ rest) h =
    Holds->>= (λ r. Stays a r.1) (λ r. Same (a ∷ rest) r.1) (f a) _ (k a h.0)
      (λ r g. ((g.0, h.1), refl, ap (λ m. m ∷ names rest) g.1))
at_interface-Same f k (suc n) (a ∷ rest) h =
    Holds->>= (λ r. Same rest r.1) (λ r. Same (a ∷ rest) r.1) (at_interface f n rest) _
      (at_interface-Same f k n rest h.1)
      (λ r g. ((h.0, g.0), omega (arith, g.1), ap (λ l. name a.interface ∷ l) g.2))
