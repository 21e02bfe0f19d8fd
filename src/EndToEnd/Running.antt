-- ===== src/EndToEnd/Running.antt =====
-- The network thread of apps/endtoend.cc as a whole: what its router keeps.
use networkinglab.Base.{
  ℕ, ◌+◌, ◌≡◌, refl, sym, ap, subst, subst₂, ◌∙◌, Bool, true, false, Bool-cases, inl, inr, Option,
  none, some, List, [], ◌∷◌, length, map, Outcome, ok, map_ok, Holds, Holds->>=, Holds-map,
  Holds-ok, Holds-Unit, arith,
}
use networkinglab.Ethernet.{EthernetFrame}
use networkinglab.Ipv4.{Ipv4Datagram}
use networkinglab.Interface
use networkinglab.Interface.{
  NetworkInterface, no_datagram, parse_ip, take_datagram, recv_other, deliver,
}
use networkinglab.Router.{
  add_route, add_interface, Router, Entry, AsyncNetworkInterface, enqueue, route,
}
use networkinglab.Router
use networkinglab.Router.Queues.{queues, tail}
use networkinglab.Router.Longest.{AllFit}
use networkinglab.Router.Forwarding.{
  AllFour, AllQueues, IsRouter, AllNamed, queues-length, route_takes_one_each,
}
use networkinglab.Descriptor.{Answer, FdWrapper}
use networkinglab.EventLoop
use networkinglab.EventLoop.{World, EventLoop, add_named, put_fd, is_exit}
use networkinglab.EventLoop.Polling.{wait_next_event}
use networkinglab.EventLoop.Keeping.{Kept, wait_next_event-Holds}
use networkinglab.EndToEnd.{
  maybe_receive_frame, set_up, two_sides, router_side, host_side, internet_side,
}
use networkinglab.EndToEnd.Networking.{
  Network, Answers, Round, at_interface, receive_at, take_frame, from_fd, from_host, from_internet,
  write_front, to_host, to_internet, add_rules, tick_at, drain_loop, drain_at, advance,
  network_loop, network_thread, frame_fd, internet_socket,
}
use networkinglab.EndToEnd.Receiving.{
  Same, Stays, at_interface-Same, recv_frame-Stays, drain_loop-Named,
}
use networkinglab.Router.Naming.{Name, name, names, route-names}

module _ (t : List Entry) (fits : AllFit t) (named : AllNamed 2 t) (ns : List Name) where
  -- The router has this table, two interfaces with these addresses, and datagrams of version 4.
  abbrev Good : Router → Type 0
  Good r =
      (r.routing_table ≡ t)
      × AllQueues (queues r.interfaces)
      × (length (queues r.interfaces) ≡ 2)
      × (names r.interfaces ≡ ns)

  Good-IsRouter : (r : Router) → Good r → IsRouter r
  Good-IsRouter r g = record {
    fits = subst AllFit (sym g.0) fits;
    named = subst₂ AllNamed (sym g.2) (sym g.0) named;
    four = g.1;
  }

  tails-AllQueues : (qs : List (List Ipv4Datagram)) → AllQueues qs → AllQueues (map tail qs)
  tails-AllQueues [] h = tt
  tails-AllQueues ([] ∷ qs) h = (tt, tails-AllQueues qs h.1)
  tails-AllQueues ((d ∷ ds) ∷ qs) h = (h.0.1, tails-AllQueues qs h.1)

  tails-length : (qs : List (List Ipv4Datagram)) → length (map tail qs) ≡ length qs
  tails-length [] = refl
  tails-length (q ∷ qs) = omega (arith, tails-length qs)

  route-Good : (r : Router) → Good r → Holds Good (route r)
  route-Good r g =
      let (r', a, q, same) = route_takes_one_each r (Good-IsRouter r g) in
      subst (Holds Good) (sym a) (
        same ∙ g.0,
        subst AllQueues (sym q) (tails-AllQueues (queues r.interfaces) g.1),
        ap length q ∙ (tails-length (queues r.interfaces) ∙ g.2),
        Holds-ok (λ u. names u.interfaces ≡ names r.interfaces) (route-names r) a ∙ g.3,
      )

  -- A call of an interface that leaves what it has received.
  call-Good :
      {B : Type 0} (f : AsyncNetworkInterface → Outcome (B × AsyncNetworkInterface))
      → ((a : AsyncNetworkInterface) → AllFour a.datagrams_in → Holds (λ r. Stays a r.1) (f a))
      → (n : ℕ) (r : Router) → Good r
      → Holds (λ u. Good (record r { interfaces = u.1 })) (at_interface f n r.interfaces)
  call-Good f k n r g =
      Holds-map (λ u. Same r.interfaces u.1) (λ u. Good (record r { interfaces = u.1 }))
        (at_interface f n r.interfaces) (at_interface-Same f k n r.interfaces g.1)
        (λ u s. (g.0, s.0, s.1 ∙ g.2, s.2 ∙ g.3))

  receive_at-Good :
      (n : ℕ) (frame : EthernetFrame) (r : Router) → Good r → Holds Good (receive_at n frame r)
  unfolding receive_at
  receive_at-Good n frame r g =
      Holds->>= (λ u. Good (record r { interfaces = u.1 })) Good
        (at_interface {B = Bool} (λ a. map_ok (λ b. (true, b)) (Router.recv_frame a frame)) n
          r.interfaces)
        _
        (call-Good {B = Bool} (λ a. map_ok (λ b. (true, b)) (Router.recv_frame a frame))
          (λ a h.
            Holds->>= (Stays a) (λ u. Stays a u.1) (Router.recv_frame a frame) _
              (recv_frame-Stays a frame h) (λ b i. i))
          n r g)
        (λ u i. i)

  tick_at-Good : (n ms : ℕ) (r : Router) → Good r → Holds Good (tick_at n ms r)
  unfolding tick_at Interface.tick
  tick_at-Good n ms r g =
      Holds->>= (λ u. Good (record r { interfaces = u.1 })) Good
        (at_interface {B = Bool}
          (λ a. ok (true, record a { interface = Interface.tick a.interface ms })) n r.interfaces)
        _
        (call-Good {B = Bool}
          (λ a. ok (true, record a { interface = Interface.tick a.interface ms }))
          (λ a h. (h, refl)) n r g)
        (λ u i. i)

  drain_at-Good :
      (n : ℕ) (r : Router) (queue : List EthernetFrame)
      → Good r
      → Holds (λ u. Good u.1) (drain_at n r queue)
  unfolding drain_at
  drain_at-Good n r queue g =
      Holds->>= (λ u. Good (record r { interfaces = u.1 })) (λ u. Good u.1)
        (at_interface
          (λ a.
            map_ok (λ u. (u.0, record a { interface = u.1 }))
              (drain_loop (length a.interface.ready_to_send + 1) a.interface queue))
          n r.interfaces)
        _
        (call-Good
          (λ a.
            map_ok (λ u. (u.0, record a { interface = u.1 }))
              (drain_loop (length a.interface.ready_to_send + 1) a.interface queue))
          (λ a h.
            Holds->>= (λ u. name u.1 ≡ name a.interface) (λ u. Stays a u.1)
              (drain_loop (length a.interface.ready_to_send + 1) a.interface queue) _
              (drain_loop-Named (length a.interface.ready_to_send + 1) a.interface queue)
              (λ u i. (h, i)))
          n r g)
        (λ u i. i)

  advance-Good : (s : Network) → Good s.router → Holds (λ v. Good v.router) (advance s)
  unfolding advance
  advance-Good s g =
      Holds->>= Good (λ v. Good v.router) (tick_at host_side 10 s.router) _
        (tick_at-Good host_side 10 s.router g)
        (λ r g.
          Holds->>= Good (λ v. Good v.router) (tick_at internet_side 10 r) _
            (tick_at-Good internet_side 10 r g)
            (λ r g.
              Holds->>= (λ u. Good u.1) (λ v. Good v.router) (drain_at host_side r s.router_to_host)
                _ (drain_at-Good host_side r s.router_to_host g)
                (λ u g.
                  Holds->>= (λ i. Good i.1) (λ v. Good v.router)
                    (drain_at internet_side u.1 s.router_to_internet) _
                    (drain_at-Good internet_side u.1 s.router_to_internet g) (λ i g. g))))

  abbrev GoodWorld : World Network → Type 0
  GoodWorld w = Good w.state.router

  take_frame-Good :
      (side : ℕ) (frame : Option EthernetFrame) (s : Network)
      → Good s.router
      → Holds (λ v. Good v.router) (take_frame side frame s)
  unfolding take_frame
  take_frame-Good side none s g = g
  take_frame-Good side (some frame) s g =
      Holds->>= Good (λ v. Good v.router) (receive_at side frame s.router) _
        (receive_at-Good side frame s.router g)
        (λ r g. Holds->>= Good (λ v. Good v.router) (route r) _ (route-Good r g) (λ u i. i))

  from_fd-Good :
      (fd side : ℕ) (a : Answer (List ℕ)) (w : World Network)
      → GoodWorld w
      → Holds GoodWorld (from_fd fd side a w)
  unfolding from_fd
  from_fd-Good fd side a w g =
      Holds->>= (λ r. Unit {0}) GoodWorld (maybe_receive_frame (w.fds fd) a) _
        (Holds-Unit (maybe_receive_frame (w.fds fd) a))
        (λ r u.
          Holds->>= (λ v. Good v.router) GoodWorld (take_frame side r.0 w.state) _
            (take_frame-Good side r.0 w.state g) (λ v i. i))

  to_host-Good : (w : World Network) → GoodWorld w → Holds GoodWorld (to_host w)
  unfolding to_host
  to_host-Good w g =
      let m = write_front (w.fds frame_fd) w.state.router_to_host w.state.answers.to_host in
      Holds->>= (λ r. Unit {0}) GoodWorld m _ (Holds-Unit m) (λ r u. g)

  to_internet-Good : (w : World Network) → GoodWorld w → Holds GoodWorld (to_internet w)
  unfolding to_internet
  to_internet-Good w g =
      let m =
        write_front (w.fds internet_socket) w.state.router_to_internet
          w.state.answers.to_internet in
      Holds->>= (λ r. Unit {0}) GoodWorld m _ (Holds-Unit m) (λ r u. g)

  abbrev AnyTwo : World Network → World Network → Type 0
  AnyTwo v w = Unit {0}

  abbrev NetworkKept : EventLoop Network → World Network → Type 0
  NetworkKept = Kept GoodWorld AnyTwo (λ w. tt) (λ u v w a b. tt)

  -- The defaults of cancel and recover.
  quiet : (w : World Network) → GoodWorld w → GoodWorld w × AnyTwo w w
  quiet w h = (h, tt)

  add_rules-Good :
      Holds (λ l. (w : World Network) → GoodWorld w → NetworkKept l w) (add_rules EventLoop.init)
  unfolding add_rules add_named EventLoop.init from_host from_internet
  add_rules-Good w g = (
    tt,
    (
      (λ u v e a h. from_fd-Good frame_fd host_side v.state.answers.from_host v h, quiet, quiet),
      (
        (λ u v e a h. to_host-Good v h, quiet, quiet),
        (
          (λ u v e a h. to_internet-Good v h, quiet, quiet),
          (
            (
              λ u v e a h.
                  from_fd-Good internet_socket internet_side v.state.answers.from_internet v h,
              quiet,
              quiet,
            ),
            tt,
          ),
        ),
      ),
    ),
    g,
  )

  network_loop-Good :
      (rounds : List Round) (l : EventLoop Network) (w : World Network)
      → NetworkKept l w
      → Holds {A = Bool × World Network} (λ r. GoodWorld r.1) (network_loop rounds l w)
  unfolding network_loop
  network_loop-Good [] l w k = k.2
  network_loop-Good (r ∷ rs) l w k =
      Holds->>= (λ t. NetworkKept t.1 t.2) (λ t. GoodWorld t.1)
        (wait_next_event (λ ps v. r.poll) r.getsockopt l
          (record w { state = record w.state { answers = r.answers } }))
        _
        (wait_next_event-Holds GoodWorld AnyTwo (λ w. tt) (λ u v w a b. tt) r.getsockopt
          (λ ps v. r.poll) l (record w { state = record w.state { answers = r.answers } }) k)
        (λ t g. elim (Bool-cases (is_exit t.0)) [
          | inl e ↦ rw e g.2
          | inr e ↦ rw e (
              Holds->>= (λ s. Good s.router) (λ t. GoodWorld t.1) (advance t.2.state) _
                (advance-Good t.2.state g.2)
                (λ s h. elim (Bool-cases r.exit_flag) [
                  | inl f ↦ rw f h
                  | inr f ↦ rw f (network_loop-Good rs t.1 (record t.2 { state = s }) (g.0, g.1, h))
                ]))
        ])

  network_thread-Good :
      (r : Router) (fds : ℕ → FdWrapper) (answers : Answers) (rounds : List Round)
      → Good r
      → Holds {A = Bool × World Network} (λ t. GoodWorld t.1) (network_thread r fds answers rounds)
  unfolding network_thread
  network_thread-Good r fds answers rounds g =
      let start : World Network = record {
        state = record {
          router = r;
          router_to_host = [];
          router_to_internet = [];
          answers = answers;
        };
        fds = fds;
        cancelled = [];
      } in
      Holds->>= (λ l. (w : World Network) → GoodWorld w → NetworkKept l w) (λ t. GoodWorld t.1)
        (add_rules EventLoop.init) _ add_rules-Good
        (λ l k. network_loop-Good rounds l start (k start g))

set_up-Good :
    (is_client : Bool) (drawn drawn' : List ℕ)
    → let r = set_up is_client drawn drawn' in
      AllFit r.routing_table
      × AllNamed 2 r.routing_table
      × AllQueues (queues r.interfaces)
      × (length (queues r.interfaces) ≡ 2)
      × (length r.routing_table ≡ 3)
unfolding set_up two_sides router_side add_route add_interface
set_up-Good true drawn drawn' = (
  (omega arith, (omega arith, (omega arith, tt))),
  (omega arith, (omega arith, (omega arith, tt))),
  (tt, (tt, tt)),
  refl,
  refl,
)
set_up-Good false drawn drawn' = (
  (omega arith, (omega arith, (omega arith, tt))),
  (omega arith, (omega arith, (omega arith, tt))),
  (tt, (tt, tt)),
  refl,
  refl,
)

-- Whatever the system calls answer, whichever descriptors are ready, and however many rounds the
-- network thread of either side has run, as the client or as the server: if it has not thrown, its
-- router has the table that it began with and two interfaces with the Ethernet and IP addresses
-- that they began with, and a call of route comes to an end without an exception and takes the
-- first datagram, if there is one, from each interface.
pub network_thread-routes :
    (is_client : Bool) (drawn drawn' : List ℕ) (fds : ℕ → FdWrapper) (answers : Answers)
    (rounds : List Round) (finished : Bool) (w : World Network)
    → network_thread (set_up is_client drawn drawn') fds answers rounds ≡ ok (finished, w)
    → (w.state.router.routing_table ≡ (set_up is_client drawn drawn').routing_table)
      × (names w.state.router.interfaces ≡ names (set_up is_client drawn drawn').interfaces)
      × (length w.state.router.interfaces ≡ 2)
      × ((r : Router) × (route w.state.router ≡ ok r)
          × (queues r.interfaces ≡ map tail (queues w.state.router.interfaces)))
network_thread-routes is_client drawn drawn' fds answers rounds finished w e =
    let (fits, named, four, two, three) = set_up-Good is_client drawn drawn' in
    let r = set_up is_client drawn drawn' in
    let ns = names r.interfaces in
    let good : Good r.routing_table fits named ns w.state.router =
      Holds-ok {A = Bool × World Network} (λ t. Good r.routing_table fits named ns t.1.state.router)
        (network_thread-Good r.routing_table fits named ns r fds answers rounds
          (refl, four, two, refl))
        e in
    let (r', a, q, t) =
      route_takes_one_each w.state.router
        (Good-IsRouter r.routing_table fits named ns w.state.router good) in
    (good.0, good.3, omega (arith, queues-length w.state.router.interfaces, good.2), (r', a, q))
