-- ===== src/EndToEnd/Networking.antt =====
-- The network thread of apps/endtoend.cc: the rules and the loop.
use networkinglab.Base.{
  ℕ, zero, suc, ◌+◌, Bool, true, false, not, Option, none, some, List, [], ◌∷◌, ◌++◌, length,
  Outcome, ok, no_fuel, out_of_range, undefined, ◌>>=◌, map_ok, is_empty,
}
use networkinglab.Ethernet.{EthernetFrame}
use networkinglab.Descriptor.{Answer, FdWrapper, write_vector}
use networkinglab.Interface
use networkinglab.Interface.{NetworkInterface}
use networkinglab.Tuntap.{frame_strings}
use networkinglab.Router.{Router, AsyncNetworkInterface, route}
use networkinglab.Router
use networkinglab.EventLoop
use networkinglab.EventLoop.{incoming, outgoing, World, EventLoop, put_fd, add_named, is_exit}
use networkinglab.EventLoop.Polling.{Revents, wait_next_event}
use networkinglab.EndToEnd.{maybe_receive_frame, host_side, internet_side}

-- What the system calls answer in a round.
pub record Answers : Type 0 where
  pub from_host : Answer (List ℕ)
  pub to_host : Answer ℕ
  pub to_internet : Answer ℕ
  pub from_internet : Answer (List ℕ)

pub record Network : Type 0 where
  pub router : Router
  pub router_to_host : List EthernetFrame
  pub router_to_internet : List EthernetFrame
  pub answers : Answers

-- Keys of the file descriptors.
abbrev pub frame_fd : ℕ
frame_fd = 0

abbrev pub internet_socket : ℕ
internet_socket = 1

-- A call of interface( n ), which throws behind the last.
unfoldable pub at_interface :
    {B : Type 0}
    → (AsyncNetworkInterface → Outcome (B × AsyncNetworkInterface))
    → ℕ
    → List AsyncNetworkInterface
    → Outcome (B × List AsyncNetworkInterface)
at_interface f n [] = out_of_range
at_interface f zero (a ∷ rest) = map_ok (λ r. (r.0, r.1 ∷ rest)) (f a)
at_interface f (suc n) (a ∷ rest) = map_ok (λ r. (r.0, a ∷ r.1)) (at_interface f n rest)

-- router.interface( n ).recv_frame( frame ).
unfoldable pub receive_at : ℕ → EthernetFrame → Router → Outcome Router
unfolding at_interface
receive_at n frame r =
    map_ok (λ t. record r { interfaces = t.1 })
      (at_interface {B = Bool} (λ a. map_ok (λ b. (true, b)) (Router.recv_frame a frame)) n
        r.interfaces)

-- The first and the last rule behind maybe_receive_frame.
unfoldable pub take_frame : ℕ → Option EthernetFrame → Network → Outcome Network
unfolding receive_at
take_frame side none s = ok s
take_frame side (some frame) s =
    receive_at side frame s.router >>= λ r. map_ok (λ t. record s { router = t }) (route r)

unfoldable pub from_fd : ℕ → ℕ → Answer (List ℕ) → World Network → Outcome (World Network)
unfolding take_frame
from_fd fd side a w = maybe_receive_frame (w.fds fd) a >>= λ r.
    map_ok (λ s. put_fd fd r.1 (record w { state = s })) (take_frame side r.0 w.state)

unfoldable pub from_host : World Network → Outcome (World Network)
unfolding from_fd
from_host w = from_fd frame_fd host_side w.state.answers.from_host w

unfoldable pub from_internet : World Network → Outcome (World Network)
unfolding from_fd
from_internet w = from_fd internet_socket internet_side w.state.answers.from_internet w

-- The other two rules: the front of a queue is written and leaves the queue.
unfoldable pub write_front :
    FdWrapper → List EthernetFrame → Answer ℕ → Outcome (FdWrapper × List EthernetFrame)
write_front d [] a = undefined
write_front d (f ∷ fs) a = map_ok (λ n. (n.1, fs)) (write_vector d (frame_strings f) a)

unfoldable pub to_host : World Network → Outcome (World Network)
unfolding write_front
to_host w =
    map_ok (λ r. put_fd frame_fd r.0 (record w { state = record w.state { router_to_host = r.1 } }))
      (write_front (w.fds frame_fd) w.state.router_to_host w.state.answers.to_host)

unfoldable pub to_internet : World Network → Outcome (World Network)
unfolding write_front
to_internet w =
    map_ok
      (λ r.
        put_fd internet_socket r.0
          (record w { state = record w.state { router_to_internet = r.1 } }))
      (write_front (w.fds internet_socket) w.state.router_to_internet w.state.answers.to_internet)

-- The defaults of add_rule.
abbrev always : World Network → Bool
always w = true

abbrev no_cancel : World Network → Outcome (World Network)
no_cancel w = ok w

unfoldable pub add_rules : EventLoop Network → Outcome (EventLoop Network)
unfolding from_host to_host to_internet from_internet
add_rules l = add_named l frame_fd incoming from_host always no_cancel >>= λ l.
    add_named l frame_fd outgoing to_host (λ w. not (is_empty w.state.router_to_host)) no_cancel
    >>= λ l.
        add_named l internet_socket outgoing to_internet
          (λ w. not (is_empty w.state.router_to_internet)) no_cancel
        >>= λ l. add_named l internet_socket incoming from_internet always no_cancel

-- router.interface( n ).tick( ms ).
unfoldable pub tick_at : ℕ → ℕ → Router → Outcome Router
unfolding at_interface
tick_at n ms r =
    map_ok (λ t. record r { interfaces = t.1 })
      (at_interface {B = Bool}
        (λ a. ok (true, record a { interface = Interface.tick a.interface ms })) n r.interfaces)

-- The loop over maybe_send of an interface, on fuel: the frames join the queue.
unfoldable pub drain_loop :
    ℕ → NetworkInterface → List EthernetFrame → Outcome (List EthernetFrame × NetworkInterface)
drain_loop zero i queue = no_fuel
drain_loop (suc fuel) i queue =
    let (f, j) = Interface.maybe_send i in
    elim f [ none ↦ ok (queue, j) | some frame ↦ drain_loop fuel j (queue ++ (frame ∷ [])) ]

-- Each round but the last moves a frame.
unfoldable pub drain_at : ℕ → Router → List EthernetFrame → Outcome (List EthernetFrame × Router)
unfolding at_interface drain_loop
drain_at n r queue =
    map_ok (λ t. (t.0, record r { interfaces = t.1 }))
      (at_interface
        (λ a.
          map_ok (λ t. (t.0, record a { interface = t.1 }))
            (drain_loop (length a.interface.ready_to_send + 1) a.interface queue))
        n r.interfaces)

-- A round behind wait_next_event.
unfoldable pub advance : Network → Outcome Network
unfolding tick_at drain_at
advance s = tick_at host_side 10 s.router >>= λ r. tick_at internet_side 10 r >>= λ r.
    drain_at host_side r s.router_to_host >>= λ h.
    drain_at internet_side h.1 s.router_to_internet >>= λ i.
    ok (record s { router = i.1; router_to_host = h.0; router_to_internet = i.0 })

-- What comes from outside in a round.
pub record Round : Type 0 where
  pub poll : Outcome (Option (List Revents))
  pub getsockopt : ℕ → Outcome (Unit {0})
  pub answers : Answers
  pub exit_flag : Bool

-- The loop of the network thread, for so many rounds: whether it has come to its end.
unfoldable pub network_loop :
    List Round → EventLoop Network → World Network → Outcome (Bool × World Network)
unfolding advance
network_loop [] l w = ok (false, w)
network_loop (r ∷ rs) l w =
    wait_next_event (λ ps v. r.poll) r.getsockopt l
      (record w { state = record w.state { answers = r.answers } })
    >>= λ t. elim (is_exit t.0) [
      | true ↦ ok (true, t.2)
      | false ↦ advance t.2.state >>= λ s.
          let v = record t.2 { state = s } in
          elim r.exit_flag [ true ↦ ok (true, v) | false ↦ network_loop rs t.1 v ]
    ]

-- The network thread, with the router and the file descriptors that it has.
unfoldable pub network_thread :
    Router → (ℕ → FdWrapper) → Answers → List Round → Outcome (Bool × World Network)
unfolding add_rules network_loop
network_thread r fds answers rounds = add_rules EventLoop.init >>= λ l.
    network_loop rounds l (record {
      state = record {
        router = r;
        router_to_host = [];
        router_to_internet = [];
        answers = answers;
      };
      fds = fds;
      cancelled = [];
    })
