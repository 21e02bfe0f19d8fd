-- ===== src/EndToEnd/Tests.antt =====
-- Runs of apps/endtoend.cc, and the theorems at them.
use networkinglab.Base.{
  ℕ, ◌≡◌, refl, true, false, none, some, List, [], ◌∷◌, length, map, ok, map_ok, add32, add64,
  sub64, arith, runtime_error,
}
use networkinglab.Wire.{
  integer, read_bytes, check_size, peek, front, remove_prefix, remove_loop, parser, dump_all,
  buffer_list,
}
use networkinglab.Wire.Parsing.{pure, ◌>>=◌, byte_array, all_remaining}
use networkinglab.Ethernet.{parse_frame, parse_header}
use networkinglab.Interface
use networkinglab.Interface.{
  recv_frame, take_datagram, deliver, recv_other, take_arp, learn, release_known, release,
  maybe_send, age,
}
use networkinglab.Tuntap.{parse_ethernet}
use networkinglab.Router.{
  Router, Entry, route, route_loop, route_at, receive_at, maybe_receive, forward, find_entry,
  add_interface, add_route,
}
use networkinglab.Router
use networkinglab.Router.Queues.{queues, tail}
use networkinglab.Router.Naming.{names}
use networkinglab.Descriptor.{done, fresh, read_vector, widen_last, readv, trim}
use networkinglab.EventLoop
use networkinglab.EventLoop.{World, add_named, serve_rules, serve, set_up, service_count}
use networkinglab.EventLoop.Polling.{
  Revents, wait_next_event, poll_rules, poll_or_exit, after_poll, handle_polled, something_to_poll,
  serve_ready, is_defunct, poll_ready, try_recover,
}
use networkinglab.EndToEnd
use networkinglab.EndToEnd.{
  maybe_receive_frame, random_router_ethernet_address, two_sides, router_side, host_side,
  internet_side, dotted, bind, connect_config, random_host_ethernet_address,
}
use networkinglab.EndToEnd.Networking.{
  Network, Answers, Round, at_interface, take_frame, from_fd, from_host, add_rules, tick_at,
  drain_loop, drain_at, advance, network_loop, network_thread,
}
use networkinglab.EndToEnd.Networking
use networkinglab.EndToEnd.Routes.{way, find_entry-set_up}
use networkinglab.EndToEnd.Running.{network_thread-routes}

-- The client's host sends to the server's: the datagram goes to the server's router.
find_entry-set_up_example :
    map_ok way (find_entry (dotted 172 16 0 100) (EndToEnd.set_up true [] []).routing_table none)
    ≡ ok (some (some (dotted 10 0 0 172), internet_side))
find_entry-set_up_example =
    find_entry-set_up true [] [] 172 16 0 100 (omega arith) (omega arith) (omega arith)
      (omega arith)

-- A port is bound only at the own address.
bind_elsewhere :
    bind
      (record { ip = dotted 172 16 0 100; port = 0 })
      (record { ip = dotted 172 16 0 1; port = 1234 })
    ≡ runtime_error
unfolding bind
bind_elsewhere = refl

private_address : random_host_ethernet_address (0xfd ∷ 7 ∷ []) ≡ 0xfe ∷ 7 ∷ []
unfolding random_host_ethernet_address
private_address = refl

-- The host sends a frame of a type that no one knows, without a payload.
abbrev some_answers : Answers
some_answers = record {
  from_host = done (1 ∷ 1 ∷ 1 ∷ 1 ∷ 1 ∷ 1 ∷ 2 ∷ 2 ∷ 2 ∷ 2 ∷ 2 ∷ 2 ∷ 0x12 ∷ 0x34 ∷ []);
  to_host = done 0;
  to_internet = done 0;
  from_internet = done [];
}

abbrev no_event : Revents
no_event = record { err = false; nval = false; hup = false; readable = false; writable = false }

abbrev host_ready : Round
host_ready = record {
  answers = some_answers;
  poll = ok (some (record no_event { readable = true } ∷ no_event ∷ no_event ∷ no_event ∷ []));
  getsockopt = λ fd. ok tt;
  exit_flag = false;
}

abbrev exiting : Round
exiting = record {
  answers = some_answers;
  poll = ok none;
  getsockopt = λ fd. ok tt;
  exit_flag = true;
}

abbrev drawn : List ℕ
drawn = 9 ∷ 9 ∷ 9 ∷ 9 ∷ 9 ∷ 9 ∷ []

runs :
    (w : World Network) × (network_thread
        (EndToEnd.set_up true drawn drawn)
        fresh
        some_answers
        (host_ready ∷ exiting ∷ [])
      ≡ ok (true, w))
unfolding network_thread network_loop add_rules add_named from_host from_fd maybe_receive_frame
    take_frame Networking.receive_at at_interface advance tick_at drain_at drain_loop
    EndToEnd.set_up two_sides router_side random_router_ethernet_address add_interface add_route
    read_vector widen_last readv trim parse_ethernet parse_frame parse_header byte_array pure ◌>>=◌
    all_remaining dump_all integer read_bytes check_size peek front remove_prefix remove_loop parser
    Router.recv_frame Interface.recv_frame take_datagram deliver recv_other take_arp learn
    release_known release maybe_send age Interface.tick Interface.init route route_loop route_at
    receive_at maybe_receive forward EventLoop.init serve_rules serve EventLoop.set_up service_count
    wait_next_event poll_rules poll_or_exit after_poll handle_polled something_to_poll serve_ready
    is_defunct poll_ready try_recover buffer_list add32 add64 sub64
runs = (_, refl)

network_thread-routes_example :
    (runs.0.state.router.routing_table ≡ (EndToEnd.set_up true drawn drawn).routing_table)
    × (names runs.0.state.router.interfaces ≡ names (EndToEnd.set_up true drawn drawn).interfaces)
    × (length runs.0.state.router.interfaces ≡ 2)
    × ((r : Router) × (route runs.0.state.router ≡ ok r)
        × (queues r.interfaces ≡ map tail (queues runs.0.state.router.interfaces)))
network_thread-routes_example =
    network_thread-routes true drawn drawn fresh some_answers (host_ready ∷ exiting ∷ []) true
      runs.0 runs.1
