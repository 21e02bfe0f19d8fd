-- ===== src/StreamCopy/Tests.antt =====
-- Runs of apps/bidirectional_stream_copy.cc, and the theorems at them.
use networkinglab.Base.{
  ◌-◌, replicate, ◌≡◌, refl, true, false, some, [], ◌∷◌, ◌++◌, ok, add32, add64, sub64, arith,
}
use networkinglab.Stream
use networkinglab.Stream.{
  ByteStream, available_capacity, push_string, fit, peek, front, pop, pop_strings, erase_front,
  is_finished,
}
use networkinglab.Stream.Invariant.{contents, init-IsValid}
use networkinglab.Descriptor.{Answer, done, failed, eagain, FdWrapper, fresh, check_system_call}
use networkinglab.Descriptor
use networkinglab.EventLoop
use networkinglab.EventLoop.{World, add_named, serve_rules, serve, set_up, service_count}
use networkinglab.EventLoop.Polling.{
  Revents, wait_next_event, poll_rules, poll_or_exit, after_poll, handle_polled, something_to_poll,
  serve_ready, is_defunct, poll_ready, try_recover,
}
use networkinglab.StreamCopy.{
  Answers, Copy, Flow, Round, copy_with, copy_loop, unblock, add_rules, read_input, write_socket,
  take_in, give_out, finish, new_flow,
}
use networkinglab.StreamCopy.Conserving.{copy-conserves}
use networkinglab.StreamCopy.Stalling.{take_in-stalled}

-- The input has three bytes, and the socket takes two.
abbrev some_answers : Answers
some_answers = record {
  from_input = done (100 ∷ 101 ∷ 102 ∷ []);
  to_socket = done 2;
  shut_socket = done 0;
  from_socket = failed eagain;
  to_output = done 0;
  close_output = done 0;
}

abbrev no_event : Revents
no_event = record { err = false; nval = false; hup = false; readable = false; writable = false }

-- The input is readable; the socket is writable.
abbrev input_ready : Round
input_ready = record {
  answers = some_answers;
  poll = ok (some (record no_event { readable = true } ∷ no_event ∷ no_event ∷ no_event ∷ []));
  getsockopt = λ fd. ok tt;
}

abbrev socket_ready : Round
socket_ready = record {
  answers = some_answers;
  poll = ok (some (no_event ∷ record no_event { writable = true } ∷ no_event ∷ no_event ∷ []));
  getsockopt = λ fd. ok tt;
}

runs :
    (w : World Copy) × (copy_with 8 11 fresh
        (λ k. (done 0, done 0))
        some_answers
        (input_ready ∷ socket_ready ∷ [])
      ≡ ok (false, w))
    × (w.state.outbound.taken ≡ 100 ∷ 101 ∷ 102 ∷ [])
    × (w.state.outbound.given ≡ 100 ∷ 101 ∷ [])
unfolding copy_with copy_loop unblock add_rules add_named read_input write_socket take_in give_out
    finish Descriptor.set_blocking check_system_call Descriptor.read Descriptor.write
    Descriptor.write_vector EventLoop.init serve_rules serve set_up service_count wait_next_event
    poll_rules poll_or_exit after_poll handle_polled something_to_poll serve_ready is_defunct
    poll_ready try_recover Stream.init Stream.push Stream.close available_capacity push_string fit
    peek front pop pop_strings erase_front is_finished add32 add64 sub64
runs = (_, refl, refl, refl)

copy-conserves_example :
    (runs.0.state.outbound.taken
      ≡ runs.0.state.outbound.given ++ contents runs.0.state.outbound.stream)
    × (runs.0.state.inbound.taken
        ≡ runs.0.state.inbound.given ++ contents runs.0.state.inbound.stream)
unfolding runs
copy-conserves_example =
    copy-conserves 8 (omega arith) 11 fresh (λ k. (done 0, done 0)) some_answers
      (input_ready ∷ socket_ready ∷ []) false runs.0 runs.1 (omega arith) refl (omega arith) refl

-- A flow whose input does not block.
abbrev some_flow : Flow
some_flow = new_flow 4

abbrev waiting : FdWrapper
waiting = record (fresh 0) { non_blocking = true }

take_in-stalled_example :
    (g : Flow) × (take_in waiting some_flow (failed eagain) ≡ ok (waiting, g))
    × (contents g.stream
        ≡ contents some_flow.stream
          ++ replicate (some_flow.stream.capacity - some_flow.stream.bytes_buffered) 0)
unfolding Stream.init
take_in-stalled_example =
    take_in-stalled waiting some_flow eagain refl refl (init-IsValid 4) (omega arith) (omega arith)
