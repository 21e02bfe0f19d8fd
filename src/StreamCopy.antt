-- ===== src/StreamCopy.antt =====
-- apps/bidirectional_stream_copy.cc: bytes go from the standard input to a socket, and from the socket
-- to the standard output. What the system calls answer in the next round is a part of the state, and
-- so is what has come in and gone out, which no code keeps.
pub mod Flowing
pub mod Conserving
pub mod Stalling
mod Tests
use networkinglab.Base.{
  ℕ, ◌+◌, Bool, true, false, not, ◌&&◌, ◌||◌, Option, List, [], ◌∷◌, ◌++◌, ltb, ◌==◌, if◌then◌else◌,
  length, take, replicate, Outcome, ok, no_fuel, ◌>>=◌, map_ok,
}
use networkinglab.Stream
use networkinglab.Stream.{ByteStream, available_capacity, peek, is_finished}
use networkinglab.Descriptor.{Answer, done, failed, FdWrapper}
use networkinglab.Descriptor
use networkinglab.Socket.{wr, shutdown}
use networkinglab.EventLoop
use networkinglab.EventLoop.{incoming, outgoing, is_exit, World, EventLoop, put_fd, add_named}
use networkinglab.EventLoop.Polling.{Revents, wait_next_event}

-- One direction: the stream, whether its end has been passed on, and the traffic: the bytes that
-- have come in, those that have gone out, and whether a read has found nothing to read.
pub record Flow : Type 0 where
  pub stream : ByteStream
  pub is_shutdown : Bool
  pub taken : List ℕ
  pub given : List ℕ
  pub stalled : Bool

-- What the system calls answer.
pub record Answers : Type 0 where
  pub from_input : Answer (List ℕ)
  pub to_socket : Answer ℕ
  pub shut_socket : Answer ℕ
  pub from_socket : Answer (List ℕ)
  pub to_output : Answer ℕ
  pub close_output : Answer ℕ

pub record Copy : Type 0 where
  pub outbound : Flow
  pub inbound : Flow
  pub answers : Answers

abbrev pub delivered : Answer (List ℕ) → List ℕ
delivered (done bytes) = bytes
delivered (failed e) = []

abbrev pub is_failed : Answer (List ℕ) → Bool
is_failed (done bytes) = false
is_failed (failed e) = true

-- The callbacks of rules 1 and 3: a buffer of the available capacity is read into and pushed.
unfoldable pub take_in : FdWrapper → Flow → Answer (List ℕ) → Outcome (FdWrapper × Flow)
take_in d f a = Descriptor.read d (replicate (available_capacity f.stream) 0) a >>= λ r.
    let s = Stream.push f.stream r.0 in
    ok (
      r.1,
      record f {
        stream = if r.1.eof then Stream.close s else s;
        taken = f.taken ++ delivered a;
        stalled = f.stalled || is_failed a;
      },
    )

-- The first half of the callbacks of rules 2 and 4: the front string is written, and what has been
-- written is popped.
unfoldable pub give_out : FdWrapper → Flow → Answer ℕ → Outcome (FdWrapper × Flow)
give_out d f a =
    if f.stream.bytes_buffered == 0
    then ok (d, f)
    else (peek f.stream >>= λ view. Descriptor.write d view a >>= λ r.
        Stream.pop f.stream r.0 >>= λ s.
        ok (r.1, record f { stream = s; given = f.given ++ take r.0 view }))

-- The second half: at the end of the stream, which is passed on by the call.
unfoldable pub finish :
    (FdWrapper → Outcome FdWrapper) → FdWrapper × Flow → Outcome (FdWrapper × Flow)
finish pass_on (d, f) =
    if is_finished f.stream
    then map_ok (λ d'. (d', record f { is_shutdown = true })) (pass_on d)
    else ok (d, f)

-- The interest of rules 1 and 3, where the other stream is `other`, and of rules 2 and 4.
abbrev pub wants_in : ByteStream → ByteStream → Bool
wants_in s other = not s.has_error && (ltb 0 (available_capacity s) && not other.has_error)

abbrev pub wants_out : Flow → Bool
wants_out f = not (f.stream.bytes_buffered == 0) || (is_finished f.stream && not f.is_shutdown)

-- The cancel functions: the Writer is closed.
abbrev pub close_flow : Flow → Flow
close_flow f = record f { stream = Stream.close f.stream }

-- Keys of the file descriptors.
abbrev pub input : ℕ
input = 0

abbrev pub output : ℕ
output = 1

abbrev pub socket : ℕ
socket = 2

-- The outbound flow and the file descriptor have changed, or the inbound flow.
abbrev pub put_outbound : ℕ → World Copy → FdWrapper × Flow → World Copy
put_outbound fd w (d, f) = put_fd fd d (record w { state = record w.state { outbound = f } })

abbrev pub put_inbound : ℕ → World Copy → FdWrapper × Flow → World Copy
put_inbound fd w (d, f) = put_fd fd d (record w { state = record w.state { inbound = f } })

-- The four rules.
unfoldable pub read_input : World Copy → Outcome (World Copy)
unfolding take_in
read_input w =
    map_ok (put_outbound input w)
      (take_in (w.fds input) w.state.outbound w.state.answers.from_input)

unfoldable pub write_socket : World Copy → Outcome (World Copy)
unfolding give_out finish
write_socket w = map_ok (put_outbound socket w) (
    give_out (w.fds socket) w.state.outbound w.state.answers.to_socket
    >>= finish (λ d. shutdown d wr w.state.answers.shut_socket))

unfoldable pub read_socket : World Copy → Outcome (World Copy)
unfolding take_in
read_socket w =
    map_ok (put_inbound socket w)
      (take_in (w.fds socket) w.state.inbound w.state.answers.from_socket)

unfoldable pub write_output : World Copy → Outcome (World Copy)
unfolding give_out finish
write_output w = map_ok (put_inbound output w) (
    give_out (w.fds output) w.state.inbound w.state.answers.to_output
    >>= finish (λ d. Descriptor.close d w.state.answers.close_output))

abbrev pub close_outbound : World Copy → Outcome (World Copy)
close_outbound w =
    ok (record w { state = record w.state { outbound = close_flow w.state.outbound } })

abbrev pub close_inbound : World Copy → Outcome (World Copy)
close_inbound w = ok (record w { state = record w.state { inbound = close_flow w.state.inbound } })

-- The four calls of add_rule.
unfoldable pub add_rules : EventLoop Copy → Outcome (EventLoop Copy)
add_rules l =
    add_named l input incoming read_input
      (λ w. wants_in w.state.outbound.stream w.state.inbound.stream) close_outbound
    >>= λ l1.
        add_named l1 socket outgoing write_socket (λ w. wants_out w.state.outbound) close_outbound
        >>= λ l2.
            add_named l2 socket incoming read_socket
              (λ w. wants_in w.state.inbound.stream w.state.outbound.stream) close_inbound
            >>= λ l3.
                add_named l3 output outgoing write_output (λ w. wants_out w.state.inbound)
                  close_inbound

-- One round of the last loop: what the system calls answer in it.
pub record Round : Type 0 where
  pub answers : Answers
  pub poll : Outcome (Option (List Revents))
  pub getsockopt : ℕ → Outcome (Unit {0})

-- The last loop, for so many rounds: whether it has returned.
unfoldable pub copy_loop : List Round → EventLoop Copy → World Copy → Outcome (Bool × World Copy)
copy_loop [] l w = ok (false, w)
copy_loop (r ∷ rs) l w =
    wait_next_event (λ ps v. r.poll) r.getsockopt l
      (record w { state = record w.state { answers = r.answers } })
    >>= λ t. elim (is_exit t.0) [ true ↦ ok (true, t.2) | false ↦ copy_loop rs t.1 t.2 ]

abbrev pub new_flow : ℕ → Flow
new_flow buffer_size = record {
  stream = Stream.init buffer_size;
  is_shutdown = false;
  taken = [];
  given = [];
  stalled = false;
}

-- The beginning: the three file descriptors are set to non-blocking, where fcntl answers twice
-- for each.
unfoldable pub unblock : ℕ → (ℕ → FdWrapper) → (ℕ → Answer ℕ × Answer ℕ) → ℕ → Outcome FdWrapper
unblock nonblock fds fcntl k =
    map_ok (λ r. r.1) (Descriptor.set_blocking nonblock (fds k) false (fcntl k).0 (fcntl k).1)

abbrev pub three : FdWrapper → FdWrapper → FdWrapper → ℕ → FdWrapper
three i o s k = if k == input then i else if k == output then o else s

-- bidirectional_stream_copy with its buffer_size, for so many rounds.
unfoldable pub copy_with :
    ℕ
    → ℕ
    → (ℕ → FdWrapper)
    → (ℕ → Answer ℕ × Answer ℕ)
    → Answers
    → List Round
    → Outcome (Bool × World Copy)
unfolding unblock add_rules
copy_with buffer_size nonblock fds fcntl answers rounds = unblock nonblock fds fcntl socket >>= λ s.
    unblock nonblock fds fcntl input >>= λ i. unblock nonblock fds fcntl output >>= λ o.
    add_rules EventLoop.init >>= λ l. copy_loop rounds l (record {
      state = record {
        outbound = new_flow buffer_size;
        inbound = new_flow buffer_size;
        answers = answers;
      };
      fds = three i o s;
      cancelled = [];
    })

-- bidirectional_stream_copy: its buffer_size is 1048576.
unfoldable pub bidirectional_stream_copy :
    ℕ
    → (ℕ → FdWrapper)
    → (ℕ → Answer ℕ × Answer ℕ)
    → Answers
    → List Round
    → Outcome (Bool × World Copy)
unfolding copy_with
bidirectional_stream_copy = copy_with 1048576
