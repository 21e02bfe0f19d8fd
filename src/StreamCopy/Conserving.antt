-- ===== src/StreamCopy/Conserving.antt =====
-- bidirectional_stream_copy of apps/bidirectional_stream_copy.cc as a whole, in its event loop.
use networkinglab.Base.{
  ℕ, ◌<◌, ◌^◌, ◌≡◌, refl, ◌∙◌, true, false, Bool, Bool-cases, inl, inr, List, [], ◌∷◌, ◌++◌, ltb→lt,
  length, Outcome, ok, ◌>>=◌, Holds, Holds->>=, Holds-ok, Holds-Unit, arith,
}
use networkinglab.Stream
use networkinglab.Stream.{ByteStream, available_capacity}
use networkinglab.Stream.Invariant.{contents, init-IsValid}
use networkinglab.Descriptor.{Answer, FdWrapper}
use networkinglab.Descriptor
use networkinglab.Socket.{wr, shutdown}
use networkinglab.EventLoop
use networkinglab.EventLoop.{World, FdRule, EventLoop, is_exit, add_named}
use networkinglab.EventLoop.Keeping.{KeepsFd, Kept, wait_next_event-Holds}
use networkinglab.EventLoop.Polling.{wait_next_event}
use networkinglab.StreamCopy.{
  Copy, Flow, Answers, Round, wants_in, take_in, give_out, finish, input, output, socket,
  read_input, write_socket, read_socket, write_output, close_outbound, close_inbound, close_flow,
  add_rules, copy_loop, new_flow, unblock, three, copy_with,
}
use networkinglab.StreamCopy.Flowing.{
  Flows, take_in-Holds, give_out-Holds, finish-Holds, close-IsLossless,
}

-- Both flows.
abbrev BothFlow : World Copy → Type 0
BothFlow w = Flows w.state.outbound × Flows w.state.inbound

-- Both streams have as much room as before.
abbrev SameRoom : World Copy → World Copy → Type 0
SameRoom v w =
    (available_capacity w.state.outbound.stream ≡ available_capacity v.state.outbound.stream)
    × (available_capacity w.state.inbound.stream ≡ available_capacity v.state.inbound.stream)

SameRoom-refl : (w : World Copy) → SameRoom w w
SameRoom-refl w = (refl, refl)

SameRoom-trans : (u v w : World Copy) → SameRoom u v → SameRoom v w → SameRoom u w
SameRoom-trans u v w h k = (k.0 ∙ h.0, k.1 ∙ h.1)

abbrev CopyKeeps : FdRule Copy → Type 0
CopyKeeps = KeepsFd BothFlow SameRoom SameRoom-refl SameRoom-trans

wanted : (s other : ByteStream) → wants_in s other ≡ true → 0 < available_capacity s
wanted s other e = ltb→lt 0 (available_capacity s) (ground arith)

close-Flows : (f : Flow) → Flows f → Flows (close_flow f)
close-Flows f h few calm = close-IsLossless f (h few calm)

close-same_room :
    (f : Flow) → available_capacity (close_flow f).stream ≡ available_capacity f.stream
unfolding available_capacity Stream.close
close-same_room f = refl

read_input-Holds :
    (w : World Copy)
    → 0 < available_capacity w.state.outbound.stream
    → BothFlow w
    → Holds BothFlow (read_input w)
unfolding read_input
read_input-Holds w room h =
    Holds->>= {A = FdWrapper × Flow} {B = World Copy} (λ r. Flows r.1) BothFlow
      (take_in (w.fds input) w.state.outbound w.state.answers.from_input) _
      (take_in-Holds (w.fds input) w.state.outbound w.state.answers.from_input room h.0)
      (λ r g. (g, h.1))

read_socket-Holds :
    (w : World Copy)
    → 0 < available_capacity w.state.inbound.stream
    → BothFlow w
    → Holds BothFlow (read_socket w)
unfolding read_socket
read_socket-Holds w room h =
    Holds->>= {A = FdWrapper × Flow} {B = World Copy} (λ r. Flows r.1) BothFlow
      (take_in (w.fds socket) w.state.inbound w.state.answers.from_socket) _
      (take_in-Holds (w.fds socket) w.state.inbound w.state.answers.from_socket room h.1)
      (λ r g. (h.0, g))

-- A write and the end of it.
out-Holds :
    (pass_on : FdWrapper → Outcome FdWrapper) (d : FdWrapper) (f : Flow) (a : Answer ℕ)
    → Flows f
    → Holds {A = FdWrapper × Flow} (λ r. Flows r.1) (give_out d f a >>= finish pass_on)
out-Holds pass_on d f a h =
    Holds->>= {A = FdWrapper × Flow} {B = FdWrapper × Flow} (λ r. Flows r.1) (λ r. Flows r.1)
      (give_out d f a) (finish pass_on) (give_out-Holds d f a h) (λ r g. finish-Holds pass_on r g)

write_socket-Holds : (w : World Copy) → BothFlow w → Holds BothFlow (write_socket w)
unfolding write_socket
write_socket-Holds w h =
    Holds->>= {A = FdWrapper × Flow} {B = World Copy} (λ r. Flows r.1) BothFlow
      (give_out (w.fds socket) w.state.outbound w.state.answers.to_socket
        >>= finish (λ d. shutdown d wr w.state.answers.shut_socket))
      _
      (out-Holds (λ d. shutdown d wr w.state.answers.shut_socket) (w.fds socket) w.state.outbound
        w.state.answers.to_socket h.0)
      (λ r g. (g, h.1))

write_output-Holds : (w : World Copy) → BothFlow w → Holds BothFlow (write_output w)
unfolding write_output
write_output-Holds w h =
    Holds->>= {A = FdWrapper × Flow} {B = World Copy} (λ r. Flows r.1) BothFlow
      (give_out (w.fds output) w.state.inbound w.state.answers.to_output
        >>= finish (λ d. Descriptor.close d w.state.answers.close_output))
      _
      (out-Holds (λ d. Descriptor.close d w.state.answers.close_output) (w.fds output)
        w.state.inbound w.state.answers.to_output h.1)
      (λ r g. (h.0, g))

-- Closing either Writer loses nothing and leaves the room as it is.
close_outbound-Holds :
    (w : World Copy) → BothFlow w → Holds (λ v. BothFlow v × SameRoom w v) (close_outbound w)
close_outbound-Holds w h =
    ((close-Flows w.state.outbound h.0, h.1), (close-same_room w.state.outbound, refl))

close_inbound-Holds :
    (w : World Copy) → BothFlow w → Holds (λ v. BothFlow v × SameRoom w v) (close_inbound w)
close_inbound-Holds w h =
    ((h.0, close-Flows w.state.inbound h.1), (refl, close-same_room w.state.inbound))

abbrev CopyKept : EventLoop Copy → World Copy → Type 0
CopyKept = Kept BothFlow SameRoom SameRoom-refl SameRoom-trans

-- The four rules keep what flows.
add_rules-Holds :
    Holds (λ l. (w : World Copy) → BothFlow w → CopyKept l w) (add_rules EventLoop.init)
unfolding add_rules add_named EventLoop.init
add_rules-Holds w h = (
  tt,
  (
    (
      λ u v e t g. read_input-Holds v (omega (arith, t.0, wanted _ _ e)) g,
      close_outbound-Holds,
      λ v g. (g, SameRoom-refl v),
    ),
    (
      (λ u v e t g. write_socket-Holds v g, close_outbound-Holds, λ v g. (g, SameRoom-refl v)),
      (
        (
          λ u v e t g. read_socket-Holds v (omega (arith, t.1, wanted _ _ e)) g,
          close_inbound-Holds,
          λ v g. (g, SameRoom-refl v),
        ),
        (
          (λ u v e t g. write_output-Holds v g, close_inbound-Holds, λ v g. (g, SameRoom-refl v)),
          tt,
        ),
      ),
    ),
  ),
  h,
)

copy_loop-Holds :
    (rs : List Round) (l : EventLoop Copy) (w : World Copy)
    → CopyKept l w
    → Holds {A = Bool × World Copy} (λ r. BothFlow r.1) (copy_loop rs l w)
unfolding copy_loop
copy_loop-Holds [] l w k = k.2
copy_loop-Holds (r ∷ rs) l w k =
    Holds->>= (λ t. CopyKept t.1 t.2) (λ t. BothFlow t.1)
      (wait_next_event (λ ps v. r.poll) r.getsockopt l
        (record w { state = record w.state { answers = r.answers } }))
      _
      (wait_next_event-Holds BothFlow SameRoom SameRoom-refl SameRoom-trans r.getsockopt
        (λ ps v. r.poll) l (record w { state = record w.state { answers = r.answers } }) k)
      (λ t g. elim (Bool-cases (is_exit t.0)) [
        | inl e ↦ rw e g.2
        | inr e ↦ rw e (copy_loop-Holds rs t.1 t.2 g)
      ])

new_flow-Flows : (buffer_size : ℕ) → buffer_size < 2 ^ 62 → Flows (new_flow buffer_size)
unfolding Stream.init
new_flow-Flows buffer_size h few calm = record {
  valid = init-IsValid buffer_size;
  sized = h;
  kept = refl;
  popped = refl;
}

copy-Holds :
    (buffer_size : ℕ)
    → buffer_size < 2 ^ 62
    → (nonblock : ℕ) (fds : ℕ → FdWrapper) (fcntl : ℕ → Answer ℕ × Answer ℕ) (answers : Answers)
      (rounds : List Round)
    → Holds {A = Bool × World Copy}
        (λ r. BothFlow r.1)
        (copy_with buffer_size nonblock fds fcntl answers rounds)
unfolding copy_with
copy-Holds buffer_size h nonblock fds fcntl answers rounds =
    any (unblock nonblock fds fcntl socket) _ (λ s. any (unblock nonblock fds fcntl input) _ (λ i.
      any (unblock nonblock fds fcntl output) _ (λ o.
        Holds->>= (λ l. (w : World Copy) → BothFlow w → CopyKept l w) (λ r. BothFlow r.1)
          (add_rules EventLoop.init) _ add_rules-Holds
          (λ l k.
            copy_loop-Holds rounds l (start i o s)
              (k (start i o s) (new_flow-Flows buffer_size h, new_flow-Flows buffer_size h))))))
  where
    start : FdWrapper → FdWrapper → FdWrapper → World Copy
    start i o s = record {
      state = record {
        outbound = new_flow buffer_size;
        inbound = new_flow buffer_size;
        answers = answers;
      };
      fds = three i o s;
      cancelled = [];
    }

    any :
        (m : Outcome FdWrapper) (f : FdWrapper → Outcome (Bool × World Copy))
        → ((d : FdWrapper) → Holds {A = Bool × World Copy} (λ r. BothFlow r.1) (f d))
        → Holds {A = Bool × World Copy} (λ r. BothFlow r.1) (m >>= f)
    any m f k = Holds->>= (λ d. Unit {0}) (λ r. BothFlow r.1) m f (Holds-Unit m) (λ d u. k d)

-- Whatever the system calls answer in each round, whichever descriptors are ready and however the
-- copy has ended or not: if it has not thrown, its buffers hold less than 2^62 bytes, in each
-- direction fewer than 2^63 bytes have come in, and no read has found nothing to read, then in
-- each direction the bytes that have come in are those that have gone out and then those that wait
-- in the stream, in order.
pub copy-conserves :
    (buffer_size : ℕ)
    → buffer_size < 2 ^ 62
    → (nonblock : ℕ) (fds : ℕ → FdWrapper) (fcntl : ℕ → Answer ℕ × Answer ℕ) (answers : Answers)
      (rounds : List Round) (finished : Bool) (w : World Copy)
    → copy_with buffer_size nonblock fds fcntl answers rounds ≡ ok (finished, w)
    → length w.state.outbound.taken < 2 ^ 63
    → w.state.outbound.stalled ≡ false
    → length w.state.inbound.taken < 2 ^ 63
    → w.state.inbound.stalled ≡ false
    → (w.state.outbound.taken ≡ w.state.outbound.given ++ contents w.state.outbound.stream)
      × (w.state.inbound.taken ≡ w.state.inbound.given ++ contents w.state.inbound.stream)
copy-conserves buffer_size h nonblock fds fcntl answers rounds finished w e few calm few' calm' =
    let flows : BothFlow w =
      Holds-ok {A = Bool × World Copy} (λ r. BothFlow r.1)
        (copy-Holds buffer_size h nonblock fds fcntl answers rounds) e in
    ((flows.0 few calm).kept, (flows.1 few' calm').kept)
