-- ===== src/Minnow.antt =====
-- util/tcp_minnow_socket.{hh,cc}: a TCPPeer between an adapter and a socket to its owner. The state
-- also holds what the system calls answer next; the owner's thread is not modelled.
pub mod Running
pub mod Gathering
pub mod Collecting
pub mod Connecting
pub mod Tunnel
mod Tests
use networkinglab.Base.{
  ℕ, zero, suc, ◌+◌, ◌-◌, Bool, true, false, not, ◌&&◌, ◌||◌, Option, none, some, List, [], ◌∷◌,
  ◌++◌, ltb, ◌==◌, if◌then◌else◌, length, replicate, sub64, Outcome, ok, runtime_error, undefined,
  no_fuel, ◌>>=◌, map_ok,
}
use networkinglab.Wrap.{Wrap32}
use networkinglab.Message.{TcpConfig, TcpSegment}
use networkinglab.Stream
use networkinglab.Stream.{ByteStream, available_capacity, peek, is_finished}
use networkinglab.Sender.{available_window, sequence_numbers_in_flight}
use networkinglab.Peer.{TcpPeer, active, maybe_send, has_ackno}
use networkinglab.Peer
use networkinglab.Descriptor.{Answer, FdWrapper}
use networkinglab.Descriptor
use networkinglab.Socket.{wr, rdwr, shutdown}
use networkinglab.EventLoop
use networkinglab.EventLoop.{
  put_fd, Direction, incoming, outgoing, Result, success, timeout, exit, World, EventLoop,
  add_category, add_fd_rule,
}
use networkinglab.EventLoop.Polling.{Revents, wait_next_event}

-- What the socket asks of its adapter, whose file descriptor is an argument. The state of an
-- adapter holds what its device answers to a write.
pub record AdapterOps (A C : Type 0) : Type 0 where
  pub read : A → FdWrapper → Answer (List ℕ) → Outcome (Option TcpSegment × A × FdWrapper)
  pub write : A → FdWrapper → TcpSegment → Outcome (A × FdWrapper)
  pub tick : A → FdWrapper → ℕ → Outcome (A × FdWrapper)
  pub configure : A → C → A
  pub set_listening : A → Bool → A

-- What the system calls answer in a round, and the time then.
pub record Answers : Type 0 where
  pub from_network : Answer (List ℕ)
  pub from_owner : Answer (List ℕ)
  pub to_owner : Answer ℕ
  pub shut_owner : Answer ℕ
  pub now : ℕ

-- TCPMinnowSocket, less its event loop and its thread.
pub record Minnow (A : Type 0) : Type 0 where
  pub tcp : Option TcpPeer
  pub adapter : A
  pub outgoing_segments : List TcpSegment
  pub abort : Bool
  pub inbound_shutdown : Bool
  pub outbound_shutdown : Bool
  pub fully_acked : Bool
  pub answers : Answers

-- Keys of the file descriptors.
abbrev pub thread_data : ℕ
thread_data = 0

abbrev pub adapter_fd : ℕ
adapter_fd = 1

abbrev pub owner : ℕ
owner = 2

-- The loop of collect_segments, on fuel.
unfoldable pub collect_loop : ℕ → TcpPeer → List TcpSegment → Outcome (TcpPeer × List TcpSegment)
collect_loop zero p out = no_fuel
collect_loop (suc fuel) p out = maybe_send p >>= λ r. elim r.0 [
  | none ↦ ok (r.1, out)
  | some seg ↦ collect_loop fuel r.1 (out ++ (seg ∷ []))
]

-- Each round takes a segment from the queue, where a push may put one for each number that the
-- window has room for, or sends the empty one, or is the last.
abbrev pub collect_fuel : TcpPeer → ℕ
collect_fuel p =
    length p.sender.ready_to_send + (available_window p.sender - p.sender.seqnums_in_flight) + 2

-- collect_segments.
unfoldable pub collect_segments : {A : Type 0} → Minnow A → Outcome (Minnow A)
unfolding collect_loop
collect_segments s = elim s.tcp [
  | none ↦ ok s
  | some p ↦
      map_ok (λ r. record s { tcp = some r.0; outgoing_segments = r.1 })
        (collect_loop (collect_fuel p) p s.outgoing_segments)
]

-- *_tcp, where there is a TCPPeer.
abbrev pub the_peer : Option TcpPeer → Outcome TcpPeer
the_peer none = undefined
the_peer (some p) = ok p

-- What a callback makes of the state.
abbrev pub on_state :
    {A : Type 0} → World (Minnow A) → Outcome (Minnow A) → Outcome (World (Minnow A))
on_state w m = map_ok (λ s. record w { state = s }) m

-- Rule 1, where a segment has been read, or not.
unfoldable pub take_segment : {A : Type 0} → Option TcpSegment → Minnow A → Outcome (Minnow A)
unfolding collect_segments
take_segment none s = ok s
take_segment (some seg) s =
    the_peer s.tcp >>= λ p. collect_segments (record s { tcp = some (Peer.receive p seg) })

-- The end of rule 1.
unfoldable pub note_acked : {A : Type 0} → Bool → Minnow A → Outcome (Minnow A)
note_acked eof s = elim eof [
  | false ↦ ok s
  | true ↦ the_peer s.tcp >>= λ p.
      ok (record s { fully_acked = s.fully_acked || (sequence_numbers_in_flight p.sender == 0) })
]

unfoldable pub receive_from_network :
    {A C : Type 0} → AdapterOps A C → World (Minnow A) → Outcome (World (Minnow A))
unfolding take_segment note_acked
receive_from_network ops w =
    ops.read w.state.adapter (w.fds adapter_fd) w.state.answers.from_network >>= λ r.
    on_state (put_fd adapter_fd r.2 w)
      (take_segment r.0 (record w.state { adapter = r.1 }) >>= note_acked (w.fds thread_data).eof)

-- Rule 2: bytes of the owner go into the outbound stream.
unfoldable pub push_bytes : {A : Type 0} → World (Minnow A) → Outcome (World (Minnow A))
unfolding collect_segments
push_bytes w = the_peer w.state.tcp >>= λ p.
    Descriptor.read (w.fds thread_data) (replicate (available_capacity p.outbound_stream) 0)
      w.state.answers.from_owner
    >>= λ r.
        let pushed = Stream.push p.outbound_stream r.0 in
        let stream = if r.1.eof then Stream.close pushed else pushed in
        Peer.push (record p { outbound_stream = stream }) >>= λ q.
        on_state (put_fd thread_data r.1 w) (
          collect_segments (record w.state {
            tcp = some q;
            outbound_shutdown = w.state.outbound_shutdown || r.1.eof;
          }))

abbrev pub wants_bytes : {A : Type 0} → World (Minnow A) → Bool
wants_bytes w = elim w.state.tcp [
  | none ↦ false
  | some p ↦
      active p && (not w.state.outbound_shutdown && ltb 0 (available_capacity p.outbound_stream))
]

unfoldable pub cancel_bytes : {A : Type 0} → World (Minnow A) → Outcome (World (Minnow A))
cancel_bytes w = the_peer w.state.tcp >>= λ p. ok (record w {
  state = record w.state {
    tcp = some (record p { outbound_stream = Stream.close p.outbound_stream });
    outbound_shutdown = true;
  };
})

-- Rule 3: bytes of the inbound stream go to the owner, as many as the write takes.
unfoldable pub hand_over : FdWrapper → TcpPeer → Answer ℕ → Outcome (FdWrapper × TcpPeer)
hand_over d p a =
    if p.inbound_stream.bytes_buffered == 0
    then ok (d, p)
    else (peek p.inbound_stream >>= λ view. Descriptor.write d view a >>= λ r.
        Stream.pop p.inbound_stream r.0 >>= λ s. ok (r.1, record p { inbound_stream = s }))

abbrev pub is_over : ByteStream → Bool
is_over s = is_finished s || s.has_error

unfoldable pub read_bytes : {A : Type 0} → World (Minnow A) → Outcome (World (Minnow A))
unfolding hand_over
read_bytes w = the_peer w.state.tcp >>= λ p.
    hand_over (w.fds thread_data) p w.state.answers.to_owner >>= λ r.
    let s = record w.state { tcp = some r.1 } in
    elim (is_over r.1.inbound_stream) [
      | false ↦ ok (put_fd thread_data r.0 (record w { state = s }))
      | true ↦ shutdown r.0 wr w.state.answers.shut_owner >>= λ d.
          ok (put_fd thread_data d (record w { state = record s { inbound_shutdown = true } }))
    ]

abbrev pub has_bytes : {A : Type 0} → World (Minnow A) → Bool
has_bytes w = elim w.state.tcp [
  | none ↦ false
  | some p ↦
      not (p.inbound_stream.bytes_buffered == 0)
      || (is_over p.inbound_stream && not w.state.inbound_shutdown)
]

-- Rule 4: all segments go out.
unfoldable pub send_all :
    {A C : Type 0} → AdapterOps A C → List TcpSegment → A → FdWrapper → Outcome (A × FdWrapper)
send_all ops [] a d = ok (a, d)
send_all ops (seg ∷ segs) a d = ops.write a d seg >>= λ r. send_all ops segs r.0 r.1

unfoldable pub send_segments :
    {A C : Type 0} → AdapterOps A C → World (Minnow A) → Outcome (World (Minnow A))
unfolding send_all
send_segments ops w =
    map_ok
      (λ r.
        put_fd adapter_fd r.1
          (record w { state = record w.state { adapter = r.0; outgoing_segments = [] } }))
      (send_all ops w.state.outgoing_segments w.state.adapter (w.fds adapter_fd))
