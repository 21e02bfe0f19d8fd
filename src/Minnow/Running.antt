-- ===== src/Minnow/Running.antt =====
-- _initialize_TCP, _tcp_loop, connect, listen_and_accept and _tcp_main of util/tcp_minnow_socket.cc.
use networkinglab.Base.{
  ℕ, Bool, true, false, not, ◌||◌, Option, none, some, List, [], ◌∷◌, ltb, ◌==◌, if◌then◌else◌,
  length, sub64, Outcome, ok, runtime_error, ◌>>=◌, map_ok,
}
use networkinglab.Wrap.{Wrap32}
use networkinglab.Message.{TcpConfig}
use networkinglab.Sender.{sequence_numbers_in_flight}
use networkinglab.Peer.{TcpPeer, active, maybe_send, has_ackno}
use networkinglab.Peer
use networkinglab.Socket.{rdwr, shutdown}
use networkinglab.EventLoop.{put_fd, is_exit, add_named, incoming, outgoing, World, EventLoop}
use networkinglab.EventLoop.Polling.{Revents, wait_next_event}
use networkinglab.Minnow.{
  AdapterOps, Answers, Minnow, adapter_fd, thread_data, owner, collect_segments,
  receive_from_network, push_bytes, wants_bytes, cancel_bytes, read_bytes, has_bytes, send_segments,
}

-- The interest of rules 1 and 4. Without a TCPPeer there are no rules.
abbrev pub is_active : {A : Type 0} → World (Minnow A) → Bool
is_active w = elim w.state.tcp [ none ↦ false | some p ↦ active p ]

abbrev pub has_segments : {A : Type 0} → World (Minnow A) → Bool
has_segments w = ltb 0 (length w.state.outgoing_segments)

-- The rules of _initialize_TCP.
unfoldable pub add_rules :
    {A C : Type 0} → AdapterOps A C → EventLoop (Minnow A) → Outcome (EventLoop (Minnow A))
add_rules ops l =
    add_named l adapter_fd incoming (receive_from_network ops) is_active (λ w. ok w) >>= λ l1.
    add_named l1 thread_data incoming push_bytes wants_bytes cancel_bytes >>= λ l2.
    add_named l2 thread_data outgoing read_bytes has_bytes (λ w. ok w) >>= λ l3.
    add_named l3 adapter_fd outgoing (send_segments ops) has_segments (λ w. ok w)

-- _initialize_TCP; the random number of the sender is an argument.
unfoldable pub initialize_tcp :
    {A C : Type 0}
    → AdapterOps A C
    → TcpConfig
    → Wrap32
    → EventLoop (Minnow A)
    → Minnow A
    → Outcome (EventLoop (Minnow A) × Minnow A)
unfolding add_rules
initialize_tcp ops config random l s =
    map_ok (λ l'. (l', record s { tcp = some (Peer.init config random) })) (add_rules ops l)

-- TCPMinnowSocket::TCPMinnowSocket, less its sockets.
abbrev pub fresh : {A : Type 0} → A → Answers → Minnow A
fresh adapter answers = record {
  tcp = none;
  adapter = adapter;
  outgoing_segments = [];
  abort = false;
  inbound_shutdown = false;
  outbound_shutdown = false;
  fully_acked = false;
  answers = answers;
}

-- A round of the event loop: what the system calls answer, and whether the owner has asked to abort.
pub record Round : Type 0 where
  pub answers : Answers
  pub asks_abort : Bool
  pub poll : Outcome (Option (List Revents))
  pub getsockopt : ℕ → Outcome (Unit {0})

-- The end of a round of _tcp_loop: time passes, if the TCPPeer is active.
unfoldable pub pass_time :
    {A C : Type 0}
    → AdapterOps A C
    → ℕ
    → World (Minnow A)
    → TcpPeer
    → Outcome (ℕ × World (Minnow A))
unfolding collect_segments
pass_time ops base_time w p = elim (active p) [
  | false ↦ ok (base_time, w)
  | true ↦
      let next_time = w.state.answers.now in
      let ms = sub64 next_time base_time in
      collect_segments (record w.state { tcp = some (Peer.tick p ms) }) >>= λ s.
      map_ok
        (λ r. (next_time, put_fd adapter_fd r.1 (record w { state = record s { adapter = r.0 } })))
        (ops.tick s.adapter (w.fds adapter_fd) ms)
]

-- A TCPPeer, or the exception of _tcp_loop.
abbrev pub peer_or_throw : Option TcpPeer → Outcome TcpPeer
peer_or_throw none = runtime_error
peer_or_throw (some p) = ok p

-- _tcp_loop, for so many rounds: whether it has come to its end.
unfoldable pub tcp_loop :
    {A C : Type 0}
    → AdapterOps A C
    → (Minnow A → Bool)
    → List Round
    → ℕ
    → EventLoop (Minnow A)
    → World (Minnow A)
    → Outcome (Bool × EventLoop (Minnow A) × World (Minnow A))
unfolding pass_time
tcp_loop ops condition [] base_time l w = ok (not (condition w.state), l, w)
tcp_loop ops condition (r ∷ rs) base_time l w = elim (condition w.state) [
  | false ↦ ok (true, l, w)
  | true ↦
      wait_next_event (λ ps v. r.poll) r.getsockopt l
        (record w {
          state = record w.state { answers = r.answers; abort = w.state.abort || r.asks_abort };
        })
      >>= λ t. elim (is_exit t.0 || t.2.state.abort) [
        | true ↦ ok (true, t.1, t.2)
        | false ↦ peer_or_throw t.2.state.tcp >>= λ p.
            pass_time ops base_time t.2 p >>= λ u. tcp_loop ops condition rs u.0 t.1 u.1
      ]
]

abbrev pub in_flight : {A : Type 0} → Minnow A → ℕ
in_flight s = elim s.tcp [ none ↦ 0 | some p ↦ sequence_numbers_in_flight p.sender ]

-- connect, as far as its loop.
unfoldable pub begin_connect :
    {A C : Type 0}
    → AdapterOps A C
    → TcpConfig
    → Wrap32
    → C
    → EventLoop (Minnow A)
    → Minnow A
    → Outcome (EventLoop (Minnow A) × Minnow A)
unfolding initialize_tcp collect_segments
begin_connect ops c_tcp random c_ad l s = elim s.tcp [
  | some p ↦ runtime_error
  | none ↦ initialize_tcp ops c_tcp random l s >>= λ r. peer_or_throw r.1.tcp >>= λ p.
      Peer.push p >>= λ q.
      collect_segments (record r.1 { adapter = ops.configure r.1.adapter c_ad; tcp = some q })
      >>= λ t. if in_flight t == 1 then ok (r.0, t) else runtime_error
]

-- listen_and_accept, as far as its loop.
unfoldable pub begin_listen :
    {A C : Type 0}
    → AdapterOps A C
    → TcpConfig
    → Wrap32
    → C
    → EventLoop (Minnow A)
    → Minnow A
    → Outcome (EventLoop (Minnow A) × Minnow A)
unfolding initialize_tcp
begin_listen ops c_tcp random c_ad l s = elim s.tcp [
  | some p ↦ runtime_error
  | none ↦
      map_ok
        (λ r.
          (r.0, record r.1 { adapter = ops.set_listening (ops.configure r.1.adapter c_ad) true }))
        (initialize_tcp ops c_tcp random l s)
]

-- The conditions of the two loops.
abbrev pub connecting : {A : Type 0} → Minnow A → Bool
connecting s = in_flight s == 1

abbrev pub listening : {A : Type 0} → Minnow A → Bool
listening s = elim s.tcp [
  | none ↦ true
  | some p ↦ not (has_ackno p) || not (sequence_numbers_in_flight p.sender == 0)
]

-- connect and listen_and_accept, less the thread that they start at the end.
unfoldable pub connect :
    {A C : Type 0}
    → AdapterOps A C
    → TcpConfig
    → Wrap32
    → C
    → List Round
    → EventLoop (Minnow A)
    → World (Minnow A)
    → Outcome (Bool × EventLoop (Minnow A) × World (Minnow A))
unfolding begin_connect tcp_loop
connect ops c_tcp random c_ad rounds l w = begin_connect ops c_tcp random c_ad l w.state >>= λ r.
    tcp_loop ops connecting rounds w.state.answers.now r.0 (record w { state = r.1 })

unfoldable pub listen_and_accept :
    {A C : Type 0}
    → AdapterOps A C
    → TcpConfig
    → Wrap32
    → C
    → List Round
    → EventLoop (Minnow A)
    → World (Minnow A)
    → Outcome (Bool × EventLoop (Minnow A) × World (Minnow A))
unfolding begin_listen tcp_loop
listen_and_accept ops c_tcp random c_ad rounds l w =
    begin_listen ops c_tcp random c_ad l w.state >>= λ r.
    tcp_loop ops listening rounds w.state.answers.now r.0 (record w { state = r.1 })

-- _tcp_main: the loop, and at its end the shutdown of the owner's socket.
unfoldable pub tcp_main :
    {A C : Type 0}
    → AdapterOps A C
    → List Round
    → EventLoop (Minnow A)
    → World (Minnow A)
    → Outcome (Bool × World (Minnow A))
unfolding tcp_loop
tcp_main ops rounds l w = peer_or_throw w.state.tcp >>= λ p.
    tcp_loop ops (λ s. true) rounds w.state.answers.now l w >>= λ r. elim r.0 [
      | false ↦ ok (false, r.2)
      | true ↦ shutdown (r.2.fds owner) rdwr r.2.state.answers.shut_owner >>= λ d.
          ok (true, put_fd owner d (record r.2 { state = record r.2.state { tcp = none } }))
    ]
