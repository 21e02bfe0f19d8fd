-- ===== src/EventLoop/Polling.antt =====
-- wait_next_event of util/eventloop.cc, from poll on.
use networkinglab.Base.{
  ℕ, Bool, true, false, not, ◌&&◌, ◌||◌, Option, none, some, List, [], ◌∷◌, ◌==◌, if◌then◌else◌,
  Outcome, ok, out_of_range, runtime_error, ◌>>=◌, map_ok,
}
use networkinglab.EventLoop.{
  Result, success, timeout, exit, World, FdRule, EventLoop, service_count, serve_rules, set_up,
  is_incoming,
}

-- The revents of a pollfd: POLLERR, POLLNVAL, POLLHUP, POLLIN and POLLOUT.
pub record Revents : Type 0 where
  pub err : Bool
  pub nval : Bool
  pub hup : Bool
  pub readable : Bool
  pub writable : Bool

-- A rule with its pollfd: whether it asked for events.
abbrev pub Polled : Type 0 → Type 0
Polled S = FdRule S × Bool

-- revents & events.
unfoldable pub poll_ready : {S : Type 0} → Polled S → Revents → Bool
poll_ready p v = p.1 && (if is_incoming p.0.direction then v.readable else v.writable)

-- Is the file descriptor of the rule defunct?
unfoldable pub is_defunct : {S : Type 0} → Polled S → Revents → Bool
is_defunct p v = v.hup && ((p.1 && not (poll_ready p v)) || not (is_incoming p.0.direction))

abbrev pub rules : {S : Type 0} → List (Polled S) → List (FdRule S)
rules [] = []
rules (p ∷ ps) = p.0 ∷ rules ps

-- A ready rule is served. It must read, write or close its file descriptor, or lose its interest.
unfoldable pub serve_ready : {S : Type 0} → FdRule S → World S → Outcome (World S)
unfolding service_count
serve_ready r w = r.base.callback w >>= λ w'.
    if (service_count w r == service_count w' r) && (not (w'.fds r.fd).closed && r.base.interest w')
    then runtime_error
    else ok w'

-- The test for an error that the rule recovers from: POLLNVAL is none.
unfoldable pub try_recover : {S : Type 0} → FdRule S → Revents → World S → Outcome (Bool × World S)
try_recover r v w = elim v.nval [ true ↦ ok (false, w) | false ↦ r.recover w ]

-- The loop over the poll results: the rules that stay. getsockopt may throw, and prints otherwise.
unfoldable pub handle_polled :
    {S : Type 0}
    → (ℕ → Outcome (Unit {0}))
    → List (Polled S)
    → List Revents
    → World S
    → Outcome (List (FdRule S) × World S)
unfolding serve_ready try_recover is_defunct poll_ready
handle_polled getsockopt [] vs w = ok ([], w)
handle_polled getsockopt (p ∷ ps) [] w = out_of_range
handle_polled getsockopt (p ∷ ps) (v ∷ vs) w = elim (v.err || v.nval) [
  | true ↦ try_recover p.0 v w >>= λ t. elim t.0 [
    | true ↦ map_ok (λ s. (p.0 ∷ s.0, s.1)) (handle_polled getsockopt ps vs t.1)
    | false ↦ getsockopt p.0.fd >>= λ _. p.0.cancel t.1 >>= λ w'. handle_polled getsockopt ps vs w'
  ]
  | false ↦ elim (is_defunct p v) [
    | true ↦ p.0.cancel w >>= λ w'. handle_polled getsockopt ps vs w'
    | false ↦ elim (poll_ready p v) [
      | true ↦ map_ok (λ w'. (p.0 ∷ rules ps, w')) (serve_ready p.0 w)
      | false ↦ map_ok (λ s. (p.0 ∷ s.0, s.1)) (handle_polled getsockopt ps vs w)
    ]
  ]
]

-- something_to_poll.
unfoldable pub something_to_poll : {S : Type 0} → List (Polled S) → Bool
something_to_poll [] = false
something_to_poll (p ∷ ps) = p.1 || something_to_poll ps

-- wait_next_event after poll, which gives nothing at a timeout.
unfoldable pub after_poll :
    {S : Type 0}
    → (ℕ → Outcome (Unit {0}))
    → EventLoop S
    → List (Polled S)
    → World S
    → Option (List Revents)
    → Outcome (Result × EventLoop S × World S)
unfolding handle_polled
after_poll getsockopt l ps w none = ok (timeout, record l { fd_rules = rules ps }, w)
after_poll getsockopt l ps w (some vs) =
    map_ok (λ s. (success, record l { fd_rules = s.0 }, s.1)) (handle_polled getsockopt ps vs w)

-- wait_next_event with the pollfds.
unfoldable pub poll_or_exit :
    {S : Type 0}
    → (List (Polled S) → World S → Outcome (Option (List Revents)))
    → (ℕ → Outcome (Unit {0}))
    → EventLoop S
    → List (Polled S) × World S
    → Outcome (Result × EventLoop S × World S)
unfolding after_poll something_to_poll
poll_or_exit poll getsockopt l (ps, w) = elim (something_to_poll ps) [
  | false ↦ ok (exit, record l { fd_rules = rules ps }, w)
  | true ↦ poll ps w >>= λ v. after_poll getsockopt l ps w v
]

-- wait_next_event with the rules that have a file descriptor.
unfoldable pub poll_rules :
    {S : Type 0}
    → (List (Polled S) → World S → Outcome (Option (List Revents)))
    → (ℕ → Outcome (Unit {0}))
    → EventLoop S
    → World S
    → Outcome (Result × EventLoop S × World S)
unfolding set_up poll_or_exit
poll_rules poll getsockopt l w = set_up l.fd_rules w >>= poll_or_exit poll getsockopt l

-- EventLoop::wait_next_event.
unfoldable pub wait_next_event :
    {S : Type 0}
    → (List (Polled S) → World S → Outcome (Option (List Revents)))
    → (ℕ → Outcome (Unit {0}))
    → EventLoop S
    → World S
    → Outcome (Result × EventLoop S × World S)
unfolding serve_rules poll_rules
wait_next_event poll getsockopt l w = serve_rules l.non_fd_rules w >>= λ t. elim t.0 [
  | true ↦ ok (success, record l { non_fd_rules = t.1 }, t.2)
  | false ↦ poll_rules poll getsockopt (record l { non_fd_rules = t.1 }) t.2
]
