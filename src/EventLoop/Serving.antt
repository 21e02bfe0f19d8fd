-- ===== src/EventLoop/Serving.antt =====
-- wait_next_event of util/eventloop.cc: which rules are served.
use networkinglab.Base.{
  ℕ, zero, suc, ◌∙◌, ◌≡◌, refl, ap, Bool, true, false, Option, List, [], ◌∷◌, Outcome, ok, ◌>>=◌,
  Bool-cases, inl, inr, ◌⊎◌, ◌||◌, ◌&&◌,
}
use networkinglab.EventLoop.{
  exit, World, BasicRule, FdRule, EventLoop, cancel_requested, is_incoming, serve, serve_rules,
  set_up,
}
use networkinglab.EventLoop.Polling.{
  Revents, Polled, rules, something_to_poll, poll_or_exit, poll_rules, wait_next_event,
}

-- The rule has been cancelled, or is not interested.
abbrev pub Resting : {S : Type 0} → World S → BasicRule S → Type 0
Resting w r = (cancel_requested w r ≡ true) ⊎ (r.interest w ≡ false)

abbrev pub AllRest : {S : Type 0} → World S → List (BasicRule S) → Type 0
AllRest w [] = Unit {0}
AllRest w (r ∷ rs) = Resting w r × AllRest w rs

-- A rule with a file descriptor rests too, and the descriptor is open and not at its end.
abbrev pub AllIdle : {S : Type 0} → World S → List (FdRule S) → Type 0
AllIdle w [] = Unit {0}
AllIdle w (r ∷ rs) =
    Resting w r.base
    × (((is_incoming r.direction && (w.fds r.fd).eof) || (w.fds r.fd).closed) ≡ false)
    × AllIdle w rs

-- The rules that have not been cancelled.
abbrev pub remaining : {S : Type 0} → World S → List (BasicRule S) → List (BasicRule S)
remaining w [] = []
remaining w (r ∷ rs) = elim (cancel_requested w r) [
  | true ↦ remaining w rs
  | false ↦ r ∷ remaining w rs
]

abbrev pub remaining_fd : {S : Type 0} → World S → List (FdRule S) → List (FdRule S)
remaining_fd w [] = []
remaining_fd w (r ∷ rs) = elim (cancel_requested w r.base) [
  | true ↦ remaining_fd w rs
  | false ↦ r ∷ remaining_fd w rs
]

serve-rest :
    {S : Type 0} (n : ℕ) (r : BasicRule S) (rule_fired : Bool) (w : World S)
    → r.interest w ≡ false
    → serve n r rule_fired w ≡ ok (rule_fired, w)
unfolding serve
serve-rest zero r rule_fired w h = rw (serve, h) refl
serve-rest (suc n) r rule_fired w h = rw (serve, h) refl

serve_rules-rest :
    {S : Type 0} (rs : List (BasicRule S)) (w : World S)
    → AllRest w rs
    → serve_rules rs w ≡ ok (false, remaining w rs, w)
unfolding serve_rules
serve_rules-rest [] w h = refl
serve_rules-rest (r ∷ rs) w (h, k) = elim (Bool-cases (cancel_requested w r)) [
  | inl c ↦ rw (serve_rules, remaining, c) (serve_rules-rest rs w k)
  | inr c ↦ elim h [
    | inl d ↦ cc
    | inr d ↦
        rw (serve_rules, remaining, c, serve-rest 128 r false w d, serve_rules-rest rs w k) refl
  ]
]

-- None of the rules asks for events.
set_up-rest :
    {S : Type 0} (rs : List (FdRule S)) (w : World S)
    → AllIdle w rs
    → (ps : List (Polled S)) × (set_up rs w ≡ ok (ps, w))
      × (rules ps ≡ remaining_fd w rs)
      × (something_to_poll ps ≡ false)
unfolding set_up something_to_poll
set_up-rest [] w h = ([], refl, refl, refl)
set_up-rest (r ∷ rs) w (h, o, k) =
    let (ps, e, f, g) = set_up-rest rs w k in
    elim (Bool-cases (cancel_requested w r.base)) [
      | inl c ↦ (ps, rw (set_up, c) e, rw (remaining_fd, c) f, g)
      | inr c ↦ elim h [
        | inl d ↦ cc
        | inr d ↦ (
          (r, r.base.interest w) ∷ ps,
          rw (set_up, c, o, e) refl,
          rw (remaining_fd, c) (ap (λ l. r ∷ l) f),
          rw (something_to_poll, d) g,
        )
      ]
    ]

poll_rules-exit :
    {S : Type 0} (poll : List (Polled S) → World S → Outcome (Option (List Revents)))
    (getsockopt : ℕ → Outcome (Unit {0})) (l : EventLoop S) (w w' : World S) (ps : List (Polled S))
    → set_up l.fd_rules w ≡ ok (ps, w')
    → something_to_poll ps ≡ false
    → poll_rules poll getsockopt l w ≡ ok (exit, record l { fd_rules = rules ps }, w')
unfolding poll_rules poll_or_exit
poll_rules-exit poll getsockopt l w w' ps e g =
    ap (λ m. m >>= poll_or_exit poll getsockopt l) e ∙ rw (poll_or_exit, g) refl

-- If each rule has been cancelled or is not interested, and no rule with a file descriptor has one
-- that is closed or, for reading, at its end, then wait_next_event exits without calling poll or
-- any callback, whatever poll would give: it erases the rules that have been cancelled, keeps the
-- others in order, and changes nothing else.
pub wait_next_event-exits :
    {S : Type 0} (poll : List (Polled S) → World S → Outcome (Option (List Revents)))
    (getsockopt : ℕ → Outcome (Unit {0})) (l : EventLoop S) (w : World S)
    → AllRest w l.non_fd_rules
    → AllIdle w l.fd_rules
    → wait_next_event poll getsockopt l w
      ≡ ok (
        exit,
        record l {
          non_fd_rules = remaining w l.non_fd_rules;
          fd_rules = remaining_fd w l.fd_rules;
        },
        w,
      )
unfolding wait_next_event
wait_next_event-exits poll getsockopt l w h k =
    let (ps, e, f, g) = set_up-rest l.fd_rules w k in
    let kept = record l { non_fd_rules = remaining w l.non_fd_rules } in
    rw (wait_next_event, serve_rules-rest l.non_fd_rules w h)
      (poll_rules-exit poll getsockopt kept w w ps e g
        ∙ ap (λ rs. ok (exit, record kept { fd_rules = rs }, w)) f)
