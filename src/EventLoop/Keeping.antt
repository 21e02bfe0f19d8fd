-- ===== src/EventLoop/Keeping.antt =====
-- wait_next_event of util/eventloop.cc: what every callback keeps, it keeps.
use networkinglab.Base.{
  ℕ, zero, suc, ◌≡◌, Bool, true, false, Option, none, some, List, [], ◌∷◌, Outcome, ok, ◌>>=◌,
  Bool-cases, inl, inr, ◌||◌, ◌&&◌, not, ◌==◌, arith, Holds, Holds->>=, Holds-map, Holds-ok,
  Holds-Unit,
}
use networkinglab.EventLoop.{
  Result, success, World, BasicRule, FdRule, EventLoop, cancel_requested, is_incoming, serve,
  serve_rules, set_up, service_count,
}
use networkinglab.EventLoop.Polling.{
  Revents, Polled, rules, something_to_poll, serve_ready, try_recover, handle_polled, is_defunct,
  poll_ready, after_poll, poll_or_exit, poll_rules, wait_next_event,
}

-- `P` is what is kept. `T` relates a world to those that come of it when rules are cancelled or
-- recover, which is all that happens between the test of a rule's interest and its callback.
module _ {S : Type 0} (P : World S → Type 0) (T : World S → World S → Type 0)
    (T_refl : (w : World S) → T w w) (T_trans : (u v w : World S) → T u v → T v w → T u w) where
  -- A callback that is called where the rule is interested keeps the property, if it returns.
  abbrev pub Keeps : BasicRule S → Type 0
  Keeps r = (w : World S) → r.interest w ≡ true → P w → Holds P (r.callback w)

  abbrev Aside : World S → World S → Type 0
  Aside w w' = P w' × T w w'

  abbrev pub KeepsFd : FdRule S → Type 0
  KeepsFd r =
      ((v w : World S) → r.base.interest v ≡ true → T v w → P w → Holds P (r.base.callback w))
      × ((w : World S) → P w → Holds (Aside w) (r.cancel w))
      × ((w : World S) → P w → Holds (λ t. Aside w t.1) (r.recover w))

  abbrev pub AllKeep : List (BasicRule S) → Type 0
  AllKeep [] = Unit {0}
  AllKeep (r ∷ rs) = Keeps r × AllKeep rs

  abbrev pub AllKeepFd : List (FdRule S) → Type 0
  AllKeepFd [] = Unit {0}
  AllKeepFd (r ∷ rs) = KeepsFd r × AllKeepFd rs

  -- All rules of the event loop keep the property, and it holds.
  abbrev pub Kept : EventLoop S → World S → Type 0
  Kept l w = AllKeep l.non_fd_rules × AllKeepFd l.fd_rules × P w

  serve-Holds :
      (n : ℕ) (r : BasicRule S) (rule_fired : Bool) (w : World S)
      → Keeps r
      → P w
      → Holds (λ t. P t.1) (serve n r rule_fired w)
  unfolding serve
  serve-Holds zero r rule_fired w k h = elim (Bool-cases (r.interest w)) [
    | inl e ↦ rw (serve, e) tt
    | inr e ↦ rw (serve, e) h
  ]
  serve-Holds (suc n) r rule_fired w k h = elim (Bool-cases (r.interest w)) [
    | inl e ↦
        rw (serve, e)
          (Holds->>= P (λ t. P t.1) (r.callback w) (serve n r true) (k w e h)
            (λ w' h'. serve-Holds n r true w' k h'))
    | inr e ↦ rw (serve, e) h
  ]

  abbrev Served : Bool × List (BasicRule S) × World S → Type 0
  Served t = AllKeep t.1 × P t.2

  Served-Holds :
      (r : BasicRule S) (rs : List (BasicRule S))
      → AllKeep (r ∷ rs)
      → ((w : World S) → P w → Holds Served (serve_rules rs w))
      → (fired : Bool) (w : World S) → P w
      → Holds Served (elim fired as (λ _. Outcome (Bool × List (BasicRule S) × World S)) [
        | true ↦ ok (true, r ∷ rs, w)
        | false ↦ serve_rules rs w >>= λ t. ok (t.0, r ∷ t.1, t.2)
      ])
  Served-Holds r rs k ih true w h = (k, h)
  Served-Holds r rs k ih false w h =
      Holds->>= Served Served (serve_rules rs w) _ (ih w h) (λ t g. ((k.0, g.0), g.1))

  serve_rules-Holds :
      (rs : List (BasicRule S)) (w : World S) → AllKeep rs → P w → Holds Served (serve_rules rs w)
  unfolding serve_rules
  serve_rules-Holds [] w k h = (tt, h)
  serve_rules-Holds (r ∷ rs) w k h = elim (Bool-cases (cancel_requested w r)) [
    | inl e ↦ rw (serve_rules, e) (serve_rules-Holds rs w k.1 h)
    | inr e ↦
        rw (serve_rules, e)
          (Holds->>= (λ t. P t.1) Served (serve 128 r false w) _ (serve-Holds 128 r false w k.0 h)
            (λ s h'. Served-Holds r rs k (λ v g. serve_rules-Holds rs v k.1 g) s.0 s.1 h'))
  ]

  -- A rule that has asked for events was interested, and rules have only been cancelled since.
  abbrev Ready : World S → Polled S → Type 0
  Ready w p = KeepsFd p.0 × (p.1 ≡ true → (v : World S) × (p.0.base.interest v ≡ true) × T v w)

  abbrev AllReady : World S → List (Polled S) → Type 0
  AllReady w [] = Unit {0}
  AllReady w (p ∷ ps) = Ready w p × AllReady w ps

  AllReady-on : (w w' : World S) (ps : List (Polled S)) → T w w' → AllReady w ps → AllReady w' ps
  AllReady-on w w' [] t k = tt
  AllReady-on w w' (p ∷ ps) t k = (
    (k.0.0, λ e. let (v, d, u) = k.0.1 e in (v, d, T_trans v w w' u t)),
    AllReady-on w w' ps t k.1,
  )

  rules-AllKeep : (w : World S) (ps : List (Polled S)) → AllReady w ps → AllKeepFd (rules ps)
  rules-AllKeep w [] k = tt
  rules-AllKeep w (p ∷ ps) k = (k.0.0, rules-AllKeep w ps k.1)

  abbrev SetUp : World S → List (Polled S) × World S → Type 0
  SetUp w t = AllReady t.1 t.0 × P t.1 × T w t.1

  set_up-Holds :
      (rs : List (FdRule S)) (w : World S) → AllKeepFd rs → P w → Holds (SetUp w) (set_up rs w)
  unfolding set_up
  set_up-Holds [] w k h = (tt, h, T_refl w)
  set_up-Holds (r ∷ rs) w k h = elim (Bool-cases (cancel_requested w r.base)) [
    | inl e ↦ rw (set_up, e) (set_up-Holds rs w k.1 h)
    | inr e ↦
        elim (Bool-cases ((is_incoming r.direction && (w.fds r.fd).eof) || (w.fds r.fd).closed)) [
          | inl d ↦
              rw (set_up, e, d)
                (Holds->>= (Aside w) (SetUp w) (r.cancel w) (set_up rs) (k.0.1 w h) (λ v g.
                  Holds-map (SetUp v) (SetUp w) (set_up rs v) (set_up-Holds rs v k.1 g.0)
                    (λ t f. (f.0, f.1, T_trans w v t.1 g.1 f.2))))
          | inr d ↦
              rw (set_up, e, d)
                (Holds->>= (SetUp w) (SetUp w) (set_up rs w) _ (set_up-Holds rs w k.1 h)
                  (λ t g. (((k.0, λ c. (w, c, g.2)), g.0), g.1, g.2)))
        ]
  ]

  abbrev Handled : List (FdRule S) × World S → Type 0
  Handled t = AllKeepFd t.0 × P t.1

  serve_ready-Holds :
      (r : FdRule S) (w : World S) → Holds P (r.base.callback w) → Holds P (serve_ready r w)
  unfolding serve_ready
  serve_ready-Holds r w h = Holds->>= P P (r.base.callback w) _ h (λ w' h'.
      elim (Bool-cases (
        (service_count w r == service_count w' r)
        && (not (w'.fds r.fd).closed && r.base.interest w'))) [ inl e ↦ rw e tt | inr e ↦ rw e h' ])

  try_recover-Holds :
      (r : FdRule S) (v : Revents) (w : World S)
      → KeepsFd r
      → P w
      → Holds (λ t. Aside w t.1) (try_recover r v w)
  unfolding try_recover
  try_recover-Holds r v w k h = elim (Bool-cases v.nval) [
    | inl e ↦ rw e (h, T_refl w)
    | inr e ↦ rw e (k.2 w h)
  ]

  module _ (getsockopt : ℕ → Outcome (Unit {0})) where
    -- What handle_polled does to the rest, from whatever world comes of `w` by cancelling.
    abbrev Rest : World S → List (Polled S) → List Revents → Type 0
    Rest w ps vs = (u : World S) → Aside w u → Holds Handled (handle_polled getsockopt ps vs u)

    -- A rule that stays, and what becomes of the rest.
    stays-Holds :
        (r : FdRule S) (m : Outcome (List (FdRule S) × World S))
        → KeepsFd r
        → Holds Handled m
        → Holds Handled (m >>= λ s. ok (r ∷ s.0, s.1))
    stays-Holds r m k h = Holds->>= Handled Handled m _ h (λ s g. ((k, g.0), g.1))

    cancelled-Holds :
        (p : Polled S) (ps : List (Polled S)) (vs : List Revents) (w u : World S)
        → KeepsFd p.0
        → Rest w ps vs
        → Aside w u
        → Holds Handled (p.0.cancel u >>= λ w'. handle_polled getsockopt ps vs w')
    cancelled-Holds p ps vs w u k ih h =
        Holds->>= (Aside u) Handled (p.0.cancel u) _ (k.1 u h.0)
          (λ w' g. ih w' (g.0, T_trans w u w' h.1 g.1))

    recovered-Holds :
        (p : Polled S) (ps : List (Polled S)) (vs : List Revents) (w : World S)
        → KeepsFd p.0
        → Rest w ps vs
        → (recovers : Bool) (u : World S) → Aside w u
        → Holds Handled (elim recovers as (λ _. Outcome (List (FdRule S) × World S)) [
          | true ↦ handle_polled getsockopt ps vs u >>= λ s. ok (p.0 ∷ s.0, s.1)
          | false ↦
              getsockopt p.0.fd >>= λ _. p.0.cancel u >>= λ w'. handle_polled getsockopt ps vs w'
        ])
    recovered-Holds p ps vs w k ih true u h = stays-Holds p.0 _ k (ih u h)
    recovered-Holds p ps vs w k ih false u h =
        Holds->>= (λ t. Unit {0}) Handled (getsockopt p.0.fd) _ (Holds-Unit (getsockopt p.0.fd))
          (λ t y. cancelled-Holds p ps vs w u k ih h)

    called-Holds :
        (p : Polled S) (v : Revents) (w : World S)
        → poll_ready p v ≡ true
        → Ready w p
        → P w
        → Holds P (serve_ready p.0 w)
    unfolding poll_ready
    called-Holds p v w e k h =
        let (u, d, t) = k.1 (ground arith) in serve_ready-Holds p.0 w (k.0.0 u w d t h)

    handle_polled-Holds :
        (ps : List (Polled S)) (vs : List Revents) (w : World S)
        → AllReady w ps
        → P w
        → Holds Handled (handle_polled getsockopt ps vs w)
    unfolding handle_polled
    handle_polled-Holds [] vs w k h = (tt, h)
    handle_polled-Holds (p ∷ ps) [] w k h = tt
    handle_polled-Holds (p ∷ ps) (v ∷ vs) w k h = elim (Bool-cases (v.err || v.nval)) [
      | inl e ↦
          rw (handle_polled, e)
            (Holds->>= (λ t. Aside w t.1) Handled (try_recover p.0 v w) _
              (try_recover-Holds p.0 v w k.0.0 h)
              (λ t g.
                recovered-Holds p ps vs w k.0.0
                  (λ u f. handle_polled-Holds ps vs u (AllReady-on w u ps f.1 k.1) f.0) t.0 t.1 g))
      | inr e ↦ elim (Bool-cases (is_defunct p v)) [
        | inl d ↦
            rw (handle_polled, e, d)
              (cancelled-Holds p ps vs w w k.0.0
                (λ u f. handle_polled-Holds ps vs u (AllReady-on w u ps f.1 k.1) f.0) (h, T_refl w))
        | inr d ↦ elim (Bool-cases (poll_ready p v)) [
          | inl c ↦
              rw (handle_polled, e, d, c)
                (Holds->>= P Handled (serve_ready p.0 w) _ (called-Holds p v w c k.0 h)
                  (λ u g. ((k.0.0, rules-AllKeep w ps k.1), g)))
          | inr c ↦
              rw (handle_polled, e, d, c)
                (stays-Holds p.0 _ k.0.0 (handle_polled-Holds ps vs w k.1 h))
        ]
      ]
    ]

    module _ (poll : List (Polled S) → World S → Outcome (Option (List Revents))) where
      abbrev Done : Result × EventLoop S × World S → Type 0
      Done t = Kept t.1 t.2

      after_poll-Holds :
          (l : EventLoop S) (ps : List (Polled S)) (w : World S) (v : Option (List Revents))
          → AllKeep l.non_fd_rules
          → AllReady w ps
          → P w
          → Holds Done (after_poll getsockopt l ps w v)
      unfolding after_poll
      after_poll-Holds l ps w none a k h = (a, rules-AllKeep w ps k, h)
      after_poll-Holds l ps w (some vs) a k h =
          Holds->>= Handled Done (handle_polled getsockopt ps vs w) _
            (handle_polled-Holds ps vs w k h) (λ s g. (a, g.0, g.1))

      poll_or_exit-Holds :
          (l : EventLoop S) (t : List (Polled S) × World S)
          → AllKeep l.non_fd_rules
          → AllReady t.1 t.0
          → P t.1
          → Holds Done (poll_or_exit poll getsockopt l t)
      unfolding poll_or_exit
      poll_or_exit-Holds l (ps, w) a k h = elim (Bool-cases (something_to_poll ps)) [
        | inr e ↦ rw (poll_or_exit, e) (a, rules-AllKeep w ps k, h)
        | inl e ↦
            rw (poll_or_exit, e)
              (Holds->>= (λ u. Unit {0}) Done (poll ps w) _ (Holds-Unit (poll ps w))
                (λ v u. after_poll-Holds l ps w v a k h))
      ]

      after_serving :
          (l : EventLoop S) (rs : List (BasicRule S))
          → AllKeepFd l.fd_rules
          → (fired : Bool) (w : World S) → AllKeep rs
          → P w
          → Holds Done (elim fired as (λ _. Outcome (Result × EventLoop S × World S)) [
            | true ↦ ok (success, record l { non_fd_rules = rs }, w)
            | false ↦ poll_rules poll getsockopt (record l { non_fd_rules = rs }) w
          ])
      unfolding poll_rules
      after_serving l rs b true w a h = (a, b, h)
      after_serving l rs b false w a h =
          Holds->>= (SetUp w) Done (set_up l.fd_rules w) _ (set_up-Holds l.fd_rules w b h)
            (λ t g. poll_or_exit-Holds (record l { non_fd_rules = rs }) t a g.0 g.1)

      pub wait_next_event-Holds :
          (l : EventLoop S) (w : World S)
          → Kept l w
          → Holds Done (wait_next_event poll getsockopt l w)
      unfolding wait_next_event
      wait_next_event-Holds l w k =
          Holds->>= Served Done (serve_rules l.non_fd_rules w) _
            (serve_rules-Holds l.non_fd_rules w k.0 k.2)
            (λ t g. after_serving l t.1 k.1 t.0 t.2 g.0 g.1)

      -- A property of the world is kept by wait_next_event, whatever poll and getsockopt give, if
      -- it holds before, and each callback of a rule keeps it where the rule is interested or, for
      -- a rule with a file descriptor, was so in a world from which only cancelling and recovering
      -- have led to this one, as a reflexive and transitive relation says that every cancel and
      -- recover function respects, which also keep the property; the rules that are left still
      -- keep it.
      pub wait_next_event-Kept :
          (l l' : EventLoop S) (w w' : World S) (result : Result)
          → Kept l w
          → wait_next_event poll getsockopt l w ≡ ok (result, l', w')
          → Kept l' w'
      wait_next_event-Kept l l' w w' result k e = Holds-ok Done (wait_next_event-Holds l w k) e
