-- ===== src/EventLoop/Tests.antt =====
-- Runs of util/eventloop.cc, and the theorem at them.
use networkinglab.Base.{
  ◌≡◌, refl, ℕ, ◌-◌, ◌<◌, arith, true, false, not, [], ◌∷◌, inl, inr, ok, runtime_error, ◌==◌,
}
use networkinglab.Descriptor.{fresh}
use networkinglab.EventLoop.{
  incoming, exit, success, World, BasicRule, FdRule, EventLoop, serve, serve_rules,
}
use networkinglab.EventLoop.Polling.{wait_next_event}
use networkinglab.EventLoop.Keeping.{Kept, wait_next_event-Kept}
use networkinglab.EventLoop.Serving.{remaining, remaining_fd, wait_next_event-exits}

-- The state is a number that a rule counts down.
abbrev world : ℕ → World ℕ
world n = record { state = n; fds = fresh; cancelled = 7 ∷ [] }

abbrev counts_down : BasicRule ℕ
counts_down = record {
  handle = 1;
  category_id = 0;
  interest = λ w. not (w.state == 0);
  callback = λ w. ok (record w { state = w.state - 1 });
}

-- A rule that stays interested whatever its callback does.
abbrev busy : BasicRule ℕ
busy = record { handle = 7; category_id = 0; interest = λ w. true; callback = λ w. ok w }

abbrev reads : FdRule ℕ
reads = record {
  base = counts_down;
  fd = 3;
  direction = incoming;
  cancel = λ w. ok w;
  recover = λ w. ok (false, w);
}

abbrev event_loop : EventLoop ℕ
event_loop = record {
  rule_categories = [] ∷ [];
  fd_rules = reads ∷ [];
  non_fd_rules = busy ∷ counts_down ∷ [];
  next_handle = 8;
}

busy_wait : serve 128 busy false (world 0) ≡ runtime_error
unfolding serve
busy_wait = refl

-- The rule is served until it is not interested, and the cancelled one is erased.
counted_down :
    serve_rules (busy ∷ counts_down ∷ []) (world 2) ≡ ok (true, counts_down ∷ [], world 0)
unfolding serve_rules serve
counted_down = refl

wait_next_event-exits_example :
    wait_next_event (λ ps w. runtime_error) (λ fd. ok tt) event_loop (world 0)
    ≡ ok (
      exit,
      record event_loop {
        non_fd_rules = remaining (world 0) event_loop.non_fd_rules;
        fd_rules = remaining_fd (world 0) event_loop.fd_rules;
      },
      world 0,
    )
wait_next_event-exits_example =
    wait_next_event-exits (λ ps w. runtime_error) (λ fd. ok tt) event_loop (world 0)
      (inl refl, (inr refl, tt)) (inr refl, refl, tt)

-- The number stays below three, whatever the rules do.
abbrev Small : World ℕ → Type 0
Small w = w.state < 3

abbrev AnyTwo : World ℕ → World ℕ → Type 0
AnyTwo v w = Unit {0}

counted :
    wait_next_event (λ ps w. runtime_error) (λ fd. ok tt) event_loop (world 2)
    ≡ ok (success, record event_loop { non_fd_rules = counts_down ∷ [] }, world 0)
unfolding wait_next_event serve_rules serve
counted = refl

wait_next_event-Kept_example :
    Kept Small AnyTwo
      (λ w. tt)
      (λ u v w h k. tt)
      (record event_loop { non_fd_rules = counts_down ∷ [] })
      (world 0)
wait_next_event-Kept_example =
    wait_next_event-Kept Small AnyTwo (λ w. tt) (λ u v w h k. tt) (λ fd. ok tt)
      (λ ps w. runtime_error) event_loop (record event_loop { non_fd_rules = counts_down ∷ [] })
      (world 2) (world 0) success
      (
        (λ w e h. h, (λ w e h. omega arith, tt)),
        ((λ u w e t h. omega arith, λ w h. (h, tt), λ w h. (h, tt)), tt),
        omega arith,
      )
      counted
