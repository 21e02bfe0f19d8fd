-- ===== src/EventLoop.antt =====
-- util/eventloop.{hh,cc}: rules that wait for events. What the callbacks can touch is a World: the
-- state of the program, of each file descriptor, and the rules that have been cancelled, by the number
-- that stands for their handle. poll and getsockopt are arguments, and callbacks add no rules.
pub mod Polling
pub mod Serving
pub mod Keeping
mod Tests
use networkinglab.Base.{
  ℕ, zero, suc, ◌+◌, ◌-◌, Bool, true, false, not, ◌&&◌, ◌||◌, Option, none, some, List, [], ◌∷◌,
  ◌++◌, length, leb, ltb, ◌==◌, if◌then◌else◌, Outcome, ok, out_of_range, runtime_error, ◌>>=◌,
  map_ok,
}
use networkinglab.Descriptor.{FdWrapper}

-- Direction::In and Direction::Out.
pub data Direction : Type 0 where
  incoming outgoing : Direction

-- EventLoop::Result.
pub data Result : Type 0 where
  success timeout exit : Result

pub record World (S : Type 0) : Type 0 where
  pub state : S
  pub fds : ℕ → FdWrapper
  pub cancelled : List ℕ

-- A call has changed a file descriptor.
abbrev pub put_fd : {S : Type 0} → ℕ → FdWrapper → World S → World S
put_fd fd d w = record w { fds = λ k. if k == fd then d else w.fds k }

-- Is the result Result::Exit?
abbrev pub is_exit : Result → Bool
is_exit success = false
is_exit timeout = false
is_exit exit = true

-- EventLoop::BasicRule.
pub record BasicRule (S : Type 0) : Type 0 where
  pub handle : ℕ
  pub category_id : ℕ
  pub interest : World S → Bool
  pub callback : World S → Outcome (World S)

-- EventLoop::FDRule.
pub record FdRule (S : Type 0) : Type 0 where
  pub base : BasicRule S
  pub fd : ℕ
  pub direction : Direction
  pub cancel : World S → Outcome (World S)
  pub recover : World S → Outcome (Bool × World S)

-- EventLoop, with the next handle.
pub record EventLoop (S : Type 0) : Type 0 where
  pub rule_categories : List (List ℕ)
  pub fd_rules : List (FdRule S)
  pub non_fd_rules : List (BasicRule S)
  pub next_handle : ℕ

-- EventLoop::EventLoop, and the capacity that it reserves.
unfoldable pub init : {S : Type 0} → EventLoop S
init = record { rule_categories = []; fd_rules = []; non_fd_rules = []; next_handle = 0 }

abbrev pub capacity : ℕ
capacity = 64

-- EventLoop::add_category.
unfoldable pub add_category : {S : Type 0} → EventLoop S → List ℕ → Outcome (ℕ × EventLoop S)
add_category l name =
    if leb capacity (length l.rule_categories)
    then runtime_error
    else ok
        (length l.rule_categories, record l { rule_categories = l.rule_categories ++ (name ∷ []) })

-- EventLoop::add_rule with a file descriptor. The handle of the rule is given back.
unfoldable pub add_fd_rule :
    {S : Type 0}
    → EventLoop S
    → ℕ
    → ℕ
    → Direction
    → (World S → Outcome (World S))
    → (World S → Bool)
    → (World S → Outcome (World S))
    → (World S → Outcome (Bool × World S))
    → Outcome (ℕ × EventLoop S)
add_fd_rule l category_id fd direction callback interest cancel recover =
    if leb (length l.rule_categories) category_id
    then out_of_range
    else ok (
      l.next_handle,
      record l {
        fd_rules =
            l.fd_rules
            ++ (record {
              base = record {
                handle = l.next_handle;
                category_id = category_id;
                interest = interest;
                callback = callback;
              };
              fd = fd;
              direction = direction;
              cancel = cancel;
              recover = recover;
            }
                ∷ []);
        next_handle = l.next_handle + 1;
      },
    )

-- add_rule with a name, which is only printed, and is empty here; the default of recover is used.
unfoldable pub add_named :
    {S : Type 0}
    → EventLoop S
    → ℕ
    → Direction
    → (World S → Outcome (World S))
    → (World S → Bool)
    → (World S → Outcome (World S))
    → Outcome (EventLoop S)
unfolding add_category add_fd_rule
add_named l fd direction callback interest cancel = add_category l [] >>= λ c.
    map_ok (λ r. r.1)
      (add_fd_rule c.1 c.0 fd direction callback interest cancel (λ w. ok (false, w)))

-- EventLoop::add_rule without a file descriptor.
unfoldable pub add_rule :
    {S : Type 0}
    → EventLoop S
    → ℕ
    → (World S → Outcome (World S))
    → (World S → Bool)
    → Outcome (ℕ × EventLoop S)
add_rule l category_id callback interest =
    if leb (length l.rule_categories) category_id
    then out_of_range
    else ok (
      l.next_handle,
      record l {
        non_fd_rules =
            l.non_fd_rules
            ++ (record {
              handle = l.next_handle;
              category_id = category_id;
              interest = interest;
              callback = callback;
            }
                ∷ []);
        next_handle = l.next_handle + 1;
      },
    )

-- RuleHandle::cancel.
unfoldable pub cancel_rule : {S : Type 0} → ℕ → World S → World S
cancel_rule handle w = record w { cancelled = handle ∷ w.cancelled }

abbrev pub has_handle : ℕ → List ℕ → Bool
has_handle handle [] = false
has_handle handle (h ∷ hs) = (h == handle) || has_handle handle hs

-- cancel_requested.
abbrev pub cancel_requested : {S : Type 0} → World S → BasicRule S → Bool
cancel_requested w r = has_handle r.handle w.cancelled

-- FDRule::service_count.
unfoldable pub service_count : {S : Type 0} → World S → FdRule S → ℕ
service_count w r = elim r.direction [
  | incoming ↦ (w.fds r.fd).read_count
  | outgoing ↦ (w.fds r.fd).write_count
]

-- The loop that serves one rule, with so many iterations left before it is a busy wait.
unfoldable pub serve : {S : Type 0} → ℕ → BasicRule S → Bool → World S → Outcome (Bool × World S)
serve zero r rule_fired w = if r.interest w then runtime_error else ok (rule_fired, w)
serve (suc n) r rule_fired w = elim (r.interest w) [
  | true ↦ r.callback w >>= λ w'. serve n r true w'
  | false ↦ ok (rule_fired, w)
]

-- The first loop of wait_next_event: the first rule that is interested is served, and rules before
-- it that have been cancelled are erased.
unfoldable pub serve_rules :
    {S : Type 0} → List (BasicRule S) → World S → Outcome (Bool × List (BasicRule S) × World S)
unfolding serve
serve_rules [] w = ok (false, [], w)
serve_rules (r ∷ rs) w = elim (cancel_requested w r) [
  | true ↦ serve_rules rs w
  | false ↦ serve 128 r false w >>= λ s. elim s.0 [
    | true ↦ ok (true, r ∷ rs, s.1)
    | false ↦ map_ok (λ t. (t.0, r ∷ t.1, t.2)) (serve_rules rs s.1)
  ]
]

abbrev pub is_incoming : Direction → Bool
is_incoming incoming = true
is_incoming outgoing = false

-- The loop that sets up the pollfds: each rule that stays, and whether it is interested.
unfoldable pub set_up :
    {S : Type 0} → List (FdRule S) → World S → Outcome (List (FdRule S × Bool) × World S)
set_up [] w = ok ([], w)
set_up (r ∷ rs) w = elim (cancel_requested w r.base) [
  | true ↦ set_up rs w
  | false ↦ elim ((is_incoming r.direction && (w.fds r.fd).eof) || (w.fds r.fd).closed) [
    | true ↦ r.cancel w >>= λ w'. set_up rs w'
    | false ↦ map_ok (λ t. ((r, r.base.interest w) ∷ t.0, t.1)) (set_up rs w)
  ]
]
