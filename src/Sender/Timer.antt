-- ===== src/Sender/Timer.antt =====
-- RTOTimer of src/tcp_sender.hh.
use networkinglab.Base.{ℕ, Bool, ◌*◌, ◌%◌, leb, add64, u64_mod}

pub record RtoTimer : Type 0 where
  pub rto : ℕ
  pub time_passage : ℕ

unfoldable pub init : ℕ → RtoTimer
init initial_rto = record { rto = initial_rto; time_passage = 0 }

unfoldable pub start : RtoTimer → RtoTimer
start t = record t { time_passage = 0 }

unfoldable pub set_rto : RtoTimer → ℕ → RtoTimer
set_rto t current_rto = record t { rto = current_rto }

unfoldable pub tick : RtoTimer → ℕ → RtoTimer
tick t ms = record t { time_passage = add64 t.time_passage ms }

unfoldable pub is_expired : RtoTimer → Bool
is_expired t = leb t.rto t.time_passage

unfoldable pub double_rto : RtoTimer → RtoTimer
double_rto t = record t { rto = (t.rto * 2) % u64_mod }
