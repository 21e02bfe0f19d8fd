-- ===== src/Sender/Backoff.antt =====
-- TCPSender::tick of src/tcp_sender.cc, called again and again: exponential backoff.
use networkinglab.Base.{
  ℕ, zero, suc, ◌+◌, ◌*◌, ◌^◌, ◌≤◌, ◌<◌, ◌≡◌, refl, ap, sym, ◌∙◌, inr, Bool-cases, inl, List, [],
  ◌∷◌, ◌++◌, append-nil, append_assoc, length, replicate, ◌==◌, if◌then◌else◌, u64_mod, arith,
}
use native.Mathlib.Omega.{pow_step}
use networkinglab.Message.{TcpSenderMessage}
use networkinglab.Sender.{TcpSender, tick}
use networkinglab.Sender.Timing.{tick_waits, tick_resends}

-- tick is called once for each of the times.
abbrev pub ticks : TcpSender → List ℕ → TcpSender
ticks s [] = s
ticks s (ms ∷ rest) = ticks (tick s ms) rest

abbrev pub sum : List ℕ → ℕ
sum [] = 0
sum (ms ∷ rest) = ms + sum rest

-- A wait for the timer: the times of the ticks before it runs out, and that of the tick then.
abbrev pub Wait : Type 0
Wait = List ℕ × ℕ

-- All ticks of the waits, in order.
abbrev pub all_ticks : List Wait → List ℕ
all_ticks [] = []
all_ticks ((before, last) ∷ ws) = before ++ (last ∷ all_ticks ws)

-- The timeout after a retransmission.
abbrev pub next_rto : ℕ → ℕ → ℕ
next_rto window rto = if window == 0 then rto else rto * 2

-- With this window and timeout, each wait ends when the timer runs out, and no sooner.
abbrev pub AllExpire : ℕ → ℕ → List Wait → Type 0
AllExpire window rto [] = Unit {0}
AllExpire window rto ((before, last) ∷ ws) =
    (sum before < rto)
    × (rto ≤ sum before + last)
    × (sum before + last < u64_mod)
    × AllExpire window (next_rto window rto) ws

-- The sender with so much time on its timer.
abbrev at_time : TcpSender → ℕ → TcpSender
at_time s t = record s { timer = record { rto = s.timer.rto; time_passage = t } }

ticks-append : (s : TcpSender) (xs ys : List ℕ) → ticks s (xs ++ ys) ≡ ticks (ticks s xs) ys
ticks-append s [] ys = refl
ticks-append s (x ∷ xs) ys = ticks-append (tick s x) xs ys

ticks_wait :
    (s : TcpSender) (before : List ℕ) (t : ℕ)
    → t ≡ s.timer.time_passage + sum before
    → t < s.timer.rto
    → t < u64_mod
    → ticks s before ≡ at_time s t
ticks_wait s [] t e h w = let f : s.timer.time_passage ≡ t = omega (arith, e) in ap (at_time s) f
ticks_wait s (ms ∷ rest) t e h w =
    ap (λ u. ticks u rest) (tick_waits s ms (omega (arith, e, w)) (inr (omega (arith, e, h))))
    ∙ ticks_wait (at_time s (s.timer.time_passage + ms)) rest t (omega (arith, e)) h w

-- The sender after `k` retransmissions of a message.
abbrev pub backed_off : TcpSender → TcpSenderMessage → ℕ → TcpSender
backed_off s m k = record s {
  ready_to_send = s.ready_to_send ++ replicate k m;
  timer = record {
    rto = if s.window_size == 0 then s.timer.rto else s.timer.rto * 2 ^ k;
    time_passage = 0;
  };
  retransmissions = s.retransmissions + k;
}

doubled : (rto k : ℕ) → rto * 2 ^ suc k ≡ rto * 2 * 2 ^ k
doubled rto k = rw (pow_step 2 k) (omega arith)

le_doubled : (rto k : ℕ) → rto ≤ rto * 2 ^ k
le_doubled rto zero = omega arith
le_doubled rto (suc k) = omega (arith, doubled rto k, le_doubled (rto * 2) k)

undoubled : (window rto : ℕ) → rto ≡ (if window == 0 then rto else rto * 2 ^ 0)
undoubled window rto = elim (Bool-cases (window == 0)) [
  | inl e ↦ rw e refl
  | inr e ↦ rw e (omega arith)
]

next-le : (window rto k : ℕ) → rto * 2 ^ suc k < u64_mod → next_rto window rto * 2 ^ k < u64_mod
next-le window rto k h = elim (Bool-cases (window == 0)) [
  | inl e ↦ rw e (omega (arith, h, doubled rto k))
  | inr e ↦ rw e (omega (arith, h, doubled rto k))
]

next_doubled :
    (window rto k : ℕ)
    → (if window == 0 then next_rto window rto else next_rto window rto * 2 ^ k)
      ≡ (if window == 0 then rto else rto * 2 ^ suc k)
next_doubled window rto k = elim (Bool-cases (window == 0)) [
  | inl e ↦ rw e refl
  | inr e ↦ rw e (sym (doubled rto k))
]

-- The sender with other segments that are ready, and another timer.
abbrev state : TcpSender → List TcpSenderMessage → ℕ → ℕ → ℕ → TcpSender
state s ready rto passage n = record s {
  ready_to_send = ready;
  timer = record { rto = rto; time_passage = passage };
  retransmissions = n;
}

state-same :
    (s : TcpSender) {q q' : List TcpSenderMessage} {rto rto' passage passage' n n' : ℕ}
    → q ≡ q'
    → rto ≡ rto'
    → passage ≡ passage'
    → n ≡ n'
    → state s q rto passage n ≡ state s q' rto' passage' n'
state-same s e f g h = cc

-- The sender when one wait is over.
abbrev resent : TcpSender → TcpSenderMessage → TcpSender
resent s m =
    state s (s.ready_to_send ++ (m ∷ [])) (next_rto s.window_size s.timer.rto) 0
      (s.retransmissions + 1)

wait_over :
    (s : TcpSender) (m : TcpSenderMessage) (rest : List TcpSenderMessage) (before : List ℕ)
    (last : ℕ) (later : List ℕ)
    → s.outstanding ≡ m ∷ rest
    → s.timer.time_passage ≡ 0
    → s.timer.rto * 2 < u64_mod
    → s.retransmissions + 1 < u64_mod
    → sum before < s.timer.rto
    → s.timer.rto ≤ sum before + last
    → sum before + last < u64_mod
    → ticks s (before ++ (last ∷ later)) ≡ ticks (resent s m) later
wait_over s m rest before last later out start word count early due fits =
    ticks-append s before (last ∷ later)
    ∙ ap (λ u. ticks (tick u last) later)
        (ticks_wait s before (sum before) (omega (arith, start)) early (omega (arith, fits)))
    ∙ ap (λ u. ticks u later)
        (tick_resends (at_time s (sum before)) last m rest fits word count out due)

-- If a segment is outstanding and no time is on the timer, and ticks come in any number of waits,
-- each with ticks that leave the timer running and one at which it runs out, where the timeout of
-- the next wait is twice that of the one before unless the window is zero, and neither the
-- timeout, doubled as often as there are waits, nor the count of retransmissions, nor the time of
-- a wait reaches 2^64, then after all ticks the oldest outstanding segment has been sent again
-- once for each wait, each is counted as a retransmission, the timeout has been doubled as often,
-- or, where the window is zero, is as before, the timer is at zero, and nothing else has changed.
pub ticks_back_off :
    (s : TcpSender) (m : TcpSenderMessage) (rest : List TcpSenderMessage) (ws : List Wait)
    → s.outstanding ≡ m ∷ rest
    → s.timer.time_passage ≡ 0
    → s.timer.rto * 2 ^ length ws < u64_mod
    → s.retransmissions + length ws < u64_mod
    → AllExpire s.window_size s.timer.rto ws
    → ticks s (all_ticks ws) ≡ backed_off s m (length ws)
ticks_back_off s m rest [] out start word count x =
    state-same s (sym (append-nil s.ready_to_send)) (undoubled s.window_size s.timer.rto) start
      (omega arith)
ticks_back_off s m rest ((before, last) ∷ ws) out start word count x =
    let k = length ws in
    let double = doubled s.timer.rto k in
    wait_over s m rest before last (all_ticks ws) out start
      (omega (arith, double, word, le_doubled (s.timer.rto * 2) k)) (omega (arith, count)) x.0 x.1
      x.2
    ∙ ticks_back_off (resent s m) m rest ws out refl (next-le s.window_size s.timer.rto k word)
        (omega (arith, count)) x.3
    ∙ state-same s (append_assoc s.ready_to_send (m ∷ []) (replicate k m))
        (next_doubled s.window_size s.timer.rto k) refl (omega arith)
