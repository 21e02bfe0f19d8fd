-- ===== src/Sender/Acks.antt =====
-- TCPSender::receive of src/tcp_sender.cc: the outstanding segments and the acknowledgments.
use networkinglab.Base.{
  u16_mod, ok, ℕ, ◌+◌, ◌-◌, ◌≤◌, ◌<◌, ◌^◌, ◌≡◌, refl, ap, sym, subst, subst₂, subst₃, ◌∙◌, ◌⊎◌, inl,
  inr, Bool-cases, some, List, [], ◌∷◌, ◌++◌, leb, leb→le, leb→gt, add64, sub64, add64-eq, sub64-eq,
  u16_mod, u32_mod, u64_mod, ok, arith, ge→ltb, lt→ltb,
}
use networkinglab.Wrap.{Wrap32, wrap, unwrap}
use networkinglab.Wrap.Laws.{dist, unwrap-wrap}
use networkinglab.Message.{TcpSenderMessage, TcpReceiverMessage, sequence_length}
use networkinglab.Stream.Invariant.{IsValid}
use networkinglab.Sender.{
  TcpSender, available_window, push, acknowledge, reset_backoff, take_ack, receive,
}
use networkinglab.Sender.Timer
use networkinglab.Sender.Pushing.{Chain, Sent, push-Sends, available_window_lt}
use networkinglab.Stream.{ByteStream}

-- The outstanding segments take up exactly the numbers in flight, the last ones that were sent.
pub record Tracks (s : TcpSender) : Type 0 where
  pub zero_point : s.isn < u32_mod
  pub below : s.seqnums_in_flight ≤ s.seqnums_sent
  pub near : s.seqnums_in_flight < 2 ^ 31
  pub word : s.seqnums_sent + u32_mod ≤ u64_mod
  pub chain : Chain s.isn (s.seqnums_sent - s.seqnums_in_flight) s.seqnums_sent s.outstanding

-- The first segment of `ms`, which begins at `a`, ends behind `ackno`.
abbrev pub Unfinished : ℕ → ℕ → List TcpSenderMessage → Type 0
Unfinished ackno a [] = Unit {0}
Unfinished ackno a (m ∷ ms) = ackno < a + sequence_length m

-- `ms`, from `a` to the last number sent, has been split at `cut`: what ends at or before the ackno
-- is gone, and the rest is outstanding in `t`.
pub record Split (ackno : ℕ) (s : TcpSender) (a cut : ℕ) (ms gone : List TcpSenderMessage)
    (t : TcpSender) : Type 0 where
  pub parts : ms ≡ gone ++ t.outstanding
  pub before : Chain s.isn a cut gone
  pub after : Chain s.isn cut s.seqnums_sent t.outstanding
  pub flight : t.seqnums_in_flight + cut ≡ s.seqnums_sent
  pub acked : (cut ≡ a) ⊎ (cut ≤ ackno)
  pub open_ : Unfinished ackno cut t.outstanding
  pub same_isn : t.isn ≡ s.isn
  pub same_sent : t.seqnums_sent ≡ s.seqnums_sent
  pub same_window : t.window_size ≡ s.window_size
  pub same_ready : t.ready_to_send ≡ s.ready_to_send

Chain-le : (isn : Wrap32) (a b : ℕ) (ms : List TcpSenderMessage) → Chain isn a b ms → a ≤ b
Chain-le isn a b [] c = omega arith
Chain-le isn a b (m ∷ ms) c = omega (arith, Chain-le isn (a + sequence_length m) b ms c.2)

nothing-Split :
    (ackno a : ℕ) (s : TcpSender) (ms : List TcpSenderMessage)
    → s.seqnums_in_flight + a ≡ s.seqnums_sent
    → Chain s.isn a s.seqnums_sent ms
    → Unfinished ackno a ms
    → Split ackno s a a ms [] (record s { outstanding = ms })
nothing-Split ackno a s ms f c o = record {
  parts = refl;
  before = refl;
  after = c;
  flight = f;
  acked = inl refl;
  open_ = o;
  same_isn = refl;
  same_sent = refl;
  same_window = refl;
  same_ready = refl;
}

-- A segment that ends at or before the ackno, and then the rest of the loop.
cons-Split :
    {ackno a cut : ℕ} {s s' t : TcpSender} {m : TcpSenderMessage} {ms gone : List TcpSenderMessage}
    → s'.isn ≡ s.isn
    → s'.seqnums_sent ≡ s.seqnums_sent
    → s'.window_size ≡ s.window_size
    → s'.ready_to_send ≡ s.ready_to_send
    → m.seqno ≡ wrap a s.isn
    → 0 < sequence_length m
    → a + sequence_length m ≤ ackno
    → Split ackno s' (a + sequence_length m) cut ms gone t
    → Split ackno s a cut (m ∷ ms) (m ∷ gone) t
cons-Split {a = a} {cut = cut} {t = t} {m = m} {gone = gone} i n w r c p h k = record {
  parts = ap (λ q. m ∷ q) k.parts;
  before = (c, p, subst (λ q. Chain q (a + sequence_length m) cut gone) i k.before);
  after = subst₂ (λ q e. Chain q cut e t.outstanding) i n k.after;
  flight = k.flight ∙ n;
  acked = inr (omega (arith, k.acked));
  open_ = k.open_;
  same_isn = k.same_isn ∙ i;
  same_sent = k.same_sent ∙ n;
  same_window = k.same_window ∙ w;
  same_ready = k.same_ready ∙ r;
}

acknowledge-Split :
    (ackno : ℕ) (ms : List TcpSenderMessage) (s : TcpSender) (a : ℕ)
    → s.isn < u32_mod
    → s.seqnums_sent + u32_mod ≤ u64_mod
    → s.seqnums_sent - a < 2 ^ 31
    → s.seqnums_in_flight + a ≡ s.seqnums_sent
    → Chain s.isn a s.seqnums_sent ms
    → (gone : List TcpSenderMessage) × (cut : ℕ) × Split ackno s a cut ms gone
        (acknowledge ackno s ms)
unfolding acknowledge
acknowledge-Split ackno [] s a z w near f c = ([], a, nothing-Split ackno a s [] f c tt)
acknowledge-Split ackno (m ∷ ms) s a z w near f c =
    elim (Bool-cases (leb (a + sequence_length m) ackno)) [
      | inr e ↦
          rw (stop, e, acknowledge) ([], a, nothing-Split ackno a s (m ∷ ms) f c (leb→gt _ _ e))
      | inl e ↦
          rw (stop, e, acknowledge)
            (let (gone, cut, k) =
                acknowledge-Split ackno ms
                  (record s {
                    seqnums_in_flight = sub64 s.seqnums_in_flight (sequence_length m);
                    timer = Timer.start s.timer;
                  })
                  (a + sequence_length m) z w (omega arith)
                  (omega (
                    arith,
                    sub64-eq s.seqnums_in_flight (sequence_length m) (omega (arith, fits))
                        (omega arith),
                    fits,
                  ))
                  c.2 in
              (m ∷ gone, cut, cons-Split refl refl refl refl c.0 c.1 (leb→le _ _ e) k))
    ]
  where
    fits : a + sequence_length m ≤ s.seqnums_sent
    fits = Chain-le s.isn (a + sequence_length m) s.seqnums_sent ms c.2

    stop : add64 (unwrap m.seqno s.isn s.seqnums_sent) (sequence_length m) ≡ a + sequence_length m
    stop =
        ap (λ q. add64 (unwrap q s.isn s.seqnums_sent) (sequence_length m)) c.0
        ∙ ap (λ n. add64 n (sequence_length m))
            (unwrap-wrap a s.isn s.seqnums_sent z w (omega (arith, fits)))
        ∙ add64-eq a (sequence_length m) (omega (arith, fits))

-- The numbers in flight shrink with the queue.
Split-Tracks :
    {ackno cut : ℕ} {s t : TcpSender} {gone : List TcpSenderMessage}
    → Tracks s
    → Split ackno s (s.seqnums_sent - s.seqnums_in_flight) cut s.outstanding gone t
    → Tracks t
Split-Tracks {cut = cut} {s = s} {t = t} {gone = gone} k p = record {
  zero_point = rw p.same_isn k.zero_point;
  below = omega (arith, p.flight, p.same_sent);
  near = omega (
    arith,
    p.flight,
    Chain-le s.isn (s.seqnums_sent - s.seqnums_in_flight) cut gone p.before,
    k.near,
  );
  word = omega (arith, p.same_sent, k.word);
  chain =
      subst₃ (λ q b e. Chain q b e t.outstanding) (sym p.same_isn)
        (omega (arith, p.flight, p.same_sent)) (sym p.same_sent) p.after;
}

reset_backoff-Split :
    {ackno a cut : ℕ} {s t : TcpSender} {ms gone : List TcpSenderMessage}
    → Split ackno s a cut ms gone t
    → Split ackno s a cut ms gone (reset_backoff t)
unfolding reset_backoff
reset_backoff-Split p = record {
  parts = p.parts;
  before = p.before;
  after = p.after;
  flight = p.flight;
  acked = p.acked;
  open_ = p.open_;
  same_isn = p.same_isn;
  same_sent = p.same_sent;
  same_window = p.same_window;
  same_ready = p.same_ready;
}

-- The reply of a peer that wants number `ackno` next.
abbrev pub reply : TcpSender → ℕ → ℕ → TcpReceiverMessage
reply s ackno window = record { ackno = some (wrap ackno s.isn); window_size = window }

-- If the outstanding segments are in step with the numbers in flight, then an ackno of a number
-- that has been sent, less than 2^31 before the last, splits the outstanding segments: those that
-- leave end at or before it, the first one that stays ends behind it, and the numbers in flight
-- are those of the segments that stay. The window is the one in the message, what is ready to send
-- stays, and the segments are in step afterwards.
pub receive-Split :
    (s : TcpSender) (ackno window : ℕ)
    → Tracks s
    → ackno ≤ s.seqnums_sent
    → dist ackno s.seqnums_sent < 2 ^ 31
    → (gone : List TcpSenderMessage) × (cut : ℕ) × Split ackno
        (record s { window_size = window })
        (s.seqnums_sent - s.seqnums_in_flight)
        cut
        s.outstanding
        gone
        (receive s (reply s ackno window))
      × Tracks (receive s (reply s ackno window))
unfolding receive take_ack
receive-Split s ackno window k sent near =
    rw
      (
        unwrap-wrap ackno s.isn s.seqnums_sent k.zero_point k.word near,
        ge→ltb s.seqnums_sent ackno sent,
      )
      (let (gone, cut, p) =
          acknowledge-Split ackno s.outstanding (record s { window_size = window })
            (s.seqnums_sent - s.seqnums_in_flight) k.zero_point k.word
            (omega (arith, k.near, k.below)) (omega (arith, k.below)) k.chain in
        (gone, cut, reset_backoff-Split p, Split-Tracks (windowed k) (reset_backoff-Split p)))
  where
    windowed : Tracks s → Tracks (record s { window_size = window })
    windowed k = record {
      zero_point = k.zero_point;
      below = k.below;
      near = k.near;
      word = k.word;
      chain = k.chain;
    }

-- An ackno of a number that has not been sent, less than 2^31 behind the last one that has,
-- changes the window alone, where the zero point is below 2^32 and the numbers sent are at most
-- 2^64 - 2^32.
pub receive_unsent :
    (s : TcpSender) (ackno window : ℕ)
    → s.isn < u32_mod
    → s.seqnums_sent + u32_mod ≤ u64_mod
    → s.seqnums_sent < ackno
    → dist ackno s.seqnums_sent < 2 ^ 31
    → receive s (reply s ackno window) ≡ record s { window_size = window }
unfolding receive take_ack
receive_unsent s ackno window z word beyond near =
    rw (unwrap-wrap ackno s.isn s.seqnums_sent z word near, lt→ltb s.seqnums_sent ackno beyond) refl

Chain-append :
    (isn : Wrap32) (a b c : ℕ) (ms ns : List TcpSenderMessage)
    → Chain isn a b ms
    → Chain isn b c ns
    → Chain isn a c (ms ++ ns)
Chain-append isn a b c [] ns p q = subst (λ k. Chain isn k c ns) (sym p) q
Chain-append isn a b c (m ∷ ms) ns p q =
    (p.0, p.1, Chain-append isn (a + sequence_length m) b c ms ns p.2 q)

-- Sending keeps the outstanding segments in step with the numbers in flight.
Sent-Tracks :
    (available : ℕ) (s t : TcpSender) (w x : ByteStream) (ms : List TcpSenderMessage)
    → Sent available s w ms t x
    → Tracks s
    → available < 2 ^ 31
    → t.seqnums_sent + u32_mod ≤ u64_mod
    → Tracks t
Sent-Tracks available s t w x ms p k small word = record {
  zero_point = rw p.steady.same_isn k.zero_point;
  below = omega (arith, p.counted, k.below);
  near = omega (arith, p.within, k.near);
  word = word;
  chain =
      rw (p.queued, p.steady.same_isn)
        (Chain-append s.isn (t.seqnums_sent - t.seqnums_in_flight) s.seqnums_sent t.seqnums_sent
          s.outstanding ms
          (subst (λ b. Chain s.isn b s.seqnums_sent s.outstanding)
            (omega (arith, p.counted, k.below)) k.chain)
          p.numbered);
}

-- If the outstanding segments are in step with the numbers in flight, the stream is valid with
-- fewer than 2^64 bytes pushed, the window fits uint16_t and the numbers sent are at most 2^64 -
-- 2^32 - 2^16, then push comes to an end, and the segments are in step after it.
pub push-Tracks :
    (s : TcpSender) (w : ByteStream)
    → Tracks s
    → IsValid w
    → w.bytes_pushed < u64_mod
    → s.window_size < u16_mod
    → s.seqnums_sent + u16_mod + u32_mod ≤ u64_mod
    → (t : TcpSender) × (x : ByteStream) × (push s w ≡ ok (t, x)) × Tracks t
push-Tracks s w k v word win room =
    let (ms, t, x, e, p) = push-Sends s w v word win (omega arith) in
    (
      t,
      x,
      e,
      Sent-Tracks (available_window s) s t w x ms p k (omega (arith, available_window_lt s win))
          (omega (arith, p.counted, p.within, k.below, available_window_lt s win)),
    )
