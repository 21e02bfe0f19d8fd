-- ===== src/Minnow/Collecting.antt =====
-- collect_segments of util/tcp_minnow_socket.cc: how the loop comes to its end.
use networkinglab.Base.{
  ℕ, zero, suc, ◌+◌, ◌-◌, ◌≤◌, ◌<◌, ◌≡◌, refl, ap, sym, subst, ◌∙◌, Bool, true, false, inl, inr,
  Bool-cases, Option, none, some, List, [], ◌∷◌, ◌++◌, append-nil, append_assoc, length,
  length-append, u16_mod, u64_mod, Outcome, ok, arith,
}
use networkinglab.Wrap.{Wrap32}
use networkinglab.Message.{TcpSegment, TcpSenderMessage, flag, flag_le, sequence_length}
use networkinglab.Stream.Invariant.{IsValid}
use networkinglab.Sender.{available_window}
use networkinglab.Sender
use networkinglab.Sender.Pushing.{Chain, push-Sends}
use networkinglab.Peer.{TcpPeer, push, maybe_send, release, choose_message, has_value, wrap_segment}
use networkinglab.Minnow.Gathering.{reply_of, Cut, Released, Gathered, none-Gathered, some-Gathered}
use networkinglab.Minnow.{Minnow, collect_loop, collect_fuel, collect_segments}

-- The peer can push: its outbound stream is valid, its window fits uint16_t, and no counter is near
-- the end of uint64_t, nor will be when the window has been used up.
pub record CanPush (p : TcpPeer) : Type 0 where
  pub valid : IsValid p.outbound_stream
  pub word : p.outbound_stream.bytes_pushed < u64_mod
  pub window : p.sender.window_size < u16_mod
  pub room :
      p.sender.seqnums_sent + (available_window p.sender - p.sender.seqnums_in_flight) + u16_mod
      < u64_mod

-- The segments that wait, and those that the window has room for.
abbrev pub pending : TcpPeer → ℕ
pending p = length p.sender.ready_to_send + (available_window p.sender - p.sender.seqnums_in_flight)

Chain-length :
    (isn : Wrap32) (a b : ℕ) (ms : List TcpSenderMessage) → Chain isn a b ms → a + length ms ≤ b
Chain-length isn a b [] c = omega arith
Chain-length isn a b (m ∷ ms) c =
    omega (arith, c.1, Chain-length isn (a + sequence_length m) b ms c.2)

-- A push makes messages, which join those that wait.
abbrev Follows : TcpPeer → TcpPeer → Type 0
Follows p q =
    (ms : List TcpSenderMessage) × Cut p q ms
    × (q.sender.ready_to_send ≡ p.sender.ready_to_send ++ ms)
    × (q.need_send ≡ p.need_send)

-- The queue and the flag have nothing to do with what has been cut.
uncut :
    (p : TcpPeer) (ms ns : List TcpSenderMessage) (b c : Bool)
    → Cut
        (record p { sender = record p.sender { ready_to_send = ms }; need_send = b })
        (record p { sender = record p.sender { ready_to_send = ns }; need_send = c })
        []
uncut p ms ns b c = record {
  same_isn = refl;
  numbered = refl;
  queued = sym (append-nil p.sender.outstanding);
  bytes = refl;
  same_reply = refl;
}

-- A push turns room in the window into segments that wait.
push-pending :
    (p : TcpPeer)
    → CanPush p
    → (q : TcpPeer) × (push p ≡ ok q) × CanPush q × (pending q ≤ pending p) × Follows p q
unfolding push
push-pending p k =
    let (ms, t, x, e, r) =
      push-Sends p.sender p.outbound_stream k.valid k.word k.window (omega (arith, k.room)) in
    let same : available_window t ≡ available_window p.sender = rw r.steady.same_window refl in
    (
      record p { sender = t; outbound_stream = x },
      rw e refl,
      record {
        valid = r.valid;
        word = rw r.same_pushed k.word;
        window = rw r.steady.same_window k.window;
        room = omega (arith, same, r.counted, r.within, k.room);
      },
      omega (
        arith,
        same,
        r.counted,
        r.within,
        ap length r.readied,
        length-append p.sender.ready_to_send ms,
        Chain-length p.sender.isn p.sender.seqnums_sent t.seqnums_sent ms r.numbered,
      ),
      (
        ms,
        record {
          same_isn = r.steady.same_isn;
          numbered = r.numbered;
          queued = r.queued;
          bytes = r.bytes;
          same_reply = refl;
        },
        r.readied,
        refl,
      ),
    )

-- Without an ackno nothing is pushed.
ready-pending :
    (b : Bool) (p : TcpPeer)
    → CanPush p
    → (q : TcpPeer) × ((elim b as (λ _. Outcome TcpPeer) [ true ↦ push p | false ↦ ok p ]) ≡ ok q)
      × CanPush q
      × (pending q ≤ pending p)
      × Follows p q
ready-pending true p k = push-pending p k
ready-pending false p k = (
  p,
  refl,
  k,
  omega arith,
  (
    [],
    uncut p p.sender.ready_to_send p.sender.ready_to_send p.need_send p.need_send,
    sym (append-nil p.sender.ready_to_send),
    refl,
  ),
)

-- What one round comes to: nothing was to be sent, or a segment goes out and less is left.
abbrev Releases : TcpPeer → Option TcpSegment × TcpPeer → Type 0
Releases p (none, q) =
    CanPush q × (q.sender.ready_to_send ≡ []) × (q.need_send ≡ false) × Released p (none, q)
Releases p (some seg, q) =
    CanPush q
    × (pending q + flag q.need_send < pending p + flag p.need_send)
    × Released p (some seg, q)

-- The queue and the flag do not matter to a push.
still :
    (p : TcpPeer)
    → CanPush p
    → (ms : List TcpSenderMessage) (b : Bool)
    → CanPush (record p { sender = record p.sender { ready_to_send = ms }; need_send = b })
still p k ms b = record { valid = k.valid; word = k.word; window = k.window; room = k.room }

release-Releases :
    (p : TcpPeer) (ms : List TcpSenderMessage)
    → p.sender.ready_to_send ≡ ms
    → CanPush p
    → Releases p (release (reply_of p) p)
unfolding release choose_message Sender.maybe_send Sender.pop_front wrap_segment
    Sender.send_empty_message
release-Releases p [] e k = elim (Bool-cases p.need_send) [
  | inl n ↦
      rw (release, e, n)
        (
          still p k [] false,
          omega arith,
          (uncut p [] [] true false, refl, refl, inr (refl, refl, refl, rw e refl)),
        )
  | inr n ↦
      rw (release, e, n) (still p k [] false, refl, refl, (uncut p [] [] false false, refl, refl))
]
release-Releases p (m ∷ ms) e k =
    rw (release, e)
      (
        still p k ms false,
        omega arith,
        (uncut p (m ∷ ms) ms p.need_send false, refl, refl, inl refl),
      )

-- The end of the loop: the segments have been collected behind those of before.
abbrev Collects : TcpPeer → List TcpSegment → Outcome (TcpPeer × List TcpSegment) → Type 0
Collects p out r =
    (q : TcpPeer) × (segs : List TcpSegment) × (r ≡ ok (q, out ++ segs))
    × CanPush q
    × (q.sender.ready_to_send ≡ [])
    × (q.need_send ≡ false)
    × Gathered p q segs

abbrev Loops : ℕ → Type 0
Loops fuel =
    (p : TcpPeer) (out : List TcpSegment)
    → CanPush p
    → pending p + flag p.need_send < fuel
    → Collects p out (collect_loop fuel p out)

collected :
    (fuel : ℕ)
    → Loops fuel
    → (p q : TcpPeer) (out : List TcpSegment) (r : Option TcpSegment × TcpPeer) → Follows p q
    → Releases q r
    → pending q + flag q.need_send < suc fuel
    → Collects p out (elim r.0 as (λ _. Outcome (TcpPeer × List TcpSegment)) [
      | none ↦ ok (r.1, out)
      | some seg ↦ collect_loop fuel r.1 (out ++ (seg ∷ []))
    ])
collected fuel ih p q out (none, u) (ms, c, e, n) g f = (
  u,
  [],
  ap (λ o. ok (u, o)) (sym (append-nil out)),
  g.0,
  g.1,
  g.2,
  none-Gathered p q ms c e n u g.3,
)
collected fuel ih p q out (some seg, u) (ms, c, e, n) g f =
    let (v, segs, x, k, d, m, h) = ih u (out ++ (seg ∷ [])) g.0 (omega (arith, g.1)) in
    (
      v,
      seg ∷ segs,
      x ∙ ap (λ o. ok (v, o)) (append_assoc out (seg ∷ []) segs),
      k,
      d,
      m,
      some-Gathered p q ms c e n seg u v segs g.2 h,
    )

collect_loop-Collects : (fuel : ℕ) → Loops fuel
unfolding collect_loop maybe_send
collect_loop-Collects zero p out k f = elim f [ ]
collect_loop-Collects (suc fuel) p out k f =
    let (q, e, c, le, (ms, cut, readied, same)) =
      ready-pending (has_value (reply_of p).ackno) p k in
    rw (collect_loop, e)
      (collected fuel (collect_loop-Collects fuel) p q out (release (reply_of p) q)
        (ms, cut, readied, same)
        (subst (λ m. Releases q (release m q)) cut.same_reply
          (release-Releases q q.sender.ready_to_send refl c))
        (omega (arith, le, ap flag same)))

-- If the peer's outbound stream is valid, its window fits uint16_t, and no counter is within 2^16
-- of the end of uint64_t nor will be when the window has been used up, then collect_segments comes
-- to an end and does not throw. Behind the segments that wait go new ones, in order: an empty
-- message of the next number, where one is sent, then the messages that were ready, then those
-- that push has cut. The empty one is sent only if an answer is due and no message was ready, and
-- if an answer is due there is at least one segment. The messages that push has cut are numbered
-- on without a gap, join the outstanding ones, and hold the bytes that have left the outbound
-- stream. Each segment says what the receiver says. Afterwards no message is ready, no answer is
-- due, and the peer can still push.
pub collect_segments-all :
    {A : Type 0} (s : Minnow A) (p : TcpPeer)
    → s.tcp ≡ some p
    → CanPush p
    → (q : TcpPeer) × (segs : List TcpSegment) × (collect_segments s
        ≡ ok (record s { tcp = some q; outgoing_segments = s.outgoing_segments ++ segs }))
      × CanPush q
      × (q.sender.ready_to_send ≡ [])
      × (q.need_send ≡ false)
      × Gathered p q segs
unfolding collect_segments
collect_segments-all s p e k =
    let (q, segs, r, c, d, n, g) =
      collect_loop-Collects (collect_fuel p) p s.outgoing_segments k
        (omega (arith, flag_le p.need_send)) in
    (q, segs, rw (e, r) refl, c, d, n, g)
