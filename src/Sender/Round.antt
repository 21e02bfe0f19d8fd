-- ===== src/Sender/Round.antt =====
-- One round of the loop of TCPSender::push in src/tcp_sender.cc: the segment that it makes.
use networkinglab.Base.{
  ℕ, ◌+◌, ◌-◌, ◌≤◌, ◌<◌, min, ◌≡◌, refl, ap, sym, ◌∙◌, true, false, not, ◌&&◌, inl, inr, Bool-cases,
  List, [], ◌++◌, ltb, length, take, length-take, drop-min, take-append-drop, add64, sub64,
  add64-eq, sub64-eq, u64_mod, Outcome, ok, ◌>>=◌, arith,
}
use networkinglab.Wrap.{wrap}
use networkinglab.Message.{TcpSenderMessage, flag, sequence_length, max_payload_size}
use networkinglab.Stream.{ByteStream, is_finished}
use networkinglab.Stream.Invariant.{contents, IsValid}
use networkinglab.Stream.Reading.{read-Reads}
use networkinglab.Sender.{TcpSender, synchronize, fill, finish, conclude}

-- The sender without what a round changes.
pub record Steady (s t : TcpSender) : Type 0 where
  pub same_isn : t.isn ≡ s.isn
  pub same_window : t.window_size ≡ s.window_size
  pub same_timer : t.timer ≡ s.timer
  pub same_backoff : t.retransmissions ≡ s.retransmissions

-- A segment has been made, and waits to go out.
pub record Made (available : ℕ) (s : TcpSender) (w : ByteStream) (t : TcpSender)
    (m : TcpSenderMessage) (v : ByteStream) : Type 0 where
  pub steady : Steady s t
  pub same_sent : t.seqnums_sent ≡ s.seqnums_sent
  pub same_outstanding : t.outstanding ≡ s.outstanding
  pub same_ready : t.ready_to_send ≡ s.ready_to_send
  pub number : m.seqno ≡ wrap s.seqnums_sent s.isn
  pub flight : t.seqnums_in_flight ≡ s.seqnums_in_flight + sequence_length m
  pub within : t.seqnums_in_flight ≤ available
  pub small : length m.payload ≤ max_payload_size
  pub bytes : contents w ≡ m.payload ++ contents v
  pub valid : IsValid v
  pub same_pushed : v.bytes_pushed ≡ w.bytes_pushed

module _ (available : ℕ) (s : TcpSender) (w : ByteStream) (v : IsValid w)
    (word : w.bytes_pushed < u64_mod) (room : s.seqnums_in_flight < available)
    (small : available < u64_mod) where
  synchronize-Made : Made available s w (synchronize s).0 (synchronize s).1 w
  unfolding synchronize sequence_length
  synchronize-Made = elim (Bool-cases s.syn) [
    | inl e ↦ rw e record {
      steady = record {
        same_isn = refl;
        same_window = refl;
        same_timer = refl;
        same_backoff = refl;
      };
      same_sent = refl;
      same_outstanding = refl;
      same_ready = refl;
      number = refl;
      flight = omega arith;
      within = omega arith;
      small = omega arith;
      bytes = refl;
      valid = v;
      same_pushed = refl;
    }
    | inr e ↦ rw e record {
      steady = record {
        same_isn = refl;
        same_window = refl;
        same_timer = refl;
        same_backoff = refl;
      };
      same_sent = refl;
      same_outstanding = refl;
      same_ready = refl;
      number = refl;
      flight = omega (arith, add64-eq s.seqnums_in_flight 1 (omega arith));
      within = omega (arith, add64-eq s.seqnums_in_flight 1 (omega arith));
      small = omega arith;
      bytes = refl;
      valid = v;
      same_pushed = refl;
    }
  ]

  empty_payload : ((synchronize s).1.payload ≡ []) × ((synchronize s).1.fin ≡ false)
  unfolding synchronize
  empty_payload = ground arith

  fill-Made :
      (t : TcpSender) (m : TcpSenderMessage)
      → Made available s w t m w
      → m.payload ≡ []
      → m.fin ≡ false
      → (u : TcpSender) × (n : TcpSenderMessage) × (x : ByteStream) × (fill available (t, m) w
          ≡ ok (u, n, x))
        × Made available s w u n x
        × (n.fin ≡ false)
  unfolding fill sequence_length
  fill-Made t m k e f =
      let (x, p, q) =
        read-Reads w (min max_payload_size (sub64 available t.seqnums_in_flight)) v word in
      (
        record t { seqnums_in_flight = add64 t.seqnums_in_flight (length part) },
        record m { payload = part },
        x,
        rw p refl,
        record {
          steady = record {
            same_isn = k.steady.same_isn;
            same_window = k.steady.same_window;
            same_timer = k.steady.same_timer;
            same_backoff = k.steady.same_backoff;
          };
          same_sent = k.same_sent;
          same_outstanding = k.same_outstanding;
          same_ready = k.same_ready;
          number = k.number;
          flight = omega (arith, grown, k.flight, f_zero, ap length e);
          within = omega (arith, grown, k.within, bound, cut);
          small = omega (arith, cut);
          bytes =
              sym (take-append-drop want (contents w))
              ∙ ap (λ b. part ++ b) (sym (q.removed ∙ drop-min want (contents w)));
          valid = q.valid;
          same_pushed = q.same_pushed;
        },
        f,
      )
    where
      want : ℕ
      want = min max_payload_size (sub64 available t.seqnums_in_flight)

      part : List ℕ
      part = take want (contents w)

      cut : length part ≡ min want (length (contents w))
      cut = length-take want (contents w)

      bound : want ≤ available - t.seqnums_in_flight
      bound = omega (arith, sub64-eq available t.seqnums_in_flight k.within small)

      grown : add64 t.seqnums_in_flight (length part) ≡ t.seqnums_in_flight + length part
      grown = add64-eq t.seqnums_in_flight (length part) (omega (arith, k.within, bound, cut))

      f_zero : flag m.fin ≡ 0
      f_zero = ap flag f

  finish-Made :
      (t : TcpSender) (m : TcpSenderMessage) (x : ByteStream)
      → Made available s w t m x
      → m.fin ≡ false
      → let (u, n, y) = finish available (t, m, x) in Made available s w u n y
  unfolding finish sequence_length
  finish-Made t m x k f =
      elim (Bool-cases (is_finished x && (ltb t.seqnums_in_flight available && not t.fin))) [
        | inr e ↦ rw e k
        | inl e ↦ rw e record {
          steady = record {
            same_isn = k.steady.same_isn;
            same_window = k.steady.same_window;
            same_timer = k.steady.same_timer;
            same_backoff = k.steady.same_backoff;
          };
          same_sent = k.same_sent;
          same_outstanding = k.same_outstanding;
          same_ready = k.same_ready;
          number = k.number;
          flight = omega (arith, one e, k.flight, ap flag f);
          within = omega (arith, one e, left e);
          small = k.small;
          bytes = k.bytes;
          valid = k.valid;
          same_pushed = k.same_pushed;
        }
      ]
    where
      left :
          (is_finished x && (ltb t.seqnums_in_flight available && not t.fin)) ≡ true
          → t.seqnums_in_flight < available
      left e = ground arith

      one :
          (is_finished x && (ltb t.seqnums_in_flight available && not t.fin)) ≡ true
          → add64 t.seqnums_in_flight 1 ≡ t.seqnums_in_flight + 1
      one e = add64-eq t.seqnums_in_flight 1 (omega (arith, left e))

  -- A round makes one segment, with the next number, the next bytes and no more than the window has
  -- room for; reading the stream never fails.
  pub round-Made :
      (more : TcpSender → ByteStream → Outcome (TcpSender × ByteStream))
      → (t : TcpSender) × (m : TcpSenderMessage) × (x : ByteStream) × ((fill available
              (synchronize s)
              w
            >>= λ r. conclude more (finish available r))
          ≡ conclude more (t, m, x))
        × Made available s w t m x
  round-Made more =
      let (u, n, x, p, k, f) =
        fill-Made (synchronize s).0 (synchronize s).1 synchronize-Made empty_payload.0
          empty_payload.1 in
      (
        (finish available (u, n, x)).0,
        (finish available (u, n, x)).1,
        (finish available (u, n, x)).2,
        rw p refl,
        finish-Made u n x k f,
      )
