-- ===== src/Connection/Sending.antt =====
-- TCPSender::push of src/tcp_sender.cc with the stream that it reads: what a sender that has sent
-- pieces of its stream keeps as it sends more of it.
use networkinglab.Base.{
  ℕ, ◌+◌, ◌*◌, ◌≤◌, ◌<◌, ◌^◌, min, ◌≡◌, refl, ap, sym, subst, true, false, not, ◌&&◌, inl, inr,
  Bool-cases, List, [], ltb, length, take, length-take, take-length-take, add64, sub64, u64_mod, ok,
  Outcome, ◌>>=◌, arith,
}
use networkinglab.Wrap.{Wrap32, wrap}
use networkinglab.Message.{TcpSenderMessage, flag, max_payload_size}
use networkinglab.Stream.{ByteStream, is_finished}
use networkinglab.Stream.Invariant.{contents, IsValid, Popped, Popped-zero}
use networkinglab.Stream.Reading.{read-Reads}
use networkinglab.Reassembler.Layout.{Agrees}
use networkinglab.Sender.{TcpSender, synchronize, fill, finish, conclude}
use networkinglab.Connection.Pieces.{AllPieces}

-- The sender and its stream between calls: the stream is valid and its bytes are those of `whole`,
-- the numbers sent are the SYN, the bytes that have left the stream and the FIN, and both queues
-- hold pieces of what has left.
pub record IsSending (whole : ℕ → ℕ) (isn : Wrap32) (s : TcpSender) (w : ByteStream) : Type 0 where
  pub zero_point : s.isn ≡ isn
  pub valid : IsValid w
  pub short : w.capacity * 2 < u64_mod
  pub few : w.bytes_pushed + 3 ≤ 2 ^ 31
  pub bytes : Agrees whole w.bytes_popped (contents w)
  pub numbers : s.seqnums_sent ≡ flag s.syn + w.bytes_popped + flag s.fin
  pub opened : s.syn ≡ false → (s.fin ≡ false) × (w.bytes_popped ≡ 0)
  pub ended : s.fin ≡ true → (w.is_closed ≡ true) × (w.bytes_buffered ≡ 0)
  pub queued : AllPieces whole isn w s.outstanding
  pub readied : AllPieces whole isn w s.ready_to_send

-- A round has made the segment `m`, and left the stream `x`.
pub record Rounded (s : TcpSender) (w : ByteStream) (t : TcpSender) (m : TcpSenderMessage)
    (x : ByteStream) : Type 0 where
  pub same_isn : t.isn ≡ s.isn
  pub same_sent : t.seqnums_sent ≡ s.seqnums_sent
  pub same_outstanding : t.outstanding ≡ s.outstanding
  pub same_ready : t.ready_to_send ≡ s.ready_to_send
  pub number : m.seqno ≡ wrap s.seqnums_sent s.isn
  pub synced : t.syn ≡ true
  pub opening : flag s.syn + flag m.syn ≡ 1
  pub closing : flag t.fin ≡ flag s.fin + flag m.fin
  pub payload : m.payload ≡ take (length m.payload) (contents w)
  pub popped : Popped w x (length m.payload)
  pub drained : m.fin ≡ true → (x.is_closed ≡ true) × (x.bytes_buffered ≡ 0)

module _ (available : ℕ) (s : TcpSender) (w : ByteStream) (v : IsValid w)
    (word : w.bytes_pushed < u64_mod) where
  synchronize-Rounded :
      ((synchronize s).1.payload ≡ [])
      × ((synchronize s).1.fin ≡ false)
      × Rounded s w (synchronize s).0 (synchronize s).1 w
  unfolding synchronize
  synchronize-Rounded = elim (Bool-cases s.syn) [
    | inl e ↦ rw e (
      refl,
      refl,
      record {
        same_isn = refl;
        same_sent = refl;
        same_outstanding = refl;
        same_ready = refl;
        number = refl;
        synced = refl;
        opening = omega arith;
        closing = omega arith;
        payload = refl;
        popped = Popped-zero w 0 v refl;
        drained = λ d. cc;
      },
    )
    | inr e ↦ rw e (
      refl,
      refl,
      record {
        same_isn = refl;
        same_sent = refl;
        same_outstanding = refl;
        same_ready = refl;
        number = refl;
        synced = refl;
        opening = omega arith;
        closing = omega arith;
        payload = refl;
        popped = Popped-zero w 0 v refl;
        drained = λ d. cc;
      },
    )
  ]

  fill-Rounded :
      (t : TcpSender) (m : TcpSenderMessage)
      → m.fin ≡ false
      → Rounded s w t m w
      → (u : TcpSender) × (n : TcpSenderMessage) × (x : ByteStream) × (fill available (t, m) w
          ≡ ok (u, n, x))
        × Rounded s w u n x
        × (n.fin ≡ false)
  unfolding fill
  fill-Rounded t m f k =
      let (x, p, q) =
        read-Reads w (min max_payload_size (sub64 available t.seqnums_in_flight)) v word in
      (
        record t { seqnums_in_flight = add64 t.seqnums_in_flight (length part) },
        record m { payload = part },
        x,
        rw p refl,
        record {
          same_isn = k.same_isn;
          same_sent = k.same_sent;
          same_outstanding = k.same_outstanding;
          same_ready = k.same_ready;
          number = k.number;
          synced = k.synced;
          opening = k.opening;
          closing = k.closing;
          payload = sym (take-length-take want (contents w));
          popped = subst (λ n. Popped w x n) (sym cut) q;
          drained = λ d. cc;
        },
        f,
      )
    where
      want : ℕ
      want = min max_payload_size (sub64 available t.seqnums_in_flight)

      part : List ℕ
      part = take want (contents w)

      cut : length part ≡ min want (length (contents w))
      cut = length-take want (contents w)

  finish-Rounded :
      (t : TcpSender) (m : TcpSenderMessage) (x : ByteStream)
      → m.fin ≡ false
      → Rounded s w t m x
      → let (u, n, y) = finish available (t, m, x) in Rounded s w u n y
  unfolding finish is_finished
  finish-Rounded t m x f k =
      elim (Bool-cases (is_finished x && (ltb t.seqnums_in_flight available && not t.fin))) [
        | inr e ↦ rw e k
        | inl e ↦ rw e record {
          same_isn = k.same_isn;
          same_sent = k.same_sent;
          same_outstanding = k.same_outstanding;
          same_ready = k.same_ready;
          number = k.number;
          synced = k.synced;
          opening = k.opening;
          closing = ground (arith, k.closing, ap flag f);
          payload = k.payload;
          popped = k.popped;
          drained = λ d. ground arith;
        }
      ]

  -- A round makes one segment, with the next number and the next bytes of the stream.
  pub round-Rounded :
      (more : TcpSender → ByteStream → Outcome (TcpSender × ByteStream))
      → (t : TcpSender) × (m : TcpSenderMessage) × (x : ByteStream) × ((fill available
              (synchronize s)
              w
            >>= λ r. conclude more (finish available r))
          ≡ conclude more (t, m, x))
        × Rounded s w t m x
  round-Rounded more =
      let (u, n, x, p, k, f) =
        fill-Rounded (synchronize s).0 (synchronize s).1 synchronize-Rounded.1
          synchronize-Rounded.2 in
      (
        (finish available (u, n, x)).0,
        (finish available (u, n, x)).1,
        (finish available (u, n, x)).2,
        rw p refl,
        finish-Rounded u n x f k,
      )
