-- ===== src/Connection/Arriving.antt =====
-- The receiving half of src/tcp_receiver.cc and src/reassembler.cc behind the stream of a sender:
-- pieces of the stream arrive, and the application reads.
use networkinglab.Base.{
  ℕ, ◌+◌, ◌*◌, ◌-◌, ◌≤◌, ◌<◌, ◌^◌, ◌≡◌, ◌⊎◌, refl, ap, sym, subst₂, ◌∙◌, length-take, true, ◌==◌,
  inl, inr, Bool-cases, List, length, take, u32_mod, u64_mod, ok, ok-injective, arith,
}
use networkinglab.Wrap.{Wrap32}
use networkinglab.Message.{TcpSenderMessage}
use networkinglab.Stream.{ByteStream, read}
use networkinglab.Stream.Invariant.{contents, Popped}
use networkinglab.Stream.Reading.{read-Reads}
use networkinglab.Reassembler.{Reassembler, insert}
use networkinglab.Reassembler.Insert.{limit, IsSound, known}
use networkinglab.Reassembler.Correct.{insert-known, insert-same, popped-IsSound, popped-IsTrue}
use networkinglab.Reassembler.Closing.{insert-closed, insert-should_close}
use networkinglab.Receiver.{receive}
use networkinglab.Receiver.Delivery.{
  receive-insert, receive_early, synced, with_receiver, Inbound, arrive, IsGood, IsNear, segment,
  Step-IsGood,
}
use networkinglab.Connection.Pieces.{IsPiece, Onward}

-- What the receiving half knows has left the stream `out` of the sender, and it has seen the end
-- only if that stream is closed.
pub record IsFollowing (whole : ℕ → ℕ) (isn : Wrap32) (out : ByteStream) (s : Inbound)
    : Type 0 where
  pub good : IsGood whole isn s
  pub small : s.stream.capacity * 4 < u64_mod
  pub got : (i : ℕ) → known i s.reassembler s.stream ≡ true → i < out.bytes_popped
  pub closing : s.reassembler.should_close ≡ true → out.is_closed ≡ true
  pub closed : s.stream.is_closed ≡ true → out.is_closed ≡ true

module _ (whole : ℕ → ℕ) (isn : Wrap32) (out : ByteStream) (s : Inbound)
    (k : IsFollowing whole isn out s) where
  -- No more has been written than has left the sender's stream.
  pub pushed_le : s.stream.bytes_pushed ≤ out.bytes_popped
  pushed_le = elim (Bool-cases (s.stream.bytes_pushed == 0)) [
    | inl e ↦ ground arith
    | inr e ↦ ground (arith, k.got (s.stream.bytes_pushed - 1))
  ]

  pub IsFollowing-Onward : (x : ByteStream) → Onward out x → IsFollowing whole isn x s
  IsFollowing-Onward x o = record {
    good = k.good;
    small = k.small;
    got = λ i h. omega (arith, k.got i h, o.further);
    closing = λ e. o.stays_closed (k.closing e);
    closed = λ e. o.stays_closed (k.closed e);
  }

  module _ (z : isn < u32_mod) (few : out.bytes_popped + 3 ≤ 2 ^ 31) where
    module _ (m : TcpSenderMessage) (p : IsPiece whole isn out m) where
      near : IsNear p.index s.stream
      near = (omega (arith, p.begun, pushed_le), omega (arith, pushed_le))

      word : p.index + length m.payload < u64_mod
      word = elim (Bool-cases (length m.payload == 0)) [
        | inl e ↦ ground (arith, p.begun)
        | inr e ↦ ground (arith, p.within)
      ]

      abbrev placed : Reassembler × ByteStream
      placed = insert s.reassembler p.index m.payload m.fin s.stream

      -- A piece is inserted at its index, unless no SYN has been seen.
      lands :
          (receive s.receiver m s.reassembler s.stream ≡ (s.receiver, s.reassembler, s.stream))
          ⊎ (receive s.receiver m s.reassembler s.stream ≡ with_receiver (synced isn) placed)
      lands = elim (Bool-cases m.syn) [
        | inl e ↦ inr (
            receive-insert whole isn z p.index m p.segment s.reassembler s.stream near s.receiver
              (inl e))
        | inr e ↦ elim k.good.zero_point [
          | inr q ↦ inr (
              receive-insert whole isn z p.index m p.segment s.reassembler s.stream near s.receiver
                (inr q))
          | inl q ↦ inl (rw q (receive_early m s.reassembler s.stream e))
        ]
      ]

      sound : IsSound s.reassembler s.stream
      sound = k.good.sound

      placed-got : (i : ℕ) → known i placed.0 placed.1 ≡ true → i < out.bytes_popped
      placed-got i h = elim (Bool-cases (known i s.reassembler s.stream)) [
        | inl e ↦ k.got i e
        | inr e ↦ ground (
          arith,
          insert-known s.reassembler s.stream sound p.index m.payload m.fin word i,
          p.within,
        )
      ]

      placed-closing : placed.0.should_close ≡ true → out.is_closed ≡ true
      placed-closing h = elim (Bool-cases s.reassembler.should_close) [
        | inl e ↦ k.closing e
        | inr e ↦ p.final (
            ground (
              arith,
              insert-should_close s.reassembler s.stream sound p.index m.payload word m.fin,
            ))
      ]

      placed-closed : placed.1.is_closed ≡ true → out.is_closed ≡ true
      placed-closed h = elim (Bool-cases s.stream.is_closed) [
        | inl e ↦ k.closed e
        | inr e ↦ elim (Bool-cases m.fin) [
          | inl f ↦ p.final f
          | inr f ↦ k.closing (
              ground
                (arith, insert-closed s.reassembler s.stream sound p.index m.payload word m.fin))
        ]
      ]

      -- An arrival takes nothing from the reader's stream.
      pub arrive-popped : (arrive m s).stream.bytes_popped ≡ s.stream.bytes_popped
      arrive-popped = elim lands [
        | inl e ↦ rw e refl
        | inr e ↦ rw e ((insert-same s.reassembler s.stream sound p.index m.payload m.fin word).0)
      ]

      -- A piece arrives, whichever and however late.
      pub arrive-IsFollowing : IsFollowing whole isn out (arrive m s)
      arrive-IsFollowing = record {
        good = Step-IsGood whole isn z (segment s p.index m p.segment near word) k.good;
        small = elim lands [
          | inl e ↦ rw e k.small
          | inr e ↦ rw e (
              rw ((insert-same s.reassembler s.stream sound p.index m.payload m.fin word).1)
                k.small)
        ];
        got = elim lands [ inl e ↦ rw e k.got | inr e ↦ rw e placed-got ];
        closing = elim lands [ inl e ↦ rw e k.closing | inr e ↦ rw e placed-closing ];
        closed = elim lands [ inl e ↦ rw e k.closed | inr e ↦ rw e placed-closed ];
      }

    module _ (len : ℕ) (part : List ℕ) (v : ByteStream) (e : read s.stream len ≡ ok (part, v)) where
      -- What read() has taken out: the first bytes that waited.
      pub taken : (part ≡ take len (contents s.stream)) × Popped s.stream v (length part)
      taken =
          let (u, q, d) =
            read-Reads s.stream len k.good.sound.sink.valid (omega (arith, pushed_le)) in
          let same : ◌≡◌ {A = List ℕ × ByteStream} (part, v) (take len (contents s.stream), u) =
            ok-injective (sym e ∙ q) in
          (
            ap (λ r. r.0) same,
            subst₂ (λ x n. Popped s.stream x n) (sym (ap (λ r. r.1) same))
                (sym (ap (λ r. length r.0) same ∙ length-take len (contents s.stream))) d,
          )

      room : (limit s.stream + length part) * 2 < u64_mod
      room =
          omega
            (arith, taken.1.popped, taken.1.same_pushed, taken.1.valid.total, pushed_le, k.small)

      -- The application reads.
      pub read-IsFollowing : IsFollowing whole isn out (record s { stream = v })
      read-IsFollowing =
          let (sound, same) =
            popped-IsSound s.reassembler s.stream v (length part) k.good.sound taken.1 room in
          record {
            good = record {
              zero_point = k.good.zero_point;
              sound = sound;
              true_bytes =
                  popped-IsTrue s.reassembler s.stream v (length part) k.good.sound taken.1 room
                    whole k.good.true_bytes;
            };
            small = rw taken.1.same_capacity k.small;
            got = λ i h. k.got i (sym (same i) ∙ h);
            closing = k.closing;
            closed = rw taken.1.same_closed k.closed;
          }
