-- ===== src/Receiver/Delivery.antt =====
-- TCPReceiver::receive of src/tcp_receiver.cc: where a payload goes, and the receiver with its
-- Reassembler and its stream as a system of steps.
use networkinglab.Base.{
  ℕ, ◌+◌, ◌*◌, ◌≤◌, ◌<◌, ◌^◌, ◌≡◌, refl, ap, ◌⊎◌, inl, inr, true, false, Bool-cases, some, length,
  sub64-eq, u32_mod, u64_mod, ok, arith,
}
use networkinglab.Wrap.{Wrap32, wrap}
use networkinglab.Wrap.Laws.{dist, unwrap-wrap}
use networkinglab.Message.{TcpSenderMessage}
use networkinglab.Stream
use networkinglab.Stream.{ByteStream, pop}
use networkinglab.Reassembler
use networkinglab.Reassembler.{Reassembler, insert}
use networkinglab.Reassembler.Layout.{Agrees}
use networkinglab.Reassembler.Insert.{limit, IsSound, IsTrue}
use networkinglab.Reassembler.Correct.{
  insert-IsSound, insert-IsTrue, pop-IsSound, pop-IsTrue, init-IsSound, init-IsTrue,
}
use networkinglab.Receiver.{TcpReceiver, init, receive}

-- The message carries the bytes of `whole` from index `i` on, numbered from the zero point `isn`: a
-- SYN has the number of the zero point, and a byte has the number of its index plus one.
pub record IsSegment (whole : ℕ → ℕ) (isn : Wrap32) (i : ℕ) (m : TcpSenderMessage) : Type 0 where
  pub opening : m.syn ≡ true → (m.seqno ≡ isn) × (i ≡ 0)
  pub numbered : m.syn ≡ false → m.seqno ≡ wrap (i + 1) isn
  pub truthful : Agrees whole i m.payload

-- The sequence number of byte `i` is less than 2^31 away from the number of bytes pushed, which is
-- not at the end of uint64_t.
abbrev pub IsNear : ℕ → ByteStream → Type 0
IsNear i w = (dist (i + 1) w.bytes_pushed < 2 ^ 31) × (w.bytes_pushed + u32_mod ≤ u64_mod)

-- Before a SYN every other segment is dropped.
pub receive_early :
    (m : TcpSenderMessage) (r : Reassembler) (w : ByteStream)
    → m.syn ≡ false
    → receive init m r w ≡ (init, r, w)
unfolding receive init
receive_early m r w e = rw e

-- The receiver that has seen the SYN.
abbrev pub synced : Wrap32 → TcpReceiver
synced isn = record { isn = some isn }

abbrev pub with_receiver :
    TcpReceiver → Reassembler × ByteStream → TcpReceiver × Reassembler × ByteStream
with_receiver t (r, w) = (t, r, w)

module _ (whole : ℕ → ℕ) (isn : Wrap32) (z : isn < u32_mod) (i : ℕ) (m : TcpSenderMessage)
    (g : IsSegment whole isn i m) (r : Reassembler) (w : ByteStream) (near : IsNear i w) where
  receive_syn :
      (t : TcpReceiver)
      → m.syn ≡ true
      → receive t m r w ≡ with_receiver (synced isn) (insert r i m.payload m.fin w)
  unfolding receive
  receive_syn t e = rw (e, (g.opening e).0, (g.opening e).1)

  receive_later :
      m.syn ≡ false
      → receive (synced isn) m r w ≡ with_receiver (synced isn) (insert r i m.payload m.fin w)
  unfolding receive
  receive_later e =
      rw
        (
          e,
          g.numbered e,
          unwrap-wrap (i + 1) isn w.bytes_pushed z near.1 near.0,
          sub64-eq (i + 1) 1 (omega arith) (omega arith),
        )
        (ap (λ k. with_receiver (synced isn) (insert r k m.payload m.fin w)) (omega arith))

  -- For a zero point below 2^32 and a segment of the sender's stream that is less than 2^31 away
  -- from the bytes pushed, these at most 2^64 - 2^32: a SYN, or any segment after the SYN, sets or
  -- keeps the zero point, and its payload is inserted at the index of its first byte.
  pub receive-insert :
      (t : TcpReceiver)
      → (m.syn ≡ true) ⊎ (t ≡ synced isn)
      → receive t m r w ≡ with_receiver (synced isn) (insert r i m.payload m.fin w)
  receive-insert t (inl e) = receive_syn t e
  receive-insert t (inr q) = elim (Bool-cases m.syn) [
    | inl e ↦ receive_syn t e
    | inr e ↦ rw q (receive_later e)
  ]

-- The receiving half of a connection.
pub record Inbound : Type 0 where
  pub receiver : TcpReceiver
  pub reassembler : Reassembler
  pub stream : ByteStream

abbrev pub arrive : TcpSenderMessage → Inbound → Inbound
arrive m s =
    let (t, r, w) = receive s.receiver m s.reassembler s.stream in
    record { receiver = t; reassembler = r; stream = w }

-- What may happen: a segment of the stream arrives, any and in any order, or the application reads.
pub data Step (whole : ℕ → ℕ) (isn : Wrap32) : Inbound → Inbound → Type 0 where
  segment :
      (s : Inbound) (i : ℕ) (m : TcpSenderMessage)
      → IsSegment whole isn i m
      → IsNear i s.stream
      → i + length m.payload < u64_mod
      → Step whole isn s (arrive m s)
  reads :
      (s : Inbound) (len : ℕ) (v : ByteStream)
      → len ≤ s.stream.bytes_buffered
      → (limit s.stream + len) * 2 < u64_mod
      → pop s.stream len ≡ ok v
      → Step whole isn s (record s { stream = v })

pub data Reach (whole : ℕ → ℕ) (isn : Wrap32) (s : Inbound) : Inbound → Type 0 where
  here : Reach whole isn s s
  next : {t u : Inbound} → Reach whole isn s t → Step whole isn t u → Reach whole isn s u

-- What holds at all times: the receiver has no zero point or the right one, the Reassembler is sound,
-- and all bytes that wait or are stored are those of the sender.
pub record IsGood (whole : ℕ → ℕ) (isn : Wrap32) (s : Inbound) : Type 0 where
  pub zero_point : (s.receiver ≡ init) ⊎ (s.receiver ≡ synced isn)
  pub sound : IsSound s.reassembler s.stream
  pub true_bytes : IsTrue whole s.reassembler s.stream

insert-IsGood :
    (whole : ℕ → ℕ) (isn : Wrap32) (s : Inbound) (i : ℕ) (m : TcpSenderMessage)
    → IsSegment whole isn i m
    → i + length m.payload < u64_mod
    → IsGood whole isn s
    → receive s.receiver m s.reassembler s.stream
      ≡ with_receiver (synced isn) (insert s.reassembler i m.payload m.fin s.stream)
    → IsGood whole isn (arrive m s)
insert-IsGood whole isn s i m g word k e = rw e record {
  zero_point = inr refl;
  sound = insert-IsSound s.reassembler s.stream k.sound i m.payload m.fin word;
  true_bytes =
      insert-IsTrue s.reassembler s.stream k.sound i m.payload m.fin word whole g.truthful
        k.true_bytes;
}

pub Step-IsGood :
    (whole : ℕ → ℕ) (isn : Wrap32)
    → isn < u32_mod
    → {s t : Inbound} → Step whole isn s t
    → IsGood whole isn s
    → IsGood whole isn t
Step-IsGood whole isn z (segment s i m g near word) k = elim (Bool-cases m.syn) [
  | inl e ↦
      insert-IsGood whole isn s i m g word k
        (receive-insert whole isn z i m g s.reassembler s.stream near s.receiver (inl e))
  | inr e ↦ elim k.zero_point [
    | inr q ↦
        insert-IsGood whole isn s i m g word k
          (receive-insert whole isn z i m g s.reassembler s.stream near s.receiver (inr q))
    | inl q ↦
        rw (q, receive_early m s.reassembler s.stream e)
          record { zero_point = inl refl; sound = k.sound; true_bytes = k.true_bytes }
  ]
]
Step-IsGood whole isn z (reads s len v h room e) k = record {
  zero_point = k.zero_point;
  sound = (pop-IsSound s.reassembler s.stream v len k.sound h room e).0;
  true_bytes = pop-IsTrue s.reassembler s.stream v len k.sound h room e whole k.true_bytes;
}

abbrev pub fresh : ℕ → Inbound
fresh capacity = record {
  receiver = init;
  reassembler = Reassembler.init;
  stream = Stream.init capacity;
}

pub fresh-IsGood :
    (whole : ℕ → ℕ) (isn : Wrap32) (capacity : ℕ)
    → capacity * 2 < u64_mod
    → IsGood whole isn (fresh capacity)
fresh-IsGood whole isn capacity h = record {
  zero_point = inl refl;
  sound = init-IsSound capacity h;
  true_bytes = init-IsTrue whole capacity;
}

-- From a new receiver and stream, with a zero point below 2^32 and a capacity below 2^63, and
-- after any steps of two kinds: a segment of the sender's stream arrives (a SYN has the zero point
-- and index 0, any other segment the number of its index plus one; less than 2^31 away from the
-- bytes pushed, which are at most 2^64 - 2^32; its end below 2^64), or the application pops bytes
-- that are buffered, where the window stays below 2^63. Then the receiver has seen no SYN or has
-- that zero point, the Reassembler is sound beside the stream, and all bytes that wait in the
-- stream or are stored are the sender's at their indices.
pub Reach-IsGood :
    (whole : ℕ → ℕ) (isn capacity : ℕ)
    → isn < u32_mod
    → capacity * 2 < u64_mod
    → {s : Inbound} → Reach whole isn (fresh capacity) s
    → IsGood whole isn s
Reach-IsGood whole isn capacity z h here = fresh-IsGood whole isn capacity h
Reach-IsGood whole isn capacity z h (next r st) =
    Step-IsGood whole isn z st (Reach-IsGood whole isn capacity z h r)
