-- ===== src/Connection/Prefix.antt =====
-- The connection as a whole: what the reading application gets is what the writing one has written.
use networkinglab.Base.{
  ℕ, ◌+◌, ◌*◌, ◌≤◌, ◌<◌, ◌≡◌, refl, ◌∙◌, true, Option, List, ◌++◌, length, length-append, take, ap,
  u32_mod, u64_mod, arith,
}
use networkinglab.Wrap.{Wrap32}
use networkinglab.Stream
use networkinglab.Stream.Invariant.{contents, init-IsValid}
use networkinglab.Reassembler
use networkinglab.Reassembler.Layout.{
  Agrees, Agrees-append, Agrees-at, Agrees-prefix, stream_of, stream_of-Agrees,
}
use networkinglab.Sender
use networkinglab.Receiver.Delivery.{fresh-IsGood}
use networkinglab.Connection.{Link, Reach, here, next, opened}
use networkinglab.Connection.Arriving.{pushed_le}
use networkinglab.Connection.Keeping.{IsLink, Step-Agrees, Step-IsLink}

opened-IsLink :
    (whole : ℕ → ℕ) (rto : ℕ) (fixed : Option Wrap32) (random : Wrap32)
    (send_capacity recv_capacity : ℕ)
    → send_capacity * 2 < u64_mod
    → recv_capacity * 4 < u64_mod
    → IsLink whole
        (Sender.init rto fixed random).isn
        (opened rto fixed random send_capacity recv_capacity)
unfolding Sender.init Stream.init Reassembler.init
opened-IsLink whole rto fixed random send_capacity recv_capacity small small' = record {
  sending = record {
    zero_point = refl;
    valid = init-IsValid send_capacity;
    short = small;
    few = omega arith;
    bytes = tt;
    numbers = refl;
    opened = λ e. (refl, refl);
    ended = λ e. cc;
    queued = tt;
    readied = tt;
  };
  sent = tt;
  following = record {
    good = fresh-IsGood whole _ recv_capacity (omega arith);
    small = small';
    got = λ i h. absurd (ground arith);
    closing = λ e. cc;
    closed = λ e. cc;
  };
  counted = refl;
  truthful = tt;
  taken_out = refl;
}

Reach-IsLink :
    (whole : ℕ → ℕ) (isn : Wrap32)
    → isn < u32_mod
    → {s t : Link} → Reach s t
    → Agrees whole 0 t.written
    → IsLink whole isn s
    → IsLink whole isn t
Reach-IsLink whole isn z here a k = k
Reach-IsLink whole isn z (next r st) a k =
    Step-IsLink whole isn z st a (Reach-IsLink whole isn z r (Step-Agrees whole st a) k)

module _ (whole : ℕ → ℕ) (isn : Wrap32) (s : Link) (k : IsLink whole isn s) where
  got : List ℕ
  got = s.delivered ++ contents s.inbound.stream

  got-Agrees : Agrees whole 0 got
  unfolding got
  got-Agrees = Agrees-append whole 0 s.delivered (contents s.inbound.stream) k.truthful (
      Agrees-at whole s.inbound.stream.bytes_popped (0 + length s.delivered)
        (contents s.inbound.stream) (omega (arith, k.taken_out))
        k.following.good.true_bytes.carried)

  got-length : length got ≡ s.inbound.stream.bytes_pushed
  unfolding got
  got-length =
      length-append s.delivered (contents s.inbound.stream)
      ∙ omega (
        arith, k.taken_out, k.following.good.sound.sink.valid.total,
        k.following.good.sound.sink.valid.counted,
      )

  written_le : s.inbound.stream.bytes_pushed ≤ length s.written
  written_le = omega (
    arith,
    pushed_le whole isn s.outbound s.inbound k.following,
    k.counted,
    k.sending.valid.total,
  )

  got-prefix :
      Agrees whole 0 s.written
      → s.delivered ++ contents s.inbound.stream ≡ take s.inbound.stream.bytes_pushed s.written
  unfolding got
  got-prefix a =
      Agrees-prefix whole 0 got s.written got-Agrees a (omega (arith, got-length, written_le))
      ∙ ap (λ n. take n s.written) got-length

-- From a new sender, receiver and Reassembler and two empty streams, where the sender's zero point
-- is below 2^32, its stream's capacity below 2^63 and the reader's below 2^62, and after any
-- steps, in any order, of these kinds: the application writes a string to the sender's stream,
-- which is not closed, and has then written at most 2^31 - 3 bytes; it closes that stream; push
-- returns; the sender hears any message at all; time passes; maybe_send hands a segment to the
-- network, or, after the SYN, an empty segment goes out; a segment that has gone out arrives, be
-- it late, again, or not in its turn; the other application reads. Then what that application has
-- read, with what waits for it, is the first bytes that were written, as many as the receiving
-- side has pushed, which are no more than all of them, and the reader's stream is closed only if
-- the writer's is.
pub Reach-prefix :
    (rto : ℕ) (fixed : Option Wrap32) (random : Wrap32) (send_capacity recv_capacity : ℕ)
    → (Sender.init rto fixed random).isn < u32_mod
    → send_capacity * 2 < u64_mod
    → recv_capacity * 4 < u64_mod
    → {s : Link} → Reach (opened rto fixed random send_capacity recv_capacity) s
    → (s.delivered ++ contents s.inbound.stream ≡ take s.inbound.stream.bytes_pushed s.written)
      × (s.inbound.stream.bytes_pushed ≤ length s.written)
      × (s.inbound.stream.is_closed ≡ true → s.outbound.is_closed ≡ true)
Reach-prefix rto fixed random send_capacity recv_capacity z h h' {s} r = (
  got-prefix (stream_of s.written) (Sender.init rto fixed random).isn s k
      (stream_of-Agrees s.written),
  written_le (stream_of s.written) (Sender.init rto fixed random).isn s k,
  k.following.closed,
)
  where
    k : IsLink (stream_of s.written) (Sender.init rto fixed random).isn s
    k =
        Reach-IsLink (stream_of s.written) (Sender.init rto fixed random).isn z r
          (stream_of-Agrees s.written)
          (opened-IsLink (stream_of s.written) rto fixed random send_capacity recv_capacity h h')
