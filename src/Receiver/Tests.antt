-- ===== src/Receiver/Tests.antt =====
-- Runs of src/tcp_receiver.cc, and the theorems at them.
use networkinglab.Base.{
  ℕ, ◌+◌, ◌≡◌, refl, [], ◌∷◌, false, true, some, arith, add32, sub32, add64, sub64,
}
use networkinglab.Wrap.{wrap, plus, unwrap}
use networkinglab.Message.{TcpSenderMessage}
use networkinglab.Stream
use networkinglab.Stream.{ByteStream, push, push_string, fit, available_capacity, close}
use networkinglab.Stream.Invariant.{IsValid, contents}
use networkinglab.Reassembler
use networkinglab.Reassembler.{Reassembler, insert}
use networkinglab.Receiver.{receive, send}
use networkinglab.Receiver.Delivery.{
  IsSegment, synced, Inbound, arrive, segment, Reach, here, next, fresh, IsGood, Reach-IsGood,
}
use networkinglab.Receiver.Replies.{send-synced}

abbrev counting : ℕ → ℕ
counting i = 100 + i

-- A SYN with two bytes, and the two bytes after the next one, with the FIN; the zero point is 7.
abbrev opening : TcpSenderMessage
opening = record { seqno = 7; syn = true; payload = 100 ∷ 101 ∷ []; fin = false }

abbrev tail_end : TcpSenderMessage
tail_end = record { seqno = 11; syn = false; payload = 103 ∷ 104 ∷ []; fin = true }

opening-IsSegment : IsSegment counting 7 0 opening
opening-IsSegment = record {
  opening = λ e. (refl, refl);
  numbered = λ e. cc;
  truthful = (refl, (refl, tt));
}

tail_end-IsSegment : IsSegment counting 7 3 tail_end
unfolding wrap plus add32
tail_end-IsSegment = record {
  opening = λ e. cc;
  numbered = λ e. refl;
  truthful = (refl, (refl, tt));
}

abbrev after_opening : Inbound
after_opening = arrive opening (fresh 8)

reversed : Reach counting 7 (fresh 8) (arrive tail_end (fresh 8))
unfolding Stream.init
reversed =
    next here
      (segment (fresh 8) 3 tail_end tail_end-IsSegment (omega arith, omega arith) (omega arith))

both : Reach counting 7 (fresh 8) (arrive opening (fresh 8))
unfolding Stream.init
both =
    next here
      (segment (fresh 8) 0 opening opening-IsSegment (omega arith, omega arith) (omega arith))

holds_the_bytes : contents after_opening.stream ≡ 100 ∷ 101 ∷ []
unfolding receive Stream.init Reassembler.init insert push push_string fit available_capacity unwrap
    wrap plus add32 sub32 add64 sub64
holds_the_bytes = refl

Reach-IsGood_example : IsGood counting 7 (arrive opening (fresh 8))
Reach-IsGood_example = Reach-IsGood counting 7 8 (omega arith) (omega arith) both

abbrev some_stream : ByteStream
some_stream = record {
  capacity = 8;
  buffer = (100 ∷ 101 ∷ []) ∷ [];
  bytes_pushed = 2;
  bytes_popped = 0;
  bytes_buffered = 2;
  is_closed = true;
  has_error = false;
}

some_stream-IsValid : IsValid some_stream
some_stream-IsValid = record {
  counted = refl;
  bounded = omega arith;
  total = omega arith;
  full = omega arith;
}

send-synced_example :
    (raw : ℕ) × ((send (synced 7) some_stream).ackno ≡ some raw)
    × (unwrap raw 7 9 ≡ 4)
    × ((send (synced 7) some_stream).window_size ≡ 6)
send-synced_example =
    send-synced 7 some_stream 9 (omega arith) some_stream-IsValid (omega arith) (omega arith)
      (omega arith) (omega arith)
