-- ===== src/Peer/Replies.antt =====
-- TCPPeer::receive and TCPPeer::maybe_send of util/tcp_peer.hh: answers, and the end of a connection.
use networkinglab.Base.{
  ◌+◌, ◌<◌, ◌≡◌, refl, ap, ◌∙◌, Bool, true, false, ◌||◌, Option, none, some, Bool-cases, inl, inr,
  ok, u16_mod, u64_mod, arith, ◌⊎◌, if◌then◌else◌,
}
use networkinglab.Message.{TcpSegment, TcpSenderMessage, TcpReceiverMessage, sequence_length}
use networkinglab.Stream
use networkinglab.Stream.Invariant.{IsValid}
use networkinglab.Receiver
use networkinglab.Sender
use networkinglab.Sender.Pushing.{push-Sends}
use networkinglab.Sender.Kept.{receive-Keeps}
use networkinglab.Peer.{
  TcpPeer, push, active, receive, take_segment, choose_message, wrap_segment, release, maybe_send,
  has_value,
}

-- If a segment has the reset flag or the inbound stream has an error, then receive leaves the peer
-- inactive with an error in the inbound stream, whatever else the segment holds, and changes
-- neither the sender nor the receiver nor the Reassembler.
pub receive-inactive :
    (p : TcpPeer) (seg : TcpSegment)
    → (seg.reset ≡ true) ⊎ (p.inbound_stream.has_error ≡ true)
    → (active (receive p seg) ≡ false)
      × ((receive p seg).inbound_stream.has_error ≡ true)
      × ((receive p seg).sender ≡ p.sender)
      × ((receive p seg).receiver ≡ p.receiver)
      × ((receive p seg).reassembler ≡ p.reassembler)
unfolding receive active Stream.set_error
receive-inactive p seg (inl e) = rw e (refl, refl, refl, refl, refl)
receive-inactive p seg (inr e) = elim (Bool-cases seg.reset) [
  | inl r ↦ rw r (refl, refl, refl, refl, refl)
  | inr r ↦ rw (r, e) (refl, refl, refl, refl, refl)
]

-- A message is found if something has to be sent.
choose_message-needed :
    (p : TcpPeer) (waiting : Option TcpSenderMessage)
    → p.need_send ≡ true
    → (m : TcpSenderMessage) × (choose_message p waiting ≡ some m)
unfolding choose_message
choose_message-needed p (some m) n = (m, refl)
choose_message-needed p none n = (Sender.send_empty_message p.sender, rw n refl)

release-answers :
    (reply : TcpReceiverMessage) (p : TcpPeer)
    → p.need_send ≡ true
    → (out : TcpSegment) × ((release reply p).0 ≡ some out)
      × (out.receiver_message ≡ reply)
      × ((release reply p).1.need_send ≡ false)
unfolding release wrap_segment
release-answers reply p n =
    let q = record p { sender = (Sender.maybe_send p.sender).1 } in
    let (m, e) = choose_message-needed q (Sender.maybe_send p.sender).0 n in
    (wrap_segment q reply m, rw (release, e) refl, refl, refl)

-- Whatever the receiver says, the push comes to an end, and nothing but the sender and its stream
-- has changed.
push-ready :
    (b : Bool) (p : TcpPeer)
    → IsValid p.outbound_stream
    → p.outbound_stream.bytes_pushed < u64_mod
    → p.sender.window_size < u16_mod
    → p.sender.seqnums_sent + u16_mod < u64_mod
    → (q : TcpPeer) × (elim b [ true ↦ push p | false ↦ ok p ] ≡ ok q) × (q.need_send ≡ p.need_send)
unfolding push
push-ready false p v word win room = (p, refl, refl)
push-ready true p v word win room =
    let (ms, t, x, e, k) = push-Sends p.sender p.outbound_stream v word win room in
    (record p { sender = t; outbound_stream = x }, rw e refl, refl)

pub maybe_send-answers :
    (p : TcpPeer)
    → p.need_send ≡ true
    → IsValid p.outbound_stream
    → p.outbound_stream.bytes_pushed < u64_mod
    → p.sender.window_size < u16_mod
    → p.sender.seqnums_sent + u16_mod < u64_mod
    → (out : TcpSegment) × (q : TcpPeer) × (maybe_send p ≡ ok (some out, q))
      × (out.receiver_message ≡ Receiver.send p.receiver p.inbound_stream)
      × (q.need_send ≡ false)
unfolding maybe_send
maybe_send-answers p n v word win room =
    let reply = Receiver.send p.receiver p.inbound_stream in
    let (q, e, k) = push-ready (has_value reply.ackno) p v word win room in
    let (out, f, g, h) = release-answers reply q (k ∙ n) in
    (out, (release reply q).1, rw e (ap (λ o. ok (o, (release reply q).1)) f), g, h)

take_segment-needs :
    (p : TcpPeer) (seg : TcpSegment)
    → 0 < sequence_length seg.sender_message
    → (take_segment p seg).need_send ≡ true
unfolding take_segment
take_segment-needs p seg h = ground (arith, h)

if_false : {A : Type 0} (x y : A) (c : Bool) → c ≡ false → (if c then x else y) ≡ y
if_false x y c e = rw e refl

receive-take_segment :
    (p : TcpPeer) (seg : TcpSegment)
    → seg.reset ≡ false
    → p.inbound_stream.has_error ≡ false
    → receive p seg ≡ take_segment p seg
unfolding receive
receive-take_segment p seg a b =
    if_false _ _ (seg.reset || p.inbound_stream.has_error) (ground (arith, a, b))

-- If a segment without the reset flag that uses a sequence number arrives, the inbound stream has
-- no error, the outbound stream is valid with fewer than 2^64 bytes pushed, the window in the
-- segment fits uint16_t and fewer than 2^64 - 2^16 numbers have been sent, then the next
-- maybe_send comes to an end without an exception and gives a segment, whose receiver message is
-- what the receiver says after the segment has come, and nothing has to be sent after it.
pub receive-answered :
    (p : TcpPeer) (seg : TcpSegment)
    → seg.reset ≡ false
    → p.inbound_stream.has_error ≡ false
    → 0 < sequence_length seg.sender_message
    → IsValid p.outbound_stream
    → p.outbound_stream.bytes_pushed < u64_mod
    → seg.receiver_message.window_size < u16_mod
    → p.sender.seqnums_sent + u16_mod < u64_mod
    → let r = receive p seg in
      (out : TcpSegment) × (q : TcpPeer) × (maybe_send r ≡ ok (some out, q))
      × (out.receiver_message ≡ Receiver.send r.receiver r.inbound_stream)
      × (q.need_send ≡ false)
unfolding take_segment
receive-answered p seg a b h v word win room = rw (receive-take_segment p seg a b) (
    maybe_send-answers (take_segment p seg) (take_segment-needs p seg h) v word
      (rw ((receive-Keeps p.sender seg.receiver_message).1) win)
      (rw ((receive-Keeps p.sender seg.receiver_message).0) room))
