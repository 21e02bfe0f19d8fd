-- ===== src/Minnow/Gathering.antt =====
-- collect_segments of util/tcp_minnow_socket.cc: which segments it collects.
use networkinglab.Base.{
  ℕ, ◌+◌, ◌≡◌, refl, ap, ap₂, sym, subst, ◌∙◌, true, false, ◌&&◌, ◌⊎◌, inl, inr, Option, none, some,
  List, [], ◌∷◌, ◌++◌, append-nil, append_assoc, map, is_empty, arith,
}
use networkinglab.Wrap.{Wrap32}
use networkinglab.Message.{TcpSegment, TcpSenderMessage, TcpReceiverMessage, sequence_length}
use networkinglab.Stream.Invariant.{contents}
use networkinglab.Sender.{send_empty_message}
use networkinglab.Sender.Pushing.{Chain, payloads}
use networkinglab.Receiver
use networkinglab.Peer.{TcpPeer}

-- What the receiver of a peer says.
abbrev pub reply_of : TcpPeer → TcpReceiverMessage
reply_of p = Receiver.send p.receiver p.inbound_stream

-- The peer has gone from `p` to `q` by cutting the messages from its outbound stream.
pub record Cut (p q : TcpPeer) (messages : List TcpSenderMessage) : Type 0 where
  pub same_isn : q.sender.isn ≡ p.sender.isn
  pub numbered : Chain p.sender.isn p.sender.seqnums_sent q.sender.seqnums_sent messages
  pub queued : q.sender.outstanding ≡ p.sender.outstanding ++ messages
  pub bytes : contents p.outbound_stream ≡ payloads messages ++ contents q.outbound_stream
  pub same_reply : reply_of q ≡ reply_of p

Chain-append :
    (isn : Wrap32) (a b c : ℕ) (ms ns : List TcpSenderMessage)
    → Chain isn a b ms
    → Chain isn b c ns
    → Chain isn a c (ms ++ ns)
Chain-append isn a b c [] ns h k = subst (λ n. Chain isn n c ns) (sym h) k
Chain-append isn a b c (m ∷ ms) ns h k =
    (h.0, h.1, Chain-append isn (a + sequence_length m) b c ms ns h.2 k)

payloads-append : (ms ns : List TcpSenderMessage) → payloads (ms ++ ns) ≡ payloads ms ++ payloads ns
payloads-append [] ns = refl
payloads-append (m ∷ ms) ns =
    ap (λ b. m.payload ++ b) (payloads-append ms ns)
    ∙ sym (append_assoc m.payload (payloads ms) (payloads ns))

pub Cut-trans :
    (p q u : TcpPeer) (ms ns : List TcpSenderMessage) → Cut p q ms → Cut q u ns → Cut p u (ms ++ ns)
Cut-trans p q u ms ns h k = record {
  same_isn = k.same_isn ∙ h.same_isn;
  numbered =
      Chain-append p.sender.isn p.sender.seqnums_sent q.sender.seqnums_sent u.sender.seqnums_sent ms
        ns h.numbered
        (subst (λ i. Chain i q.sender.seqnums_sent u.sender.seqnums_sent ns) h.same_isn k.numbered);
  queued = k.queued ∙ ap (λ l. l ++ ns) h.queued ∙ append_assoc p.sender.outstanding ms ns;
  bytes =
      h.bytes
      ∙ ap (λ b. payloads ms ++ b) k.bytes
      ∙ sym (append_assoc (payloads ms) (payloads ns) (contents u.outbound_stream))
      ∙ ap (λ b. b ++ contents u.outbound_stream) (sym (payloads-append ms ns));
  same_reply = k.same_reply ∙ h.same_reply;
}

-- Each segment says what the receiver says.
abbrev pub AllReply : TcpReceiverMessage → List TcpSegment → Type 0
AllReply reply [] = Unit {0}
AllReply reply (seg ∷ segs) = (seg.receiver_message ≡ reply) × AllReply reply segs

-- The messages of the sender in the segments.
abbrev pub messages_of : List TcpSegment → List TcpSenderMessage
messages_of segs = map (λ seg. seg.sender_message) segs

-- The empty message that goes first, if one does: an answer is due, and nothing waits.
abbrev pub Answered : TcpPeer → List TcpSegment → List TcpSenderMessage → Type 0
Answered p segs answer =
    ((answer ≡ []) × ((p.need_send && is_empty segs) ≡ false))
    ⊎ ((answer ≡ send_empty_message p.sender ∷ [])
        × (p.need_send ≡ true)
        × (p.sender.ready_to_send ≡ []))

-- The segments carry, in order, the empty message, if an answer is due and nothing waits, the
-- messages that wait, and those that the pushes have cut from the stream.
pub record Gathered (p q : TcpPeer) (segs : List TcpSegment) : Type 0 where
  pub answer : List TcpSenderMessage
  pub messages : List TcpSenderMessage
  pub cut : Cut p q messages
  pub carried : messages_of segs ≡ answer ++ (p.sender.ready_to_send ++ messages)
  pub answered : Answered p segs answer
  pub replied : AllReply (reply_of p) segs

-- What the end of maybe_send makes of a peer: nothing was to be sent, or a segment goes out.
abbrev pub Released : TcpPeer → Option TcpSegment × TcpPeer → Type 0
Released p (none, q) = Cut p q [] × (p.sender.ready_to_send ≡ []) × (p.need_send ≡ false)
Released p (some seg, q) =
    Cut p q []
    × (seg.receiver_message ≡ reply_of p)
    × (q.need_send ≡ false)
    × ((p.sender.ready_to_send ≡ seg.sender_message ∷ q.sender.ready_to_send)
        ⊎ ((p.sender.ready_to_send ≡ [])
            × (q.sender.ready_to_send ≡ [])
            × (p.need_send ≡ true)
            × (seg.sender_message ≡ send_empty_message p.sender)))

append-empty : {A : Type 0} (xs ys : List A) → xs ++ ys ≡ [] → (xs ≡ []) × (ys ≡ [])
append-empty [] ys e = (refl, e)
append-empty (x ∷ xs) ys e = cc

-- Where nothing has been cut, the empty message is the same.
same_empty :
    (p q : TcpPeer) → Cut p q [] → send_empty_message q.sender ≡ send_empty_message p.sender
unfolding send_empty_message
same_empty p q c = rw (c.same_isn, sym c.numbered) refl

module _ (p q : TcpPeer) (ms : List TcpSenderMessage) (c : Cut p q ms)
    (readied : q.sender.ready_to_send ≡ p.sender.ready_to_send ++ ms)
    (same_need : q.need_send ≡ p.need_send) where
  pub none-Gathered : (u : TcpPeer) → Released q (none, u) → Gathered p u []
  none-Gathered u r = record {
    answer = [];
    messages = ms ++ [];
    cut = Cut-trans p q u ms [] c r.0;
    carried = sym (ap (λ l. p.sender.ready_to_send ++ l) (append-nil ms) ∙ sym readied ∙ r.1);
    answered = inl (refl, ap (λ b. b && true) (sym same_need ∙ r.2));
    replied = tt;
  }

  pub some-Gathered :
      (seg : TcpSegment) (u v : TcpPeer) (segs : List TcpSegment)
      → Released q (some seg, u)
      → Gathered u v segs
      → Gathered p v (seg ∷ segs)
  some-Gathered seg u v segs r g = elim r.3 [
    | inl e ↦ record {
      answer = [];
      messages = ms ++ g.messages;
      cut = cut;
      carried = ap (λ l. seg.sender_message ∷ l) rest ∙ ap (λ l. l ++ g.messages) (sym e) ∙ waited;
      answered = inl (refl, ground arith);
      replied = replied;
    }
    | inr (e, f, n, m) ↦
        let (none_waited, none_cut) = append-empty p.sender.ready_to_send ms (sym readied ∙ e) in
        let c' : Cut p q [] = subst (Cut p q) none_cut c in
        record {
          answer = send_empty_message p.sender ∷ [];
          messages = ms ++ g.messages;
          cut = cut;
          carried =
              ap₂ (λ b l. b ∷ l) (m ∙ same_empty p q c')
                (rest ∙ ap (λ l. l ++ g.messages) (f ∙ sym e) ∙ waited);
          answered = inr (refl, sym same_need ∙ n, none_waited);
          replied = replied;
        }
  ]
    where
      cut : Cut p v (ms ++ g.messages)
      cut = Cut-trans p q v ms g.messages c (Cut-trans q u v [] g.messages r.0 g.cut)

      no_answer : g.answer ≡ []
      no_answer = elim g.answered [ inl a ↦ a.0 | inr a ↦ absurd (ground (arith, r.2, a.1)) ]

      rest : messages_of segs ≡ u.sender.ready_to_send ++ g.messages
      rest = g.carried ∙ ap (λ l. l ++ (u.sender.ready_to_send ++ g.messages)) no_answer

      waited : q.sender.ready_to_send ++ g.messages ≡ p.sender.ready_to_send ++ (ms ++ g.messages)
      waited = ap (λ l. l ++ g.messages) readied ∙ append_assoc p.sender.ready_to_send ms g.messages

      reply : reply_of u ≡ reply_of p
      reply = r.0.same_reply ∙ c.same_reply

      replied : AllReply (reply_of p) (seg ∷ segs)
      replied = (r.1 ∙ c.same_reply, subst (λ m. AllReply m segs) reply g.replied)
