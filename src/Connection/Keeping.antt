-- ===== src/Connection/Keeping.antt =====
-- The steps of a connection, and what each of them keeps.
use networkinglab.Base.{
  ℕ, ◌+◌, ◌-◌, ◌≤◌, ◌<◌, ◌^◌, ◌≡◌, sym, subst, ◌∙◌, false, List, ◌∷◌, ◌++◌, length, length-append,
  length-take, take, u32_mod, u64_mod, ok, arith,
}
use networkinglab.Wrap.{Wrap32}
use networkinglab.Message.{TcpSenderMessage}
use networkinglab.Stream.{ByteStream, available_capacity}
use networkinglab.Stream
use networkinglab.Stream.Invariant.{contents, available_capacity-eq, Pushed, push-Pushed, Popped}
use networkinglab.Reassembler.Layout.{
  Agrees, Agrees-front, Agrees-back, Agrees-append, Agrees-at, Agrees-take,
}
use networkinglab.Receiver.Delivery.{arrive}
use networkinglab.Connection.{
  Link, Step, writes, closes, pushes, hears, waits, departs, answers, arrives, reads,
}
use networkinglab.Connection.Pieces.{IsPiece, AllPieces, Onward, AllPieces-Onward, AllPieces-middle}
use networkinglab.Connection.Sending.{IsSending}
use networkinglab.Connection.Pushing.{push-Leaves}
use networkinglab.Connection.Calls.{
  receive-IsSending, tick-IsSending, maybe_send-IsSending, send_empty_message-IsPiece,
  write-IsSending, write-Onward, close-IsSending, close-Onward, close-same_pushed,
}
use networkinglab.Connection.Arriving.{
  IsFollowing, IsFollowing-Onward, arrive-IsFollowing, arrive-popped, taken, read-IsFollowing,
}

-- What holds of a connection at all times, where `whole` is any stream that goes on as the
-- application has written.
pub record IsLink (whole : ℕ → ℕ) (isn : Wrap32) (s : Link) : Type 0 where
  pub sending : IsSending whole isn s.sender s.outbound
  pub sent : AllPieces whole isn s.outbound s.network
  pub following : IsFollowing whole isn s.outbound s.inbound
  pub counted : length s.written ≡ s.outbound.bytes_pushed
  pub truthful : Agrees whole 0 s.delivered
  pub taken_out : length s.delivered ≡ s.inbound.stream.bytes_popped

-- What has been written stays written.
pub Step-Agrees :
    (whole : ℕ → ℕ) {s t : Link} → Step s t → Agrees whole 0 t.written → Agrees whole 0 s.written
Step-Agrees whole {s} (writes str c few) h =
    Agrees-front whole 0 s.written (take (available_capacity s.outbound) str) h
Step-Agrees whole closes h = h
Step-Agrees whole (pushes t w e) h = h
Step-Agrees whole (hears msg) h = h
Step-Agrees whole (waits ms) h = h
Step-Agrees whole (departs m t e) h = h
Step-Agrees whole (answers e) h = h
Step-Agrees whole (arrives later earlier m e) h = h
Step-Agrees whole (reads len part v e) h = h

module _ (whole : ℕ → ℕ) (isn : Wrap32) (z : isn < u32_mod) (s : Link)
    (k : IsLink whole isn s) where
  few : s.outbound.bytes_popped + 3 ≤ 2 ^ 31
  few = omega (arith, k.sending.few, k.sending.valid.total)

  moved : (x : ByteStream) → Onward s.outbound x → AllPieces whole isn x s.network
  moved x o = AllPieces-Onward whole isn s.network o k.sent

  follows : (x : ByteStream) → Onward s.outbound x → IsFollowing whole isn x s.inbound
  follows = IsFollowing-Onward whole isn s.outbound s.inbound k.following

  write-IsLink :
      (str : List ℕ)
      → s.outbound.is_closed ≡ false
      → s.outbound.bytes_pushed + length str + 3 ≤ 2 ^ 31
      → Agrees whole 0 (s.written ++ take (available_capacity s.outbound) str)
      → IsLink whole isn (record s {
        outbound = Stream.push s.outbound str;
        written = s.written ++ take (available_capacity s.outbound) str;
      })
  write-IsLink str c h a = record {
    sending = write-IsSending whole isn s.sender s.outbound k.sending str c h (
        Agrees-at whole (0 + length s.written) s.outbound.bytes_pushed _ (omega (arith, k.counted))
          (subst (λ n. Agrees whole (0 + length s.written) (take n str)) room
            (Agrees-back whole 0 s.written _ a)));
    sent = moved _ o;
    following = follows _ o;
    counted =
        length-append s.written _
        ∙ omega (arith, room, length-take (available_capacity s.outbound) str, p.pushed, k.counted);
    truthful = k.truthful;
    taken_out = k.taken_out;
  }
    where
      wide : s.outbound.bytes_popped + s.outbound.capacity < u64_mod
      wide = omega (arith, few, k.sending.short)

      room : available_capacity s.outbound ≡ s.outbound.capacity - s.outbound.bytes_buffered
      room = available_capacity-eq s.outbound k.sending.valid wide

      p : Pushed s.outbound (Stream.push s.outbound str) str
      p = push-Pushed s.outbound str k.sending.valid wide

      o : Onward s.outbound (Stream.push s.outbound str)
      o = write-Onward whole isn s.sender s.outbound k.sending str

  arrives-IsLink :
      (later earlier : List TcpSenderMessage) (m : TcpSenderMessage)
      → s.network ≡ later ++ (m ∷ earlier)
      → IsLink whole isn (record s { inbound = arrive m s.inbound })
  arrives-IsLink later earlier m e = record {
    sending = k.sending;
    sent = k.sent;
    following = arrive-IsFollowing whole isn s.outbound s.inbound k.following z few m piece;
    counted = k.counted;
    truthful = k.truthful;
    taken_out =
        k.taken_out ∙ sym (arrive-popped whole isn s.outbound s.inbound k.following z few m piece);
  }
    where
      piece : IsPiece whole isn s.outbound m
      piece =
          AllPieces-middle whole isn s.outbound later earlier m
            (subst (AllPieces whole isn s.outbound) e k.sent)

  reads-IsLink :
      (len : ℕ) (part : List ℕ) (v : ByteStream)
      → Stream.read s.inbound.stream len ≡ ok (part, v)
      → IsLink whole isn
          (record s { inbound = record s.inbound { stream = v }; delivered = s.delivered ++ part })
  reads-IsLink len part v e = record {
    sending = k.sending;
    sent = k.sent;
    following = read-IsFollowing whole isn s.outbound s.inbound k.following z few len part v e;
    counted = k.counted;
    truthful = Agrees-append whole 0 s.delivered part k.truthful (
        Agrees-at whole s.inbound.stream.bytes_popped (0 + length s.delivered) part
          (omega (arith, k.taken_out))
          (subst (Agrees whole s.inbound.stream.bytes_popped) (sym t.0) (
            Agrees-take whole len s.inbound.stream.bytes_popped (contents s.inbound.stream)
              k.following.good.true_bytes.carried)));
    taken_out = length-append s.delivered part ∙ omega (arith, k.taken_out, t.1.popped);
  }
    where
      t : (part ≡ take len (contents s.inbound.stream)) × Popped s.inbound.stream v (length part)
      t = taken whole isn s.outbound s.inbound k.following z few len part v e

-- Each step keeps it, if what is written goes on as `whole` does.
pub Step-IsLink :
    (whole : ℕ → ℕ) (isn : Wrap32)
    → isn < u32_mod
    → {s t : Link} → Step s t
    → Agrees whole 0 t.written
    → IsLink whole isn s
    → IsLink whole isn t
Step-IsLink whole isn z {s} (writes str c h) a k = write-IsLink whole isn z s k str c h a
Step-IsLink whole isn z {s} closes a k = record {
  sending = close-IsSending whole isn s.sender s.outbound k.sending;
  sent = moved whole isn z s k (Stream.close s.outbound) (close-Onward s.outbound);
  following = follows whole isn z s k (Stream.close s.outbound) (close-Onward s.outbound);
  counted = k.counted ∙ sym (close-same_pushed s.outbound);
  truthful = k.truthful;
  taken_out = k.taken_out;
}
Step-IsLink whole isn z {s} (pushes t w e) a k =
    let (q, o, p) = push-Leaves whole isn z s.sender s.outbound t w k.sending e in
    record {
      sending = q;
      sent = moved whole isn z s k w o;
      following = follows whole isn z s k w o;
      counted = k.counted ∙ sym p;
      truthful = k.truthful;
      taken_out = k.taken_out;
    }
Step-IsLink whole isn z {s} (hears msg) a k = record {
  sending = receive-IsSending whole isn s.outbound s.sender msg k.sending;
  sent = k.sent;
  following = k.following;
  counted = k.counted;
  truthful = k.truthful;
  taken_out = k.taken_out;
}
Step-IsLink whole isn z {s} (waits ms) a k = record {
  sending = tick-IsSending whole isn s.outbound s.sender ms k.sending;
  sent = k.sent;
  following = k.following;
  counted = k.counted;
  truthful = k.truthful;
  taken_out = k.taken_out;
}
Step-IsLink whole isn z {s} (departs m t e) a k =
    let (p, q) = maybe_send-IsSending whole isn s.outbound s.sender t m k.sending e in
    record {
      sending = q;
      sent = (p, k.sent);
      following = k.following;
      counted = k.counted;
      truthful = k.truthful;
      taken_out = k.taken_out;
    }
Step-IsLink whole isn z {s} (answers e) a k = record {
  sending = k.sending;
  sent = (send_empty_message-IsPiece whole isn s.outbound s.sender k.sending e, k.sent);
  following = k.following;
  counted = k.counted;
  truthful = k.truthful;
  taken_out = k.taken_out;
}
Step-IsLink whole isn z {s} (arrives later earlier m e) a k =
    arrives-IsLink whole isn z s k later earlier m e
Step-IsLink whole isn z {s} (reads len part v e) a k = reads-IsLink whole isn z s k len part v e
