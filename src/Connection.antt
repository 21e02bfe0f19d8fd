-- ===== src/Connection.antt =====
-- A connection in one direction, out of src/tcp_sender.cc, src/tcp_receiver.cc, src/reassembler.cc
-- and src/byte_stream.cc: an application writes, a TCPSender cuts what it has written into segments,
-- a network may lose, repeat, delay and reorder them, and a TCPReceiver and its Reassembler put them
-- together for an application that reads.
pub mod Pieces
pub mod Sending
pub mod Pushing
pub mod Calls
pub mod Arriving
pub mod Keeping
pub mod Prefix
mod Tests
use networkinglab.Base.{
  ℕ, ◌+◌, ◌≤◌, ◌^◌, ◌≡◌, true, false, Option, some, List, [], ◌∷◌, ◌++◌, length, take, ok,
}
use networkinglab.Wrap.{Wrap32}
use networkinglab.Message.{TcpSenderMessage, TcpReceiverMessage}
use networkinglab.Stream.{ByteStream, available_capacity, close, read}
use networkinglab.Stream
use networkinglab.Sender.{TcpSender, tick, maybe_send, send_empty_message}
use networkinglab.Sender
use networkinglab.Receiver.Delivery.{Inbound, arrive, fresh}

-- The sender and its stream, all segments that have ever left it, and the receiving half; also the
-- bytes that the writing application has put into the one stream, and those that the reading
-- application has taken from the other.
pub record Link : Type 0 where
  pub sender : TcpSender
  pub outbound : ByteStream
  pub network : List TcpSenderMessage
  pub inbound : Inbound
  pub written : List ℕ
  pub delivered : List ℕ

-- What may happen next.
pub data Step (s : Link) : Link → Type 0 where
  -- The application writes, and has not closed the stream; it writes less than 2^31 bytes in all.
  writes :
      (str : List ℕ)
      → s.outbound.is_closed ≡ false
      → s.outbound.bytes_pushed + length str + 3 ≤ 2 ^ 31
      → Step s (record s {
        outbound = Stream.push s.outbound str;
        written = s.written ++ take (available_capacity s.outbound) str;
      })
  closes : Step s (record s { outbound = close s.outbound })
  pushes :
      (t : TcpSender) (w : ByteStream)
      → Sender.push s.sender s.outbound ≡ ok (t, w)
      → Step s (record s { sender = t; outbound = w })
  -- Any message at all comes from the other side.
  hears : (msg : TcpReceiverMessage) → Step s (record s { sender = Sender.receive s.sender msg })
  waits : (ms : ℕ) → Step s (record s { sender = tick s.sender ms })
  -- A segment goes out, from the queue or an empty one.
  departs :
      (m : TcpSenderMessage) (t : TcpSender)
      → maybe_send s.sender ≡ (some m, t)
      → Step s (record s { sender = t; network = m ∷ s.network })
  answers :
      s.sender.syn ≡ true → Step s (record s { network = send_empty_message s.sender ∷ s.network })
  -- A segment that has gone out comes in, for the first time or again.
  arrives :
      (later earlier : List TcpSenderMessage) (m : TcpSenderMessage)
      → s.network ≡ later ++ (m ∷ earlier)
      → Step s (record s { inbound = arrive m s.inbound })
  reads :
      (len : ℕ) (part : List ℕ) (v : ByteStream)
      → read s.inbound.stream len ≡ ok (part, v)
      → Step s
          (record s { inbound = record s.inbound { stream = v }; delivered = s.delivered ++ part })

pub data Reach (s : Link) : Link → Type 0 where
  here : Reach s s
  next : {t u : Link} → Reach s t → Step t u → Reach s u

-- A new connection: the retransmission timeout, the zero point if it is fixed, a random number
-- if not, and the capacities of the two streams.
abbrev pub opened : ℕ → Option Wrap32 → Wrap32 → ℕ → ℕ → Link
opened rto fixed random send_capacity recv_capacity = record {
  sender = Sender.init rto fixed random;
  outbound = Stream.init send_capacity;
  network = [];
  inbound = fresh recv_capacity;
  written = [];
  delivered = [];
}
