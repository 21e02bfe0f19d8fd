-- ===== src/Connection/Pieces.antt =====
-- The segments that one src/tcp_sender.cc has sent: which part of its stream each of them carries.
use networkinglab.Base.{ℕ, ◌+◌, ◌≤◌, ◌<◌, ◌≡◌, true, List, [], ◌∷◌, ◌++◌, length, arith}
use networkinglab.Wrap.{Wrap32}
use networkinglab.Message.{TcpSenderMessage}
use networkinglab.Stream.{ByteStream}
use networkinglab.Receiver.Delivery.{IsSegment}

-- The segment carries bytes of `whole` that have left the stream `w`, and a FIN only if the stream
-- is closed.
pub record IsPiece (whole : ℕ → ℕ) (isn : Wrap32) (w : ByteStream) (m : TcpSenderMessage)
    : Type 0 where
  pub index : ℕ
  pub segment : IsSegment whole isn index m
  pub begun : index ≤ w.bytes_popped + 1
  pub within : 0 < length m.payload → index + length m.payload ≤ w.bytes_popped
  pub final : m.fin ≡ true → w.is_closed ≡ true

abbrev pub AllPieces : (ℕ → ℕ) → Wrap32 → ByteStream → List TcpSenderMessage → Type 0
AllPieces whole isn w [] = Unit {0}
AllPieces whole isn w (m ∷ ms) = IsPiece whole isn w m × AllPieces whole isn w ms

-- The stream has moved on: bytes may have left it, and it may have been closed.
pub record Onward (w x : ByteStream) : Type 0 where
  pub further : w.bytes_popped ≤ x.bytes_popped
  pub stays_closed : w.is_closed ≡ true → x.is_closed ≡ true

pub Onward-refl : (w : ByteStream) → Onward w w
Onward-refl w = record { further = omega arith; stays_closed = λ e. e }

pub Onward-trans : {w x y : ByteStream} → Onward w x → Onward x y → Onward w y
Onward-trans o p = record {
  further = omega (arith, o.further, p.further);
  stays_closed = λ e. p.stays_closed (o.stays_closed e);
}

module _ (whole : ℕ → ℕ) (isn : Wrap32) where
  pub IsPiece-Onward :
      {w x : ByteStream} (m : TcpSenderMessage)
      → Onward w x
      → IsPiece whole isn w m
      → IsPiece whole isn x m
  IsPiece-Onward m o p = record {
    index = p.index;
    segment = p.segment;
    begun = omega (arith, o.further, p.begun);
    within = λ h. omega (arith, o.further, p.within h);
    final = λ e. o.stays_closed (p.final e);
  }

  pub AllPieces-Onward :
      {w x : ByteStream} (ms : List TcpSenderMessage)
      → Onward w x
      → AllPieces whole isn w ms
      → AllPieces whole isn x ms
  AllPieces-Onward [] o h = tt
  AllPieces-Onward (m ∷ ms) o h = (IsPiece-Onward m o h.0, AllPieces-Onward ms o h.1)

  pub AllPieces-append :
      (w : ByteStream) (ms ns : List TcpSenderMessage)
      → AllPieces whole isn w ms
      → AllPieces whole isn w ns
      → AllPieces whole isn w (ms ++ ns)
  AllPieces-append w [] ns h k = k
  AllPieces-append w (m ∷ ms) ns h k = (h.0, AllPieces-append w ms ns h.1 k)

  pub AllPieces-middle :
      (w : ByteStream) (later earlier : List TcpSenderMessage) (m : TcpSenderMessage)
      → AllPieces whole isn w (later ++ (m ∷ earlier))
      → IsPiece whole isn w m
  AllPieces-middle w [] earlier m h = h.0
  AllPieces-middle w (n ∷ later) earlier m h = AllPieces-middle w later earlier m h.1
