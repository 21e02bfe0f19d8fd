-- ===== src/Segment/RoundTrip.antt =====
-- util/tcp_segment.cc: what is summed and serialized is verified and parsed again.
use networkinglab.Base.{
  ℕ, ◌+◌, ◌*◌, ◌/◌, ◌<◌, ◌≡◌, Bool, not, Option, none, some, List, [], ◌++◌, length, u16_mod,
  u32_mod, append-nil, append_assoc, arith, if◌then◌else◌, Option-cases, inl, inr,
}
use networkinglab.Wrap.{Wrap32}
use networkinglab.Message.{TcpSegment}
use networkinglab.Wire.{Serializer, to_bytes, put_integer}
use networkinglab.Wire.Steps.{
  Reads, Reads-bind, Reads-pure, Reads-u8, Reads-u16, Reads-u32, Reads-skip_none,
}
use networkinglab.Wire.Ends.{Finishes, Finishes-bind, Finishes-rest}
use networkinglab.Wire.Writing.{AllBytes, write}
use networkinglab.Segment.{
  has_bit, skip_options, parse_members, ackno_value, ackno_flag, flags, put_members,
  tcp_header_min_len,
}

-- The members fit their bits, and the segment an IPv4 datagram.
pub record IsSegment (seg : TcpSegment) : Type 0 where
  pub src_port_fits : seg.udinfo.src_port < u16_mod
  pub dst_port_fits : seg.udinfo.dst_port < u16_mod
  pub seqno_fits : seg.sender_message.seqno < u32_mod
  pub ackno_fits : ackno_value seg.receiver_message.ackno < u32_mod
  pub window_fits : seg.receiver_message.window_size < u16_mod
  pub payload_bytes : AllBytes seg.sender_message.payload
  pub payload_fits : 20 + length seg.sender_message.payload < u16_mod

abbrev pub segment_bytes : TcpSegment → List ℕ
segment_bytes seg =
    to_bytes 2 seg.udinfo.src_port
    ++ (to_bytes 2 seg.udinfo.dst_port
        ++ (to_bytes 4 seg.sender_message.seqno
            ++ (to_bytes 4 (ackno_value seg.receiver_message.ackno)
                ++ (to_bytes 1 (tcp_header_min_len * 16)
                    ++ (to_bytes 1 (flags seg)
                        ++ (to_bytes 2 seg.receiver_message.window_size
                            ++ (to_bytes 2 seg.udinfo.cksum ++ (to_bytes 2 0 ++ []))))))))

pub put_members-write :
    (seg : TcpSegment) (s : Serializer) → put_members seg s ≡ write (segment_bytes seg) s
unfolding put_members put_integer
put_members-write seg s = simp (append_assoc, append-nil)

flags-lt : (seg : TcpSegment) → flags seg < 32
unfolding flags
flags-lt seg = elim (Option-cases seg.receiver_message.ackno) [
  | inl e ↦ rw e (ground arith)
  | inr (a, e) ↦ rw e (ground arith)
]

-- The flags come back from their bits.
module _ (seg : TcpSegment) where
  fin-flags : has_bit (flags seg) 1 ≡ seg.sender_message.fin
  unfolding flags
  fin-flags = elim (Option-cases seg.receiver_message.ackno) [
    | inl e ↦ rw (flags, e) (ground arith)
    | inr (a, e) ↦ rw (flags, e) (ground arith)
  ]

  syn-flags : has_bit (flags seg) 2 ≡ seg.sender_message.syn
  unfolding flags
  syn-flags = elim (Option-cases seg.receiver_message.ackno) [
    | inl e ↦ rw (flags, e) (ground arith)
    | inr (a, e) ↦ rw (flags, e) (ground arith)
  ]

  reset-flags : has_bit (flags seg) 4 ≡ seg.reset
  unfolding flags
  reset-flags = elim (Option-cases seg.receiver_message.ackno) [
    | inl e ↦ rw (flags, e) (ground arith)
    | inr (a, e) ↦ rw (flags, e) (ground arith)
  ]

  ackno-flags :
      (if not (has_bit (flags seg) 16) then none else some (ackno_value seg.receiver_message.ackno))
      ≡ seg.receiver_message.ackno
  unfolding flags
  ackno-flags =
      bit16 seg.receiver_message.ackno seg.reset seg.sender_message.syn seg.sender_message.fin
    where
      bit16 :
          (o : Option Wrap32) (r y f : Bool)
          → (if not (
                has_bit
                  (ackno_flag o
                    + ((if r then 4 else 0) + ((if y then 2 else 0) + (if f then 1 else 0))))
                  16)
              then none
              else some (ackno_value o))
            ≡ o
      bit16 none r y f = ground arith
      bit16 (some a) r y f = ground arith

-- What the parser makes of the members.
unfoldable pub parsed : TcpSegment → TcpSegment
parsed seg = record {
  sender_message = record {
    seqno = seg.sender_message.seqno;
    syn = has_bit (flags seg) 2;
    payload = seg.sender_message.payload;
    fin = has_bit (flags seg) 1;
  };
  receiver_message = record {
    ackno =
        if not (has_bit (flags seg) 16)
        then none
        else some (ackno_value seg.receiver_message.ackno);
    window_size = seg.receiver_message.window_size;
  };
  reset = has_bit (flags seg) 4;
  udinfo = seg.udinfo;
}

pub parsed-eq : (seg : TcpSegment) → parsed seg ≡ seg
unfolding parsed
parsed-eq seg = ground (arith, syn-flags seg, fin-flags seg, reset-flags seg, ackno-flags seg)

-- Without options nothing is skipped.
Reads-skip_options : Reads (skip_options (tcp_header_min_len * 16 / 16)) [] tt
unfolding skip_options
Reads-skip_options = Reads-bind _ (Reads-pure tt) Reads-skip_none

module _ (seg : TcpSegment) (v : IsSegment seg) (cksum_fits : seg.udinfo.cksum < u16_mod) where
  pub Finishes-members :
      (old : TcpSegment)
      → Finishes (parse_members old) (segment_bytes seg) seg.sender_message.payload (parsed seg)
  unfolding parse_members parsed
  Finishes-members old =
      Finishes-bind _ (Reads-u16 old.udinfo.src_port seg.udinfo.src_port v.src_port_fits) (
        Finishes-bind _ (Reads-u16 old.udinfo.dst_port seg.udinfo.dst_port v.dst_port_fits) (
          Finishes-bind _ (Reads-u32 0 seg.sender_message.seqno v.seqno_fits) (
            Finishes-bind _
              (Reads-u32 seg.sender_message.seqno (ackno_value seg.receiver_message.ackno)
                v.ackno_fits)
              (Finishes-bind _ (Reads-u8 0 (tcp_header_min_len * 16) (omega arith)) (
                Finishes-bind _
                  (Reads-u8 (tcp_header_min_len * 16) (flags seg) (omega (arith, flags-lt seg)))
                  (Finishes-bind _
                    (Reads-u16 old.receiver_message.window_size seg.receiver_message.window_size
                      v.window_fits)
                    (Finishes-bind _ (Reads-u16 old.udinfo.cksum seg.udinfo.cksum cksum_fits) (
                      Finishes-bind _ (Reads-u16 0 0 (omega arith)) (
                        Finishes-bind _ Reads-skip_options
                          (Finishes-rest _ seg.sender_message.payload))))))))))
