-- ===== src/Segment/Tests.antt =====
-- Runs of util/tcp_segment.cc, and the theorem at them.
use networkinglab.Base.{◌≡◌, refl, true, false, some, [], ◌∷◌, ok, arith}
use networkinglab.Message.{TcpSegment}
use networkinglab.Wire.{Parser, parser, serializer, finish}
use networkinglab.Segment.{no_segment, parse, flags, serialize, compute_checksum}
use networkinglab.Segment.RoundTrip.{IsSegment}
use networkinglab.Segment.Summing.{parse-compute_checksum}

-- A segment with a SYN, an ackno and two bytes.
abbrev segment : TcpSegment
segment = record {
  sender_message = record { seqno = 7; syn = true; payload = 1 ∷ 2 ∷ []; fin = false };
  receiver_message = record { ackno = some 9; window_size = 1000 };
  reset = false;
  udinfo = record { src_port = 1024; dst_port = 80; cksum = 0 };
}

segment-IsSegment : IsSegment segment
segment-IsSegment = record {
  src_port_fits = omega arith;
  dst_port_fits = omega arith;
  seqno_fits = omega arith;
  ackno_fits = omega arith;
  window_fits = omega arith;
  payload_bytes = (omega arith, (omega arith, tt));
  payload_fits = omega arith;
}

syn_and_ack : flags segment ≡ 18
unfolding flags
syn_and_ack = refl

parse-compute_checksum_example :
    (q : Parser) × (parse no_segment 6
        (parser (finish (serialize (compute_checksum segment 6) serializer)))
      ≡ ok (compute_checksum segment 6, q))
    × (q.error ≡ false)
parse-compute_checksum_example =
    parse-compute_checksum no_segment segment 6 segment-IsSegment (omega arith)
