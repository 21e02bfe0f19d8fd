-- ===== src/Ethernet/Tests.antt =====
-- Runs of util/ethernet_frame.hh, and the theorem at them.
use networkinglab.Base.{◌≡◌, concat, refl, false, [], ◌∷◌, ok, arith}
use networkinglab.Wire.{Parser, parser, serializer, finish}
use networkinglab.Ethernet.{
  EthernetFrame, no_header, parse_frame, serialize_frame, same_address, ethernet_broadcast,
  type_ipv4,
}
use networkinglab.Ethernet.RoundTrip.{IsHeader, parse-serialize_frame}

abbrev no_frame : EthernetFrame
no_frame = record { header = no_header; payload = [] }

-- A broadcast frame with two strings.
abbrev frame : EthernetFrame
frame = record {
  header = record { dst = ethernet_broadcast; src = 2 ∷ 0 ∷ 0 ∷ 0 ∷ 0 ∷ 1 ∷ []; type = type_ipv4 };
  payload = (1 ∷ 2 ∷ []) ∷ (3 ∷ []) ∷ [];
}

no_header-IsHeader : IsHeader no_header
no_header-IsHeader = record {
  dst_size = refl;
  src_size = refl;
  dst_bytes =
      (omega arith, (omega arith, (omega arith, (omega arith, (omega arith, (omega arith, tt))))));
  src_bytes =
      (omega arith, (omega arith, (omega arith, (omega arith, (omega arith, (omega arith, tt))))));
  type_word = omega arith;
}

header-IsHeader : IsHeader frame.header
header-IsHeader = record {
  dst_size = refl;
  src_size = refl;
  dst_bytes =
      (omega arith, (omega arith, (omega arith, (omega arith, (omega arith, (omega arith, tt))))));
  src_bytes =
      (omega arith, (omega arith, (omega arith, (omega arith, (omega arith, (omega arith, tt))))));
  type_word = omega arith;
}

not_for_us : same_address frame.header.dst frame.header.src ≡ false
unfolding same_address
not_for_us = refl

parse-serialize_frame_example :
    (g : EthernetFrame) × (q : Parser) × (parse_frame no_frame
        (parser (finish (serialize_frame frame serializer)))
      ≡ ok (g, q))
    × (q.error ≡ false)
    × (g.header ≡ frame.header)
    × (concat g.payload ≡ concat frame.payload)
parse-serialize_frame_example =
    parse-serialize_frame no_frame frame no_header-IsHeader header-IsHeader (omega arith)
