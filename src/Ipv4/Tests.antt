-- ===== src/Ipv4/Tests.antt =====
-- Runs of util/ipv4_header.cc and util/ipv4_datagram.hh, and the theorem at them.
use networkinglab.Base.{◌≡◌, concat, refl, false, [], ◌∷◌, ok, arith}
use networkinglab.Wire.{Parser, Serializer, parser, serializer, put_integer, to_bytes, finish}
use networkinglab.Checksum.{value, add, add_all, add_byte}
use networkinglab.Ipv4.{
  Ipv4Header, Ipv4Datagram, new_header, put_members, first_byte, fo_val, payload_length,
  parse_datagram, serialize_datagram,
}
use networkinglab.Ipv4.RoundTrip.{
  IsHeader, right_cksum, compute_checksum-right, compute_checksum-summed, parse-serialize_datagram,
}

abbrev unsummed : Ipv4Header
unsummed = record new_header { len = 23; src = 0x0a000001; dst = 0x0a000002 }

-- A datagram of three bytes from 10.0.0.1 to 10.0.0.2.
abbrev datagram : Ipv4Datagram
datagram = record {
  header = record unsummed { cksum = right_cksum unsummed };
  payload = (1 ∷ 2 ∷ []) ∷ (3 ∷ []) ∷ [];
}

abbrev no_datagram : Ipv4Datagram
no_datagram = record { header = new_header; payload = [] }

sum_of_header : right_cksum unsummed ≡ 0xe6de
unfolding right_cksum value add_all finish put_members put_integer serializer add to_bytes add_byte
    first_byte fo_val
sum_of_header = refl

three_bytes : payload_length unsummed ≡ 3
unfolding payload_length
three_bytes = refl

header-IsHeader : IsHeader datagram.header
header-IsHeader = record {
  version = refl;
  no_options = refl;
  tos_fits = omega arith;
  len_fits = omega arith;
  id_fits = omega arith;
  offset_fits = omega arith;
  ttl_fits = omega arith;
  proto_fits = omega arith;
  cksum_fits = omega (arith, sum_of_header);
  src_fits = omega arith;
  dst_fits = omega arith;
  summed = compute_checksum-summed unsummed datagram.header (compute_checksum-right unsummed refl);
}

parse-serialize_datagram_example :
    (s : Serializer) × (g : Ipv4Datagram) × (q : Parser) × (serialize_datagram datagram serializer
      ≡ ok s)
    × (parse_datagram no_datagram (parser (finish s)) ≡ ok (g, q))
    × (q.error ≡ false)
    × (g.header ≡ datagram.header)
    × (concat g.payload ≡ concat datagram.payload)
parse-serialize_datagram_example =
    parse-serialize_datagram no_datagram datagram header-IsHeader (omega arith)
