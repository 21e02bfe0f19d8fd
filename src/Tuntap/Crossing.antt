-- ===== src/Tuntap/Crossing.antt =====
-- util/tuntap_adapter.cc: a segment that is written to one TUN device and read from another.
use networkinglab.Base.{
  ℕ, ◌+◌, ◌<◌, ◌≤◌, ◌≡◌, refl, sym, ap, ap₂, take, take-append-le, take_of_length-le,
  drop-append-le, drop_of_length-le, subst, ◌∙◌, false, some, List, [], ◌∷◌, ◌++◌, append-nil,
  append_assoc, length, length-append, concat, ok, ◌>>=◌, u16_mod, u64_mod, arith,
}
use networkinglab.Message.{TcpSegment}
use networkinglab.Wire.{parser, serializer, finish, put_buffers}
use networkinglab.Wire.Reading.{Fluent, Fluent-resp}
use networkinglab.Wire.Steps.{Stands}
use networkinglab.Wire.Ends.{parser-Stands, Fluent-front}
use networkinglab.Wire.Writing.{write, concat-finish-put_buffers}
use networkinglab.Checksum.{value}
use networkinglab.Ipv4.{Ipv4Header, Ipv4Datagram, header_length, pseudo_checksum}
use networkinglab.Ipv4.RoundTrip.{
  IsHeader, header_bytes, header_bytes-length, Stands-datagram, serialize_datagram-eq, right_cksum,
  compute_checksum-right, compute_checksum-summed,
}
use networkinglab.Segment
use networkinglab.Segment.RoundTrip.{IsSegment, segment_bytes}
use networkinglab.Segment.Summing.{
  all_bytes, all_bytes-length, segment_bytes-length, concat-serialize, sent_payload,
}
use networkinglab.Interface.{parse_ip, no_datagram}
use networkinglab.Adapter.{FdAdapter, with_ports, datagram_header, unwrap_tcp_in_ip}
use networkinglab.Adapter.Carried.{
  IsAdapter, sent_segment, sent_header, sent_datagram, wrap_tcp_in_ip-sent, accept_connected,
}
use networkinglab.Descriptor.{read_buffer_size}
use networkinglab.Tuntap.{scatter, unwrap_parsed, tun_read, tun_write}

scatter-append :
    (n m : ℕ) (xs ys : List ℕ)
    → length xs ≡ n
    → length ys ≤ m
    → scatter (n ∷ m ∷ []) (xs ++ ys) ≡ xs ∷ ys ∷ []
unfolding scatter
scatter-append n m xs ys e h =
    ap₂ (λ a b. a ∷ b ∷ [])
      (take-append-le n xs ys (omega (arith, e)) ∙ take_of_length-le n xs (omega (arith, e)))
      (ap (take m) (
          drop-append-le n xs ys (omega (arith, e))
          ∙ ap (λ l. l ++ ys) (drop_of_length-le n xs (omega (arith, e))))
        ∙ take_of_length-le m ys h)

-- A parser with two strings stands at the front of the first one.
two-Stand :
    (xs more rest : List ℕ)
    → 0 < length xs
    → length (xs ++ (more ++ rest)) < u64_mod
    → Stands (parser (xs ∷ (more ++ rest) ∷ [])) (xs ++ more) rest
two-Stand xs more rest h w =
    parser-Stands (xs ∷ (more ++ rest) ∷ []) (xs ++ more) rest
      (ap (λ l. xs ++ l) (append-nil (more ++ rest)) ∙ sym (append_assoc xs more rest))
      (
        (λ k. h),
        Fluent-resp {m = length more} ((more ++ rest) ∷ []) (omega (arith, length-append xs more))
            (Fluent-front (length more) (more ++ rest) [] (omega (arith, length-append more rest))),
      )
      (omega (arith, w, ap length (append_assoc xs more rest)))

right_cksum-lt : (h : Ipv4Header) → right_cksum h < u16_mod
unfolding right_cksum value
right_cksum-lt h = omega arith

sent_header-IsHeader :
    (a : FdAdapter) (seg : TcpSegment) → IsAdapter a → IsHeader (sent_header a seg)
sent_header-IsHeader a seg v = record {
  version = refl;
  no_options = refl;
  tos_fits = omega arith;
  len_fits = omega arith;
  id_fits = omega arith;
  offset_fits = omega arith;
  ttl_fits = omega arith;
  proto_fits = omega arith;
  cksum_fits = right_cksum-lt (datagram_header a seg);
  src_fits = v.source_ip;
  dst_fits = v.destination_ip;
  summed =
      compute_checksum-summed (datagram_header a seg) (sent_header a seg)
        (compute_checksum-right (datagram_header a seg) refl);
}

module _ (a : FdAdapter) (seg : TcpSegment) (v : IsAdapter a) (s : IsSegment seg) where
  -- The strings that are written.
  abbrev pub sent_strings : List (List ℕ)
  sent_strings = finish (
      put_buffers (sent_datagram a seg).payload
        (write (header_bytes (sent_header a seg)) serializer))

  tun_write-sent : tun_write a seg ≡ ok (sent_strings, sent_segment a seg)
  unfolding tun_write
  tun_write-sent =
      rw
        (
          tun_write,
          wrap_tcp_in_ip-sent a seg,
          serialize_datagram-eq (sent_datagram a seg) (sent_header-IsHeader a seg v),
        )
        refl

  concat-sent_strings :
      concat sent_strings ≡ header_bytes (sent_header a seg) ++ all_bytes (sent_segment a seg)
  concat-sent_strings =
      concat-finish-put_buffers (sent_datagram a seg).payload (header_bytes (sent_header a seg))
      ∙ ap (λ l. header_bytes (sent_header a seg) ++ l) (concat-serialize (sent_segment a seg))

  -- The strings that are read: the header, and what it carries.
  abbrev read_strings : List (List ℕ)
  read_strings = header_bytes (sent_header a seg) ∷ all_bytes (sent_segment a seg) ∷ []

  sent-length : length (all_bytes (sent_segment a seg)) ≡ 20 + length seg.sender_message.payload
  sent-length =
      all_bytes-length (sent_segment a seg)
      ∙ ap (λ n. 20 + n) (sent_payload (with_ports a seg) (pseudo_checksum (datagram_header a seg)))

  head-length : length (header_bytes (sent_header a seg)) ≡ 20
  head-length = header_bytes-length (sent_header a seg) (sent_header-IsHeader a seg v)

  scatter-sent :
      20 + length seg.sender_message.payload ≤ read_buffer_size
      → scatter (header_length ∷ read_buffer_size ∷ []) (concat sent_strings) ≡ read_strings
  scatter-sent h =
      ap (scatter (header_length ∷ read_buffer_size ∷ [])) concat-sent_strings
      ∙ scatter-append header_length read_buffer_size (header_bytes (sent_header a seg))
          (all_bytes (sent_segment a seg)) head-length (omega (arith, h, sent-length))

  parse_ip-sent :
      (d : Ipv4Datagram) × (parse_ip read_strings ≡ ok (some d))
      × (d.header ≡ sent_header a seg)
      × (concat d.payload ≡ all_bytes (sent_segment a seg))
      × Fluent 20 d.payload
  unfolding parse_ip
  parse_ip-sent =
      let sent = sent_segment a seg in
      let h = sent_header a seg in
      let small : length (header_bytes h ++ all_bytes sent) < u64_mod = omega (
        arith,
        length-append (header_bytes h) (all_bytes sent),
        head-length,
        sent-length,
        s.payload_fits,
      ) in
      let stands : Stands (parser read_strings) (header_bytes h ++ segment_bytes sent)
          sent.sender_message.payload =
        two-Stand (header_bytes h) (segment_bytes sent) sent.sender_message.payload
          (omega (arith, head-length)) small in
      let (d, q, e, c, f, g, l) =
        Stands-datagram no_datagram h (parser read_strings) (segment_bytes sent)
          sent.sender_message.payload (sent_header-IsHeader a seg v) stands in
      (d, rw (parse_ip, e, c) refl, f, g, Fluent-resp d.payload (segment_bytes-length sent) l)

  -- If the members of a segment and the addresses and ports of an adapter fit their bits and the
  -- segment is no longer than the read buffer, then the write of the segment to a TUN device comes
  -- to an end without an exception, and a connected adapter with the source and the destination
  -- exchanged, which does not listen, reads from the bytes that have been written the segment with
  -- the same message of the sender, the same message of the receiver and the same reset flag, and
  -- stays as it is.
  pub tun_read-tun_write :
      (b : FdAdapter)
      → 20 + length seg.sender_message.payload ≤ read_buffer_size
      → b.listen ≡ false
      → b.cfg.source ≡ a.cfg.destination
      → b.cfg.destination ≡ a.cfg.source
      → (strs : List (List ℕ)) × (sent : TcpSegment) × (tun_write a seg ≡ ok (strs, sent))
        × (tun_read b (concat strs) ≡ ok (some sent, b))
        × (sent.sender_message ≡ seg.sender_message)
        × (sent.receiver_message ≡ seg.receiver_message)
        × (sent.reset ≡ seg.reset)
  unfolding tun_read unwrap_parsed Segment.compute_checksum
  tun_read-tun_write b h l i j =
      let (d, e, f, g, k) = parse_ip-sent in
      let unwrapped : unwrap_tcp_in_ip b d ≡ ok (some (sent_segment a seg), b) =
        subst
          (λ w.
            unwrap_tcp_in_ip b (record { header = w; payload = d.payload })
            ≡ ok (some (sent_segment a seg), b))
          (sym f)
          (accept_connected a seg v s b (ap (λ x. x.port) i) d.payload g k l (ap (λ x. x.ip) i)
            (ap (λ x. x.ip) j) (ap (λ x. x.port) j)) in
      (
        sent_strings,
        sent_segment a seg,
        tun_write-sent,
        ap (λ x. parse_ip x >>= unwrap_parsed b) (scatter-sent h) ∙ rw (e) unwrapped,
        refl,
        refl,
        refl,
      )
