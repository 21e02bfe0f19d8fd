-- ===== src/Adapter/Carried.antt =====
-- util/tcp_over_ip.cc: what one end wraps, the other end unwraps.
use networkinglab.Base.{
  ℕ, ◌<◌, ◌≡◌, refl, sym, ap, ◌∙◌, true, false, some, List, [], ◌∷◌, concat, ok, eq→==, u16_mod,
  u32_mod, arith,
}
use networkinglab.Message.{TcpSegment}
use networkinglab.Wire.{parser, serializer, finish}
use networkinglab.Ipv4.{Ipv4Header, Ipv4Datagram, pseudo_checksum, payload_length}
use networkinglab.Ipv4.RoundTrip.{right_cksum, compute_checksum-right}
use networkinglab.Segment
use networkinglab.Segment.{no_segment}
use networkinglab.Wire.Reading.{Fluent, Fluent-resp}
use networkinglab.Wire.Ends.{parser-Stands, Fluent-front}
use networkinglab.Wire.Writing.{finish-StartsWith}
use networkinglab.Segment.RoundTrip.{IsSegment, segment_bytes}
use networkinglab.Segment.Summing.{
  IsPseudo, Stands-segment, all_bytes, all_bytes-length, segment_bytes-length, serialize-eq,
  concat-serialize, sent_payload,
}
use networkinglab.Adapter.{
  FdAdapter, parse_segment, from_peer, connect, accept, accept_parsed, is_ours, unwrap_tcp_in_ip,
  with_ports, datagram_header, wrap_tcp_in_ip,
}

-- The adapter's addresses and ports fit their bits.
pub record IsAdapter (a : FdAdapter) : Type 0 where
  pub source_ip : a.cfg.source.ip < u32_mod
  pub source_port : a.cfg.source.port < u16_mod
  pub destination_ip : a.cfg.destination.ip < u32_mod
  pub destination_port : a.cfg.destination.port < u16_mod

-- The datagram that carries the segment, and the segment as it was sent.
abbrev pub sent_segment : FdAdapter → TcpSegment → TcpSegment
sent_segment a seg =
    Segment.compute_checksum (with_ports a seg) (pseudo_checksum (datagram_header a seg))

abbrev pub sent_header : FdAdapter → TcpSegment → Ipv4Header
sent_header a seg = record (datagram_header a seg) { cksum = right_cksum (datagram_header a seg) }

abbrev pub sent_datagram : FdAdapter → TcpSegment → Ipv4Datagram
sent_datagram a seg = record {
  header = sent_header a seg;
  payload = finish (Segment.serialize (sent_segment a seg) serializer);
}

pub wrap_tcp_in_ip-sent :
    (a : FdAdapter) (seg : TcpSegment)
    → wrap_tcp_in_ip a seg ≡ ok (sent_datagram a seg, sent_segment a seg)
unfolding wrap_tcp_in_ip
wrap_tcp_in_ip-sent a seg = rw (compute_checksum-right (datagram_header a seg) refl) refl

pseudo_checksum-IsPseudo :
    (a : FdAdapter) (seg : TcpSegment)
    → IsAdapter a
    → IsPseudo (pseudo_checksum (datagram_header a seg))
unfolding pseudo_checksum payload_length
pseudo_checksum-IsPseudo a seg v = omega (arith, v.source_ip, v.destination_ip)

module _ (a : FdAdapter) (seg : TcpSegment) (v : IsAdapter a) (s : IsSegment seg) where
  with_ports-IsSegment : IsSegment (with_ports a seg)
  with_ports-IsSegment = record {
    src_port_fits = v.source_port;
    dst_port_fits = v.destination_port;
    seqno_fits = s.seqno_fits;
    ackno_fits = s.ackno_fits;
    window_fits = s.window_fits;
    payload_bytes = s.payload_bytes;
    payload_fits = s.payload_fits;
  }

  -- The checksum of the header is not in the pseudo-header.
  same_pseudo : pseudo_checksum (sent_header a seg) ≡ pseudo_checksum (datagram_header a seg)
  unfolding pseudo_checksum payload_length
  same_pseudo = refl

  -- The segment is parsed from any strings that hold its bytes, the first twenty readable.
  pub parse_segment-carried :
      (buffers : List (List ℕ))
      → concat buffers ≡ all_bytes (sent_segment a seg)
      → Fluent 20 buffers
      → parse_segment (pseudo_checksum (sent_header a seg)) buffers ≡ ok (some (sent_segment a seg))
  unfolding parse_segment
  parse_segment-carried buffers e f =
      let pseudo = pseudo_checksum (datagram_header a seg) in
      let sent = sent_segment a seg in
      let (q, r, c) =
        Stands-segment no_segment (with_ports a seg) pseudo (parser buffers) with_ports-IsSegment
          (pseudo_checksum-IsPseudo a seg v)
          (parser-Stands buffers (segment_bytes sent) sent.sender_message.payload e
            (Fluent-resp buffers (sym (segment_bytes-length sent)) f)
            (omega (
              arith,
              s.payload_fits,
              all_bytes-length sent,
              sent_payload (with_ports a seg) pseudo,
            ))) in
      ap (λ k. parse_segment k buffers) same_pseudo ∙ rw (parse_segment, r, c) refl

  sent-Fluent : Fluent 20 (sent_datagram a seg).payload
  sent-Fluent =
      let sent = sent_segment a seg in
      let (tail, e) = finish-StartsWith (sent.sender_message.payload ∷ []) (segment_bytes sent) in
      rw (serialize-eq sent) (
        rw e (Fluent-front 20 (segment_bytes sent) tail (omega (arith, segment_bytes-length sent))))

  -- A datagram with the header and such strings, at the other end `b`.
  module _ (b : FdAdapter) (port : b.cfg.source.port ≡ a.cfg.destination.port)
      (buffers : List (List ℕ)) (whole : concat buffers ≡ all_bytes (sent_segment a seg))
      (fluent : Fluent 20 buffers) where
    abbrev carrying : Ipv4Datagram
    carrying = record { header = sent_header a seg; payload = buffers }

    accept_sent :
        is_ours b (sent_header a seg) ≡ true
        → unwrap_tcp_in_ip b carrying ≡ ok (accept b (sent_header a seg) (sent_segment a seg))
    unfolding unwrap_tcp_in_ip accept_parsed
    accept_sent e = rw (unwrap_tcp_in_ip, e, parse_segment-carried buffers whole fluent) refl

    pub accept_connected :
        b.listen ≡ false
        → b.cfg.source.ip ≡ a.cfg.destination.ip
        → b.cfg.destination.ip ≡ a.cfg.source.ip
        → b.cfg.destination.port ≡ a.cfg.source.port
        → unwrap_tcp_in_ip b carrying ≡ ok (some (sent_segment a seg), b)
    unfolding is_ours accept from_peer Segment.compute_checksum
    accept_connected l i j k =
        accept_sent (ground (arith, l, i, j))
        ∙ ap ok (
            rw
              (
                accept,
                eq→== a.cfg.destination.port b.cfg.source.port (sym port),
                l,
                eq→== a.cfg.source.port b.cfg.destination.port (sym k),
              )
              refl)

    accept_listening :
        b.listen ≡ true
        → seg.sender_message.syn ≡ true
        → seg.reset ≡ false
        → unwrap_tcp_in_ip b carrying
          ≡ ok (
            some (sent_segment a seg),
            record {
              cfg = record b.cfg {
                source = record { ip = a.cfg.destination.ip; port = b.cfg.source.port };
                destination = a.cfg.source;
              };
              listen = false;
            },
          )
    unfolding is_ours accept from_peer connect Segment.compute_checksum
    accept_listening l y r =
        accept_sent (ground (arith, l))
        ∙ ap ok (
            rw
              (
                accept,
                eq→== a.cfg.destination.port b.cfg.source.port (sym port),
                l,
                y,
                r,
                eq→== a.cfg.source.port a.cfg.source.port refl,
              )
              refl)

  module _ (b : FdAdapter) (port : b.cfg.source.port ≡ a.cfg.destination.port) where
    -- If the members of a segment and the addresses and ports of an adapter fit their bits and the
    -- segment has a SYN and no reset, then it can be wrapped, and a listening adapter with the
    -- destination port unwraps the segment with the checksum and ports that wrapping gave it,
    -- takes the addresses of the datagram and the port of the sender as its own connection, and
    -- listens no more.
    pub unwrap-wrap_listening :
        b.listen ≡ true
        → seg.sender_message.syn ≡ true
        → seg.reset ≡ false
        → (wrap_tcp_in_ip a seg ≡ ok (sent_datagram a seg, sent_segment a seg))
          × (unwrap_tcp_in_ip b (sent_datagram a seg)
              ≡ ok (
                some (sent_segment a seg),
                record {
                  cfg = record b.cfg {
                    source = record { ip = a.cfg.destination.ip; port = b.cfg.source.port };
                    destination = a.cfg.source;
                  };
                  listen = false;
                },
              ))
    unwrap-wrap_listening l y r = (
      wrap_tcp_in_ip-sent a seg,
      accept_listening b port _ (concat-serialize (sent_segment a seg)) sent-Fluent l y r,
    )
