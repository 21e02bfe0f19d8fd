-- ===== src/Segment/Summing.antt =====
-- The checksum of util/tcp_segment.cc, and the segment that comes back with it.
use networkinglab.Base.{
  ℕ, ◌+◌, ◌*◌, ◌^◌, ◌≤◌, ◌<◌, ◌≡◌, refl, ap, ◌∙◌, Bool, true, false, List, [], ◌∷◌, ◌++◌, length,
  length-append, concat, u16_mod, u32_mod, ok, append-nil, arith, eq→==,
}
use networkinglab.Message.{TcpSegment}
use networkinglab.Wire.{Parser, parser, serializer, to_bytes, put_buffers, finish}
use networkinglab.Wire.Parsing.{◌>>=◌}
use networkinglab.Wire.Steps.{Stands, Stands-none}
use networkinglab.Wire.Ends.{parser-Stands, Fluent-front, all_remaining_concat-Stands}
use networkinglab.Wire.Writing.{AllBytes, write, finish-StartsWith, concat-finish-put_buffers}
use networkinglab.Checksum
use networkinglab.Checksum.{add, add_all, value}
use networkinglab.Checksum.Sum.{weight, flip, add-weight, add_all-concat, value-verifies}
use networkinglab.Segment.{parse, flags, serialize, with_cksum, compute_checksum}
use networkinglab.Segment.RoundTrip.{
  IsSegment, segment_bytes, put_members-write, Finishes-members, parsed-eq,
}

-- All bytes of the segment.
abbrev pub all_bytes : TcpSegment → List ℕ
all_bytes seg = segment_bytes seg ++ seg.sender_message.payload

pub serialize-eq :
    (seg : TcpSegment)
    → serialize seg serializer
      ≡ put_buffers (seg.sender_message.payload ∷ []) (write (segment_bytes seg) serializer)
unfolding serialize put_buffers
serialize-eq seg = rw (put_members-write seg serializer) refl

pub concat-serialize :
    (seg : TcpSegment) → concat (finish (serialize seg serializer)) ≡ all_bytes seg
concat-serialize seg =
    rw (serialize-eq seg)
      (concat-finish-put_buffers (seg.sender_message.payload ∷ []) (segment_bytes seg))
    ∙ ap (λ l. segment_bytes seg ++ l) (append-nil seg.sender_message.payload)

pub segment_bytes-length : (seg : TcpSegment) → length (segment_bytes seg) ≡ 20
unfolding to_bytes
segment_bytes-length seg = refl

pub all_bytes-length :
    (seg : TcpSegment) → length (all_bytes seg) ≡ 20 + length seg.sender_message.payload
all_bytes-length seg =
    omega (
      arith,
      segment_bytes-length seg,
      length-append (segment_bytes seg) seg.sender_message.payload,
    )

weight-le : (b : Bool) (str : List ℕ) → AllBytes str → weight b str ≤ 65280 * length str
weight-le b [] a = omega arith
weight-le true (x ∷ str) a = omega (arith, a.0, weight-le false str a.1)
weight-le false (x ∷ str) a = omega (arith, a.0, weight-le true str a.1)

module _ (seg : TcpSegment) (v : IsSegment seg) where
  weight-with_cksum :
      (c : ℕ)
      → c < u16_mod
      → weight false (all_bytes (with_cksum seg c))
        ≡ weight false (all_bytes (with_cksum seg 0)) + c
  unfolding to_bytes flags
  weight-with_cksum c h = omega (arith, h)

  weight_pos : 0 < weight false (all_bytes (with_cksum seg 0))
  unfolding to_bytes flags
  weight_pos = omega arith

  weight_bound : weight false (all_bytes (with_cksum seg 0)) ≤ 65280 * 65535
  unfolding to_bytes flags
  weight_bound =
      omega (arith, weight-le false seg.sender_message.payload v.payload_bytes, v.payload_fits)

-- A pseudo-header adds far less than 2^20.
abbrev pub IsPseudo : ℕ → Type 0
IsPseudo pseudo = pseudo < 2 ^ 20

module _ (seg : TcpSegment) (v : IsSegment seg) (pseudo : ℕ) (small : IsPseudo pseudo) where
  -- What is summed for the checksum, with a checksum of zero.
  abbrev unsummed : ℕ
  unsummed = pseudo + weight false (all_bytes (with_cksum seg 0))

  unsummed-lt : unsummed < u32_mod
  unsummed-lt = omega (arith, small, weight_bound seg v)

  abbrev the_cksum : ℕ
  the_cksum = value (record { sum = unsummed; parity = flip false (all_bytes (with_cksum seg 0)) })

  compute_checksum-eq : compute_checksum seg pseudo ≡ with_cksum seg the_cksum
  unfolding compute_checksum
  compute_checksum-eq =
      ap (λ c. with_cksum seg (value c))
        (add_all-concat (Checksum.init pseudo) (finish (serialize (with_cksum seg 0) serializer))
          ∙ ap (add (Checksum.init pseudo)) (concat-serialize (with_cksum seg 0))
          ∙ add-weight (Checksum.init pseudo) (all_bytes (with_cksum seg 0)) unsummed-lt)

  the_cksum-lt : the_cksum < u16_mod
  unfolding value
  the_cksum-lt = omega arith

  unsummed-pos : 0 < unsummed
  unsummed-pos = omega (arith, weight_pos seg v)

  summed_weight :
      pseudo + weight false (all_bytes (with_cksum seg the_cksum)) ≡ unsummed + the_cksum
  summed_weight = omega (arith, weight-with_cksum seg v the_cksum the_cksum-lt)

  summed-lt : pseudo + weight false (all_bytes (with_cksum seg the_cksum)) < u32_mod
  summed-lt = omega (arith, summed_weight, small, weight_bound seg v, the_cksum-lt)

  pub verified : value (add (Checksum.init pseudo) (all_bytes (compute_checksum seg pseudo))) ≡ 0
  verified = rw compute_checksum-eq (
      rw (add-weight (Checksum.init pseudo) (all_bytes (with_cksum seg the_cksum)) summed-lt)
        (value-verifies unsummed _ _ _ summed-lt unsummed-lt summed_weight unsummed-pos))

pub compute_checksum-IsSegment :
    (seg : TcpSegment) (pseudo : ℕ) → IsSegment seg → IsSegment (compute_checksum seg pseudo)
unfolding compute_checksum
compute_checksum-IsSegment seg pseudo v = record {
  src_port_fits = v.src_port_fits;
  dst_port_fits = v.dst_port_fits;
  seqno_fits = v.seqno_fits;
  ackno_fits = v.ackno_fits;
  window_fits = v.window_fits;
  payload_bytes = v.payload_bytes;
  payload_fits = v.payload_fits;
}

pub sent_payload :
    (seg : TcpSegment) (pseudo : ℕ)
    → length (compute_checksum seg pseudo).sender_message.payload
      ≡ length seg.sender_message.payload
unfolding compute_checksum
sent_payload seg pseudo = refl

pub compute_checksum-lt :
    (seg : TcpSegment) (pseudo : ℕ) → (compute_checksum seg pseudo).udinfo.cksum < u16_mod
unfolding compute_checksum value
compute_checksum-lt seg pseudo = omega arith

-- The segment is parsed from wherever it stands, if it is the last thing there.
pub Stands-segment :
    (old seg : TcpSegment) (pseudo : ℕ) (p : Parser)
    → IsSegment seg
    → IsPseudo pseudo
    → let sent = compute_checksum seg pseudo in
      Stands p (segment_bytes sent) sent.sender_message.payload
      → (q : Parser) × (parse old pseudo p ≡ ok (sent, q)) × (q.error ≡ false)
unfolding parse ◌>>=◌
Stands-segment old seg pseudo p v small s =
    let sent = compute_checksum seg pseudo in
    let (q, e, c) =
      (Finishes-members sent (compute_checksum-IsSegment seg pseudo v)
          (compute_checksum-lt seg pseudo) old).at
        p s in
    (
      q,
      rw
          (
            parse,
            all_remaining_concat-Stands p (all_bytes sent) (Stands-none p _ _ s),
            eq→== _ 0 (verified seg v pseudo small),
          )
          (e ∙ ap (λ k. ok (k, q)) (parsed-eq sent)),
      c,
    )

-- If the members of a segment fit their bits, the segment fits an IPv4 datagram and the checksum
-- of the pseudo-header is below 2^20, then what is serialized of the segment with its checksum is
-- parsed, with the same pseudo-header, as that segment and without an error, whatever the parser
-- writes to.
pub parse-compute_checksum :
    (old seg : TcpSegment) (pseudo : ℕ)
    → IsSegment seg
    → IsPseudo pseudo
    → let sent = compute_checksum seg pseudo in
      (q : Parser) × (parse old pseudo (parser (finish (serialize sent serializer))) ≡ ok (sent, q))
      × (q.error ≡ false)
parse-compute_checksum old seg pseudo v small =
    let sent = compute_checksum seg pseudo in
    let bytes = segment_bytes sent in
    let payload = sent.sender_message.payload in
    let (tail, e) = finish-StartsWith (payload ∷ []) bytes in
    Stands-segment old seg pseudo _ v small (
      parser-Stands (finish (serialize sent serializer)) bytes payload (concat-serialize sent)
        (rw (serialize-eq sent) (rw e (Fluent-front (length bytes) bytes tail (omega arith))))
        (omega (arith, v.payload_fits, all_bytes-length sent, sent_payload seg pseudo)))
