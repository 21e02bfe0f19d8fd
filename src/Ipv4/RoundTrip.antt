-- ===== src/Ipv4/RoundTrip.antt =====
-- util/ipv4_header.cc and util/ipv4_datagram.hh: what is serialized is parsed again.
use networkinglab.Base.{
  ℕ, ◌+◌, ◌*◌, ◌/◌, ◌%◌, ◌<◌, ◌≡◌, refl, sym, ap, subst, ◌∙◌, true, false, List, [], ◌++◌, length,
  length-append, concat, u16_mod, u32_mod, u64_mod, ok, ok-injective, runtime_error, Bool-cases,
  inl, inr, append-nil, append_assoc, arith, ◌==◌, eq→==, ge→ltb, ◌-◌,
}
use networkinglab.Wire.{
  Parser, parser, Serializer, serializer, to_bytes, put_integer, put_buffers, finish,
}
use networkinglab.Wire.Parsing.{lift, ◌>>=◌}
use networkinglab.Wire.Reading.{Fluent}
use networkinglab.Wire.Steps.{
  Reads, Reads-bind, Reads-pure, Reads-u8, Reads-u16, Reads-u32, Reads-skip_none, Stands,
}
use networkinglab.Wire.Ends.{parser-Stands, Fluent-front, all_remaining-Stands}
use networkinglab.Wire.Writing.{write, finish-StartsWith, concat-finish-put_buffers}
use networkinglab.Checksum
use networkinglab.Checksum.{value, add_all}
use networkinglab.Ipv4.{
  Ipv4Header, Ipv4Datagram, first_byte, fo_val, put_members, header_length, serialize_header,
  compute_checksum, parse_members, verify, check_header, parse_header, parse_datagram,
  serialize_datagram,
}

-- A header of version 4 without options, whose members fit their bits and whose checksum is right.
pub record IsHeader (h : Ipv4Header) : Type 0 where
  pub version : h.ver ≡ 4
  pub no_options : h.hlen ≡ 5
  pub tos_fits : h.tos < 256
  pub len_fits : h.len < u16_mod
  pub id_fits : h.id < u16_mod
  pub offset_fits : h.offset < 0x2000
  pub ttl_fits : h.ttl < 256
  pub proto_fits : h.proto < 256
  pub cksum_fits : h.cksum < u16_mod
  pub src_fits : h.src < u32_mod
  pub dst_fits : h.dst < u32_mod
  pub summed : compute_checksum h ≡ ok h

abbrev pub header_bytes : Ipv4Header → List ℕ
header_bytes h =
    to_bytes 1 (first_byte h)
    ++ (to_bytes 1 h.tos
        ++ (to_bytes 2 h.len
            ++ (to_bytes 2 h.id
                ++ (to_bytes 2 (fo_val h)
                    ++ (to_bytes 1 h.ttl
                        ++ (to_bytes 1 h.proto
                            ++ (to_bytes 2 h.cksum
                                ++ (to_bytes 4 h.src ++ (to_bytes 4 h.dst ++ [])))))))))

put_members-write : (h : Ipv4Header) (s : Serializer) → put_members h s ≡ write (header_bytes h) s
unfolding put_members put_integer
put_members-write h s = simp (append_assoc, append-nil)

-- The flags come back from their bits.
df-fo_val : (h : Ipv4Header) → h.offset < 0x2000 → (fo_val h / 0x4000 % 2 == 1) ≡ h.df
unfolding fo_val
df-fo_val h o = ground (arith)

mf-fo_val : (h : Ipv4Header) → h.offset < 0x2000 → (fo_val h / 0x2000 % 2 == 1) ≡ h.mf
unfolding fo_val
mf-fo_val h o = ground (arith)

offset-fo_val : (h : Ipv4Header) → h.offset < 0x2000 → fo_val h % 0x2000 ≡ h.offset
unfolding fo_val
offset-fo_val h o = ground (arith)

fo_val-lt : (h : Ipv4Header) → fo_val h < u16_mod
unfolding fo_val
fo_val-lt h = ground (arith)

module _ (h : Ipv4Header) (v : IsHeader h) where
  first_byte-lt : first_byte h < 256
  unfolding first_byte
  first_byte-lt = omega arith

  ver-first_byte : first_byte h / 16 ≡ h.ver
  unfolding first_byte
  ver-first_byte = omega (arith, v.version, v.no_options)

  hlen-first_byte : first_byte h % 16 ≡ h.hlen
  unfolding first_byte
  hlen-first_byte = omega (arith, v.version, v.no_options)

  -- What the parser makes of the members.
  parsed : Ipv4Header
  parsed = record h {
    ver = first_byte h / 16;
    hlen = first_byte h % 16;
    df = fo_val h / 0x4000 % 2 == 1;
    mf = fo_val h / 0x2000 % 2 == 1;
    offset = fo_val h % 0x2000;
  }

  parsed-eq : parsed ≡ h
  unfolding parsed
  parsed-eq = ground (
    arith,
    ver-first_byte,
    hlen-first_byte,
    df-fo_val h v.offset_fits,
    mf-fo_val h v.offset_fits,
    offset-fo_val h v.offset_fits,
  )

  Reads-members : (old : Ipv4Header) → Reads (parse_members old) (header_bytes h) h
  unfolding parse_members parsed
  Reads-members old =
      subst (λ k. Reads (parse_members old) (header_bytes h) k) parsed-eq
        (Reads-bind _ (Reads-u8 0 (first_byte h) first_byte-lt) (
          Reads-bind _ (Reads-u8 old.tos h.tos v.tos_fits) (
            Reads-bind _ (Reads-u16 old.len h.len v.len_fits) (
              Reads-bind _ (Reads-u16 old.id h.id v.id_fits) (
                Reads-bind _ (Reads-u16 0 (fo_val h) (fo_val-lt h)) (
                  Reads-bind _ (Reads-u8 old.ttl h.ttl v.ttl_fits) (
                    Reads-bind _ (Reads-u8 old.proto h.proto v.proto_fits) (
                      Reads-bind _ (Reads-u16 old.cksum h.cksum v.cksum_fits) (
                        Reads-bind _ (Reads-u32 old.src h.src v.src_fits) (
                          Reads-bind _ (Reads-u32 old.dst h.dst v.dst_fits)
                            (Reads-pure parsed)))))))))))

  check_header-verify : (p : Parser) → p.error ≡ false → check_header h p ≡ verify h p
  unfolding check_header ◌>>=◌
  check_header-verify p e =
      rw (check_header, eq→== h.ver 4 v.version, ge→ltb h.hlen 5 (omega (arith, v.no_options)), e)
        refl

  -- A header that is right passes the tests, and nothing is skipped.
  Stands-check :
      (p : Parser) (more rest : List ℕ)
      → Stands p more rest
      → (q : Parser) × (check_header h p ≡ ok (h, q)) × Stands q more rest
  unfolding verify lift ◌>>=◌
  Stands-check p more rest s =
      let (q, e, t) = Reads-skip_none.at p more rest s in
      let none_left : h.hlen * 4 - header_length ≡ 0 = omega (arith, v.no_options) in
      (
        q,
        check_header-verify p s.1
            ∙ rw (verify, none_left, e, v.summed, eq→== h.cksum h.cksum refl) refl,
        t,
      )

  pub Stands-header :
      (old : Ipv4Header) (p : Parser) (more rest : List ℕ)
      → Stands p (header_bytes h ++ more) rest
      → (q : Parser) × (parse_header old p ≡ ok (h, q)) × Stands q more rest
  unfolding parse_header ◌>>=◌
  Stands-header old p more rest s =
      let (q, e, t) = (Reads-members old).at p more rest s in
      let (r, d, u) = Stands-check q more rest t in (r, rw (parse_header, e, d) refl, u)

  pub header_bytes-length : length (header_bytes h) ≡ 20
  unfolding to_bytes
  header_bytes-length = refl

  pub serialize_header-write :
      (s : Serializer) → serialize_header h s ≡ ok (write (header_bytes h) s)
  unfolding serialize_header
  serialize_header-write s =
      rw (serialize_header, eq→== h.ver 4 v.version) (ap ok (put_members-write h s))

-- A datagram is parsed from wherever its header stands, and takes all that is behind as its payload.
-- What could be read behind the header can be read from the payload.
pub Stands-datagram :
    (old : Ipv4Datagram) (h : Ipv4Header) (p : Parser) (more rest : List ℕ)
    → IsHeader h
    → Stands p (header_bytes h ++ more) rest
    → (d : Ipv4Datagram) × (q : Parser) × (parse_datagram old p ≡ ok (d, q))
      × (q.error ≡ false)
      × (d.header ≡ h)
      × (concat d.payload ≡ more ++ rest)
      × Fluent (length more) d.payload
unfolding parse_datagram ◌>>=◌
Stands-datagram old h p more rest v s =
    let (q, e, t) = Stands-header h v old.header p more rest s in
    let (bs, d, c, f) = all_remaining-Stands q more rest t in
    (record { header = h; payload = bs }, q, rw (parse_datagram, e, d) refl, t.1, refl, c, f)

-- The strings of a datagram that has been serialized.
pub serialize_datagram-eq :
    (d : Ipv4Datagram)
    → IsHeader d.header
    → serialize_datagram d serializer
      ≡ ok (put_buffers d.payload (write (header_bytes d.header) serializer))
unfolding serialize_datagram
serialize_datagram-eq d v =
    rw (serialize_datagram, serialize_header-write d.header v serializer) refl

-- If a datagram has version 4, no options, members that fit their bits, the right checksum, and
-- less than 2^64 bytes, then it is serialized and parsed again without an error, with the same
-- header and the same bytes of payload, whatever the parser writes to.
pub parse-serialize_datagram :
    (old d : Ipv4Datagram)
    → IsHeader d.header
    → 20 + length (concat d.payload) < u64_mod
    → (s : Serializer) × (g : Ipv4Datagram) × (q : Parser) × (serialize_datagram d serializer
        ≡ ok s)
      × (parse_datagram old (parser (finish s)) ≡ ok (g, q))
      × (q.error ≡ false)
      × (g.header ≡ d.header)
      × (concat g.payload ≡ concat d.payload)
parse-serialize_datagram old d v word =
    let bytes = header_bytes d.header in
    let s = put_buffers d.payload (write bytes serializer) in
    let (tail, e) = finish-StartsWith d.payload bytes in
    let (g, q, a, b, c, f, l) =
      Stands-datagram old d.header (parser (finish s)) [] (concat d.payload) v (
        subst (λ l. Stands (parser (finish s)) l (concat d.payload)) (sym (append-nil bytes))
          (parser-Stands _ bytes (concat d.payload) (concat-finish-put_buffers d.payload bytes)
            (rw e (Fluent-front (length bytes) bytes tail (omega arith)))
            (omega (
              arith,
              word,
              header_bytes-length d.header v,
              length-append bytes (concat d.payload),
            )))) in
    (s, g, q, serialize_datagram-eq d v, a, b, c, f)

refused : (h : Ipv4Header) → (h.ver == 4) ≡ false → compute_checksum h ≡ runtime_error
unfolding compute_checksum serialize_header
refused h a = rw (compute_checksum, a) refl

-- The checksum of the header's bytes with a checksum of zero.
unfoldable pub right_cksum : Ipv4Header → ℕ
right_cksum h =
    value (add_all (Checksum.init 0) (finish (put_members (record h { cksum = 0 }) serializer)))

pub compute_checksum-right :
    (h : Ipv4Header)
    → (h.ver == 4) ≡ true
    → compute_checksum h ≡ ok (record h { cksum = right_cksum h })
unfolding compute_checksum serialize_header right_cksum
compute_checksum-right h e = rw (compute_checksum, e) refl

pub compute_checksum-summed :
    (h h' : Ipv4Header) → compute_checksum h ≡ ok h' → compute_checksum h' ≡ ok h'
unfolding right_cksum
compute_checksum-summed h h' e = elim (Bool-cases (h.ver == 4)) [
  | inl a ↦
      subst (λ k. compute_checksum k ≡ ok k) (ok-injective (sym (compute_checksum-right h a) ∙ e))
        (compute_checksum-right (record h { cksum = right_cksum h }) a)
  | inr a ↦ absurd (wrong_version a)
]
  where
    wrong_version : (h.ver == 4) ≡ false → ⊥
    wrong_version a = cc (sym (refused h a) ∙ e)
