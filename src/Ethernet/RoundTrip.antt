-- ===== src/Ethernet/RoundTrip.antt =====
-- util/ethernet_header.cc and util/ethernet_frame.hh: what is serialized is parsed again.
use networkinglab.Base.{
  ℕ, ◌+◌, ◌<◌, ◌≡◌, refl, sym, ap, subst, ◌∙◌, false, List, [], ◌++◌, length, length-append, concat,
  u16_mod, u64_mod, ok, append-nil, append_assoc, arith,
}
use networkinglab.Wire.{Parser, parser, Serializer, serializer, to_bytes, put_integer, finish}
use networkinglab.Wire.Parsing.{◌>>=◌}
use networkinglab.Wire.Steps.{Reads, Reads-bind, Reads-pure, Reads-byte_array, Reads-u16, Stands}
use networkinglab.Wire.Ends.{parser-Stands, all_remaining-Stands, Fluent-front}
use networkinglab.Wire.Writing.{
  AllBytes, write, write-write, put_bytes-write, put_integer-write, finish-StartsWith,
  concat-finish-put_buffers,
}
use networkinglab.Ethernet.{
  EthernetHeader, EthernetFrame, parse_header, serialize_header, parse_frame, serialize_frame,
}

-- Six bytes each, and a type of sixteen bits.
pub record IsHeader (h : EthernetHeader) : Type 0 where
  pub dst_size : length h.dst ≡ 6
  pub src_size : length h.src ≡ 6
  pub dst_bytes : AllBytes h.dst
  pub src_bytes : AllBytes h.src
  pub type_word : h.type < u16_mod

abbrev pub header_bytes : EthernetHeader → List ℕ
header_bytes h = h.dst ++ (h.src ++ (to_bytes 2 h.type ++ []))

pub serialize_header-write :
    (h : EthernetHeader) (s : Serializer)
    → IsHeader h
    → serialize_header h s ≡ write (header_bytes h) s
unfolding serialize_header
serialize_header-write h s v =
    ap (λ t. put_integer 2 h.type t)
      (put_bytes-write h.src _ v.src_bytes ∙ ap (write h.src) (put_bytes-write h.dst s v.dst_bytes))
    ∙ put_integer-write 2 h.type _
    ∙ ap (write (to_bytes 2 h.type)) (write-write h.dst h.src s)
    ∙ write-write (h.dst ++ h.src) (to_bytes 2 h.type) s
    ∙ ap (λ l. write l s)
        (append_assoc h.dst h.src (to_bytes 2 h.type)
          ∙ ap (λ l. h.dst ++ (h.src ++ l)) (sym (append-nil (to_bytes 2 h.type))))

pub Reads-header :
    (old h : EthernetHeader)
    → IsHeader old
    → IsHeader h
    → Reads (parse_header old) (header_bytes h) h
unfolding parse_header
Reads-header old h o v =
    Reads-bind _ (Reads-byte_array old.dst h.dst (o.dst_size ∙ sym v.dst_size)) (
      Reads-bind _ (Reads-byte_array old.src h.src (o.src_size ∙ sym v.src_size))
        (Reads-bind _ (Reads-u16 old.type h.type v.type_word) (Reads-pure h)))

header_bytes-length : (h : EthernetHeader) → IsHeader h → length (header_bytes h) ≡ 14
unfolding to_bytes
header_bytes-length h v = omega (
  arith,
  v.dst_size,
  v.src_size,
  length-append h.dst (h.src ++ (to_bytes 2 h.type ++ [])),
  length-append h.src (to_bytes 2 h.type ++ []),
)

-- A frame is parsed from wherever its header stands, and takes all that is behind as its payload.
parse_frame-Stands :
    (old : EthernetFrame) (h : EthernetHeader) (p : Parser) (rest : List ℕ)
    → IsHeader old.header
    → IsHeader h
    → Stands p (header_bytes h) rest
    → (g : EthernetFrame) × (q : Parser) × (parse_frame old p ≡ ok (g, q))
      × (q.error ≡ false)
      × (g.header ≡ h)
      × (concat g.payload ≡ rest)
unfolding parse_frame ◌>>=◌
parse_frame-Stands old h p rest o v s =
    let (q, e, t) =
      (Reads-header old.header h o v).at p [] rest
        (subst (λ l. Stands p l rest) (sym (append-nil (header_bytes h))) s) in
    let (bs, d, c, f) = all_remaining-Stands q [] rest t in
    (record { header = h; payload = bs }, q, rw (e, d) refl, t.1, refl, c)

-- If a frame has addresses of six bytes, a type of sixteen bits and less than 2^64 bytes, then it
-- is serialized and parsed again without an error, with the same header and the same bytes of
-- payload, into any frame that has such a header.
pub parse-serialize_frame :
    (old f : EthernetFrame)
    → IsHeader old.header
    → IsHeader f.header
    → 14 + length (concat f.payload) < u64_mod
    → (g : EthernetFrame) × (q : Parser) × (parse_frame old
          (parser (finish (serialize_frame f serializer)))
        ≡ ok (g, q))
      × (q.error ≡ false)
      × (g.header ≡ f.header)
      × (concat g.payload ≡ concat f.payload)
unfolding serialize_frame
parse-serialize_frame old f o v word =
    let bytes = header_bytes f.header in
    let (tail, e) = finish-StartsWith f.payload bytes in
    parse_frame-Stands old f.header _ (concat f.payload) o v (
      rw (serialize_header-write f.header serializer v) (
        parser-Stands _ bytes (concat f.payload) (concat-finish-put_buffers f.payload bytes)
          (rw e (Fluent-front (length bytes) bytes tail (omega arith)))
          (omega
            (arith, word, header_bytes-length f.header v, length-append bytes (concat f.payload)))))
