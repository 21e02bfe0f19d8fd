-- ===== src/Ipv4.antt =====
-- util/ipv4_header.{hh,cc} and util/ipv4_datagram.hh.
pub mod RoundTrip
pub mod Version
mod Tests
use networkinglab.Base.{
  ℕ, ◌+◌, ◌-◌, ◌*◌, ◌/◌, ◌%◌, Bool, true, false, not, ◌&&◌, ◌||◌, List, [], ◌∷◌, ltb, ◌==◌,
  if◌then◌else◌, Outcome, ok, runtime_error, map_ok, u16_mod, u32_mod,
}
use networkinglab.Wire.{Parser, Serializer, serializer, integer, put_integer, put_buffers, finish}
use networkinglab.Wire.Parsing.{
  Parsing, pure, ◌>>=◌, ◌>>◌, set_error, has_error, skip_bytes, all_remaining, lift,
}
use networkinglab.Checksum
use networkinglab.Checksum.{add_all, value}

-- LENGTH, DEFAULT_TTL and PROTO_TCP.
abbrev pub header_length : ℕ
header_length = 20

abbrev pub default_ttl : ℕ
default_ttl = 128

abbrev pub proto_tcp : ℕ
proto_tcp = 6

pub record Ipv4Header : Type 0 where
  pub ver : ℕ
  pub hlen : ℕ
  pub tos : ℕ
  pub len : ℕ
  pub id : ℕ
  pub df : Bool
  pub mf : Bool
  pub offset : ℕ
  pub ttl : ℕ
  pub proto : ℕ
  pub cksum : ℕ
  pub src : ℕ
  pub dst : ℕ

-- The default of each member of IPv4Header.
abbrev pub new_header : Ipv4Header
new_header = record {
  ver = 4;
  hlen = 5;
  tos = 0;
  len = 0;
  id = 0;
  df = true;
  mf = false;
  offset = 0;
  ttl = default_ttl;
  proto = proto_tcp;
  cksum = 0;
  src = 0;
  dst = 0;
}

-- ( ver << 4 ) | ( hlen & 0xf ), as a byte.
unfoldable pub first_byte : Ipv4Header → ℕ
first_byte h = (h.ver * 16 + h.hlen % 16) % 256

-- The flags and the fragment offset in one word.
unfoldable pub fo_val : Ipv4Header → ℕ
fo_val h = (if h.df then 0x4000 else 0) + ((if h.mf then 0x2000 else 0) + h.offset % 0x2000)

-- The members of IPv4Header::serialize, in order.
unfoldable pub put_members : Ipv4Header → Serializer → Serializer
put_members h s = put_integer 4 h.dst (
    put_integer 4 h.src (
      put_integer 2 h.cksum (
        put_integer 1 h.proto (
          put_integer 1 h.ttl (
            put_integer 2 (fo_val h) (
              put_integer 2 h.id
                (put_integer 2 h.len (put_integer 1 h.tos (put_integer 1 (first_byte h) s)))))))))

-- IPv4Header::serialize.
unfoldable pub serialize_header : Ipv4Header → Serializer → Outcome Serializer
unfolding put_members
serialize_header h s = if not (h.ver == 4) then runtime_error else ok (put_members h s)

-- IPv4Header::payload_length.
unfoldable pub payload_length : Ipv4Header → ℕ
payload_length h = (h.len + u16_mod - 4 * h.hlen) % u16_mod

-- IPv4Header::pseudo_checksum.
unfoldable pub pseudo_checksum : Ipv4Header → ℕ
unfolding payload_length
pseudo_checksum h =
    (h.src / u16_mod
      + h.src % u16_mod
      + (h.dst / u16_mod + h.dst % u16_mod)
      + h.proto
      + payload_length h)
    % u32_mod

-- IPv4Header::compute_checksum.
unfoldable pub compute_checksum : Ipv4Header → Outcome Ipv4Header
compute_checksum h =
    map_ok (λ s. record h { cksum = value (add_all (Checksum.init 0) (finish s)) })
      (serialize_header (record h { cksum = 0 }) serializer)

-- The members of IPv4Header::parse, in order. A flag is a bit of its word.
unfoldable pub parse_members : Ipv4Header → Parsing Ipv4Header
parse_members h = do
  first_byte ← integer 1 0
  tos ← integer 1 h.tos
  len ← integer 2 h.len
  id ← integer 2 h.id
  fo_val ← integer 2 0
  ttl ← integer 1 h.ttl
  proto ← integer 1 h.proto
  cksum ← integer 2 h.cksum
  src ← integer 4 h.src
  dst ← integer 4 h.dst
  pure (record {
    ver = first_byte / 16;
    hlen = first_byte % 16;
    tos = tos;
    len = len;
    id = id;
    df = fo_val / 0x4000 % 2 == 1;
    mf = fo_val / 0x2000 % 2 == 1;
    offset = fo_val % 0x2000;
    ttl = ttl;
    proto = proto;
    cksum = cksum;
    src = src;
    dst = dst;
  })

-- The end of IPv4Header::parse: options are skipped, and the checksum is verified.
unfoldable pub verify : Ipv4Header → Parsing Ipv4Header
verify h = do
  skip_bytes (h.hlen * 4 - header_length)
  h' ← lift (compute_checksum h)
  if h'.cksum == h.cksum then pure h' else (set_error >> pure h')

-- The tests of IPv4Header::parse, and what follows.
unfoldable pub check_header : Ipv4Header → Parsing Ipv4Header
unfolding verify
check_header h = do
  if not (h.ver == 4) then set_error else pure tt
  if ltb h.hlen 5 then set_error else pure tt
  failed ← has_error
  if failed then pure h else verify h

-- IPv4Header::parse.
unfoldable pub parse_header : Ipv4Header → Parsing Ipv4Header
parse_header h = do h' ← parse_members h; check_header h'

pub record Ipv4Datagram : Type 0 where
  pub header : Ipv4Header
  pub payload : List (List ℕ)

-- IPv4Datagram::parse.
unfoldable pub parse_datagram : Ipv4Datagram → Parsing Ipv4Datagram
parse_datagram d = do
  header ← parse_header d.header
  payload ← all_remaining
  pure (record { header = header; payload = payload })

-- IPv4Datagram::serialize.
unfoldable pub serialize_datagram : Ipv4Datagram → Serializer → Outcome Serializer
serialize_datagram d s = map_ok (put_buffers d.payload) (serialize_header d.header s)
