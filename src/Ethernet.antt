-- ===== src/Ethernet.antt =====
-- util/ethernet_header.{hh,cc} and util/ethernet_frame.hh.
pub mod RoundTrip
mod Tests
use networkinglab.Base.{ℕ, Bool, true, false, ◌&&◌, List, [], ◌∷◌, ◌==◌, Outcome, ok, replicate}
use networkinglab.Wire.{Parser, Serializer, integer, put_integer, put_buffers}
use networkinglab.Wire.Parsing.{Parsing, pure, ◌>>=◌, all_remaining, byte_array}
use networkinglab.Wire.Writing.{put_bytes}

-- An Ethernet address: six bytes.
abbrev pub EthernetAddress : Type 0
EthernetAddress = List ℕ

-- ETHERNET_BROADCAST.
abbrev pub ethernet_broadcast : EthernetAddress
ethernet_broadcast = 0xff ∷ 0xff ∷ 0xff ∷ 0xff ∷ 0xff ∷ 0xff ∷ []

abbrev pub no_address : EthernetAddress
no_address = 0 ∷ 0 ∷ 0 ∷ 0 ∷ 0 ∷ 0 ∷ []

-- operator== of std::array.
unfoldable pub same_address : EthernetAddress → EthernetAddress → Bool
same_address [] [] = true
same_address [] (y ∷ ys) = false
same_address (x ∷ xs) [] = false
same_address (x ∷ xs) (y ∷ ys) = (x == y) && same_address xs ys

-- EthernetHeader::TYPE_IPv4 and EthernetHeader::TYPE_ARP.
abbrev pub type_ipv4 : ℕ
type_ipv4 = 0x800

abbrev pub type_arp : ℕ
type_arp = 0x806

pub record EthernetHeader : Type 0 where
  pub dst : EthernetAddress
  pub src : EthernetAddress
  pub type : ℕ

-- EthernetHeader {}.
abbrev pub no_header : EthernetHeader
no_header = record { dst = no_address; src = no_address; type = 0 }

-- EthernetHeader::parse.
unfoldable pub parse_header : EthernetHeader → Parsing EthernetHeader
parse_header h = do
  dst ← byte_array h.dst
  src ← byte_array h.src
  type ← integer 2 h.type
  pure (record { dst = dst; src = src; type = type })

-- EthernetHeader::serialize.
unfoldable pub serialize_header : EthernetHeader → Serializer → Serializer
serialize_header h s = put_integer 2 h.type (put_bytes h.src (put_bytes h.dst s))

pub record EthernetFrame : Type 0 where
  pub header : EthernetHeader
  pub payload : List (List ℕ)

-- EthernetFrame::parse.
unfoldable pub parse_frame : EthernetFrame → Parsing EthernetFrame
parse_frame f = do
  header ← parse_header f.header
  payload ← all_remaining
  pure (record { header = header; payload = payload })

-- EthernetFrame::serialize.
unfoldable pub serialize_frame : EthernetFrame → Serializer → Serializer
serialize_frame f s = put_buffers f.payload (serialize_header f.header s)
