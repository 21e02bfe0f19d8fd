-- ===== src/Arp.antt =====
-- util/arp_message.{hh,cc}.
pub mod RoundTrip
mod Tests
use networkinglab.Base.{
  ℕ, Bool, true, false, not, ◌&&◌, ◌||◌, List, [], ◌∷◌, ◌==◌, if◌then◌else◌, Outcome, ok,
  runtime_error,
}
use networkinglab.Wire.{Parser, Serializer, integer, put_integer}
use networkinglab.Wire.Parsing.{Parsing, pure, ◌>>=◌, ◌>>◌, set_error, byte_array}
use networkinglab.Wire.Writing.{put_bytes}
use networkinglab.Ethernet.{EthernetAddress, no_address, type_ipv4}

-- TYPE_ETHERNET, OPCODE_REQUEST and OPCODE_REPLY.
abbrev pub type_ethernet : ℕ
type_ethernet = 1

abbrev pub opcode_request : ℕ
opcode_request = 1

abbrev pub opcode_reply : ℕ
opcode_reply = 2

pub record ArpMessage : Type 0 where
  pub hardware_type : ℕ
  pub protocol_type : ℕ
  pub hardware_address_size : ℕ
  pub protocol_address_size : ℕ
  pub opcode : ℕ
  pub sender_ethernet_address : EthernetAddress
  pub sender_ip_address : ℕ
  pub target_ethernet_address : EthernetAddress
  pub target_ip_address : ℕ

-- The default of each member of ARPMessage.
abbrev pub no_message : ArpMessage
no_message = record {
  hardware_type = type_ethernet;
  protocol_type = type_ipv4;
  hardware_address_size = 6;
  protocol_address_size = 4;
  opcode = 0;
  sender_ethernet_address = no_address;
  sender_ip_address = 0;
  target_ethernet_address = no_address;
  target_ip_address = 0;
}

-- ARPMessage::supported.
unfoldable pub supported : ArpMessage → Bool
supported m =
    (m.hardware_type == type_ethernet)
    && ((m.protocol_type == type_ipv4)
        && ((m.hardware_address_size == 6)
            && ((m.protocol_address_size == 4)
                && ((m.opcode == opcode_request) || (m.opcode == opcode_reply)))))

-- ARPMessage::parse behind the test of what is supported.
unfoldable pub parse_addresses : ArpMessage → Parsing ArpMessage
parse_addresses m = do
  sender_ethernet_address ← byte_array m.sender_ethernet_address
  sender_ip_address ← integer 4 m.sender_ip_address
  target_ethernet_address ← byte_array m.target_ethernet_address
  target_ip_address ← integer 4 m.target_ip_address
  pure (record m {
    sender_ethernet_address = sender_ethernet_address;
    sender_ip_address = sender_ip_address;
    target_ethernet_address = target_ethernet_address;
    target_ip_address = target_ip_address;
  })

-- The test of ARPMessage::parse, and what follows.
unfoldable pub parse_supported : ArpMessage → Parsing ArpMessage
unfolding parse_addresses
parse_supported m = if not (supported m) then (set_error >> pure m) else parse_addresses m

-- ARPMessage::parse.
unfoldable pub parse : ArpMessage → Parsing ArpMessage
parse m = do
  hardware_type ← integer 2 m.hardware_type
  protocol_type ← integer 2 m.protocol_type
  hardware_address_size ← integer 1 m.hardware_address_size
  protocol_address_size ← integer 1 m.protocol_address_size
  opcode ← integer 2 m.opcode
  parse_supported (record m {
    hardware_type = hardware_type;
    protocol_type = protocol_type;
    hardware_address_size = hardware_address_size;
    protocol_address_size = protocol_address_size;
    opcode = opcode;
  })

-- The members of ARPMessage::serialize, in order.
unfoldable pub put_members : ArpMessage → Serializer → Serializer
put_members m s = put_integer 4 m.target_ip_address (
    put_bytes m.target_ethernet_address (
      put_integer 4 m.sender_ip_address (
        put_bytes m.sender_ethernet_address (
          put_integer 2 m.opcode (
            put_integer 1 m.protocol_address_size (
              put_integer 1 m.hardware_address_size
                (put_integer 2 m.protocol_type (put_integer 2 m.hardware_type s))))))))

-- ARPMessage::serialize.
unfoldable pub serialize : ArpMessage → Serializer → Outcome Serializer
unfolding put_members
serialize m s = if not (supported m) then runtime_error else ok (put_members m s)
