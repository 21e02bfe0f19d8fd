-- ===== src/Arp/RoundTrip.antt =====
-- util/arp_message.cc: what is serialized is parsed again.
use networkinglab.Base.{
  ℕ, ◌<◌, ◌≡◌, refl, sym, subst, ◌∙◌, true, List, [], ◌++◌, length, u16_mod, u32_mod, append-nil,
  append_assoc, arith,
}
use networkinglab.Wire.{Serializer, to_bytes, put_integer}
use networkinglab.Wire.Steps.{
  Reads, Reads-bind, Reads-pure, Reads-byte_array, Reads-u8, Reads-u16, Reads-u32,
}
use networkinglab.Wire.Writing.{AllBytes, put_bytes, write, put_bytes-write}
use networkinglab.Arp.{ArpMessage, supported, parse_addresses, parse_supported, parse, put_members}

-- A message that is supported, with addresses of their size.
pub record IsMessage (m : ArpMessage) : Type 0 where
  pub is_supported : supported m ≡ true
  pub sender_size : length m.sender_ethernet_address ≡ 6
  pub target_size : length m.target_ethernet_address ≡ 6
  pub sender_bytes : AllBytes m.sender_ethernet_address
  pub target_bytes : AllBytes m.target_ethernet_address
  pub sender_word : m.sender_ip_address < u32_mod
  pub target_word : m.target_ip_address < u32_mod

abbrev pub address_bytes : ArpMessage → List ℕ
address_bytes m =
    m.sender_ethernet_address
    ++ (to_bytes 4 m.sender_ip_address
        ++ (m.target_ethernet_address ++ (to_bytes 4 m.target_ip_address ++ [])))

abbrev pub message_bytes : ArpMessage → List ℕ
message_bytes m =
    to_bytes 2 m.hardware_type
    ++ (to_bytes 2 m.protocol_type
        ++ (to_bytes 1 m.hardware_address_size
            ++ (to_bytes 1 m.protocol_address_size ++ (to_bytes 2 m.opcode ++ address_bytes m))))

module _ (m : ArpMessage) (v : IsMessage m) where
  small :
      (m.hardware_type < u16_mod)
      × (m.protocol_type < u16_mod)
      × (m.hardware_address_size < 256)
      × (m.protocol_address_size < 256)
      × (m.opcode < u16_mod)
  unfolding supported
  small = ground (arith, v.is_supported)

  -- What the parser has learned before the addresses.
  abbrev learned : ArpMessage → ArpMessage
  learned old = record old {
    hardware_type = m.hardware_type;
    protocol_type = m.protocol_type;
    hardware_address_size = m.hardware_address_size;
    protocol_address_size = m.protocol_address_size;
    opcode = m.opcode;
  }

  sender_write :
      (s : Serializer) → put_bytes m.sender_ethernet_address s ≡ write m.sender_ethernet_address s
  sender_write s = put_bytes-write m.sender_ethernet_address s v.sender_bytes

  target_write :
      (s : Serializer) → put_bytes m.target_ethernet_address s ≡ write m.target_ethernet_address s
  target_write s = put_bytes-write m.target_ethernet_address s v.target_bytes

  pub put_members-write : (s : Serializer) → put_members m s ≡ write (message_bytes m) s
  unfolding put_members put_integer
  put_members-write s = simp (sender_write, target_write, append_assoc, append-nil)

  Reads-addresses :
      (old : ArpMessage)
      → length old.sender_ethernet_address ≡ 6
      → length old.target_ethernet_address ≡ 6
      → Reads (parse_addresses (learned old)) (address_bytes m) m
  unfolding parse_addresses
  Reads-addresses old s t =
      Reads-bind _ (Reads-byte_array _ m.sender_ethernet_address (s ∙ sym v.sender_size)) (
        Reads-bind _ (Reads-u32 _ m.sender_ip_address v.sender_word) (
          Reads-bind _ (Reads-byte_array _ m.target_ethernet_address (t ∙ sym v.target_size))
            (Reads-bind _ (Reads-u32 _ m.target_ip_address v.target_word) (Reads-pure m))))

  passes : (old : ArpMessage) → parse_supported (learned old) ≡ parse_addresses (learned old)
  unfolding parse_supported supported
  passes old = rw v.is_supported refl

  pub Reads-message :
      (old : ArpMessage)
      → length old.sender_ethernet_address ≡ 6
      → length old.target_ethernet_address ≡ 6
      → Reads (parse old) (message_bytes m) m
  unfolding parse
  Reads-message old s t = Reads-bind _ (Reads-u16 old.hardware_type m.hardware_type small.0) (
      Reads-bind _ (Reads-u16 old.protocol_type m.protocol_type small.1) (
        Reads-bind _ (Reads-u8 old.hardware_address_size m.hardware_address_size small.2) (
          Reads-bind _ (Reads-u8 old.protocol_address_size m.protocol_address_size small.3) (
            Reads-bind _ (Reads-u16 old.opcode m.opcode small.4) (
              subst (λ k. Reads k (address_bytes m) m) (sym (passes old))
                (Reads-addresses old s t))))))
