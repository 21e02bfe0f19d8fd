-- ===== src/Interface/Resolving.antt =====
-- src/network_interface.cc: how two interfaces learn one another's addresses.
use networkinglab.Base.{
  ℕ, ◌<◌, ◌≡◌, refl, sym, ap, subst, ◌∙◌, none, some, List, [], ◌∷◌, ◌++◌, append-nil, length,
  length-append, eq→==, ok, map_ok, u32_mod, arith,
}
use networkinglab.Arp
use networkinglab.Arp.{ArpMessage, opcode_request, opcode_reply, no_message}
use networkinglab.Arp.RoundTrip.{IsMessage, message_bytes, put_members-write, Reads-message}
use networkinglab.Wire.{Serializer, parser, serializer, finish, put_buffers, to_bytes}
use networkinglab.Wire.Writing.{AllBytes, write, finish-StartsWith, concat-finish-put_buffers}
use networkinglab.Wire.Ends.{parser-Stands, Fluent-front}
use networkinglab.Wire.Steps.{Stands}
use networkinglab.Ethernet.{EthernetAddress, EthernetFrame, type_arp, ethernet_broadcast}
use networkinglab.Ipv4.{Ipv4Datagram, serialize_datagram}
use networkinglab.Interface.{
  Mapping, ArpTable, find, assign, NetworkInterface, make_ready, arp_request, arp_reply, arp_frame,
  ip_frame, with_dst, ask, dispatch, is_pending, send_datagram, parse_arp, learn, release,
  release_known, recv_other, take_arp, take_datagram, deliver, recv_frame,
}
use networkinglab.Interface.Table.{find-assign}

-- An Ethernet address of six bytes, and an IP address of 32 bits.
pub record HasAddresses (i : NetworkInterface) : Type 0 where
  pub size : length i.ethernet_address ≡ 6
  pub bytes : AllBytes i.ethernet_address
  pub word : i.ip_address < u32_mod

-- The strings of an ARP message.
abbrev pub arp_strings : ArpMessage → List (List ℕ)
arp_strings m = finish (write (message_bytes m) serializer)

module _ (m : ArpMessage) (v : IsMessage m) where
  serialize_arp : Arp.serialize m serializer ≡ ok (write (message_bytes m) serializer)
  unfolding Arp.serialize
  serialize_arp = rw (v.is_supported) (ap ok (put_members-write m v serializer))

  message_bytes-length : length (message_bytes m) ≡ 28
  unfolding to_bytes
  message_bytes-length = omega (
    arith,
    v.sender_size,
    v.target_size,
    length-append m.sender_ethernet_address (
        to_bytes 4 m.sender_ip_address
        ++ (m.target_ethernet_address ++ (to_bytes 4 m.target_ip_address ++ []))),
    length-append m.target_ethernet_address (to_bytes 4 m.target_ip_address ++ []),
  )

  message-Stands : Stands (parser (arp_strings m)) (message_bytes m ++ []) []
  unfolding put_buffers
  message-Stands =
      let bytes = message_bytes m in
      let (tail, e) = finish-StartsWith [] bytes in
      subst (λ l. Stands (parser (arp_strings m)) l []) (sym (append-nil bytes))
        (parser-Stands (arp_strings m) bytes [] (concat-finish-put_buffers [] bytes)
          (rw e (Fluent-front (length bytes) bytes tail (omega arith)))
          (omega (arith, message_bytes-length, length-append bytes [])))

  parse_arp-strings : parse_arp (arp_strings m) ≡ ok (some m)
  unfolding parse_arp
  parse_arp-strings =
      let (q, e, t) =
        (Reads-message m v no_message refl refl).at (parser (arp_strings m)) [] [] message-Stands in
      rw (parse_arp, e, t.1) refl

  -- A frame with the message is learned from, and releases what waits for it.
  recv_message :
      (i : NetworkInterface) (dst src : EthernetAddress)
      → recv_frame i (record {
        header = record { dst = dst; src = src; type = type_arp };
        payload = arp_strings m;
      })
        ≡ map_ok (λ j. (none, j)) (map_ok release_known (learn i (some m)))
  unfolding recv_frame take_datagram deliver recv_other take_arp
  recv_message i dst src = rw parse_arp-strings refl

-- A request for the address of this interface is answered, and its sender learned.
learn_request :
    (i : NetworkInterface) (m : ArpMessage)
    → HasAddresses i
    → IsMessage m
    → m.opcode ≡ opcode_request
    → m.target_ip_address ≡ i.ip_address
    → learn i (some m)
      ≡ ok (
          make_ready
            (arp_frame i m.sender_ethernet_address (arp_strings (arp_reply i m)))
            (record i {
              arp_table = assign m.sender_ip_address (m.sender_ethernet_address, 0) i.arp_table;
            }))
unfolding learn
learn_request i m a v o t =
    rw
      (
        learn,
        eq→== m.opcode opcode_request o,
        eq→== m.target_ip_address i.ip_address t,
        serialize_arp (arp_reply i m) reply-IsMessage,
      )
      refl
  where
    reply-IsMessage : IsMessage (arp_reply i m)
    reply-IsMessage = record {
      is_supported = unfold Arp.supported in refl;
      sender_size = a.size;
      target_size = v.sender_size;
      sender_bytes = a.bytes;
      target_bytes = v.sender_bytes;
      sender_word = a.word;
      target_word = v.sender_word;
    }

-- Nothing is released where nothing waits.
release_known-idle : (i : NetworkInterface) → i.unknown_eth_addr ≡ [] → release_known i ≡ i
unfolding release_known release
release_known-idle i e =
    let none_left : release i.arp_table i.unknown_eth_addr ≡ ([], []) =
      ap (release i.arp_table) e in
    ground (arith, none_left, e, append-nil i.ready_to_send)

-- The mapping that has just been assigned is found.
pub find-assign_self : (k : ℕ) (m : Mapping) (t : ArpTable) → find k (assign k m t) ≡ some m
find-assign_self k m t = find-assign k k m t ∙ rw (eq→== k k refl) refl

-- The request of `a` for the address of `b`, the reply, and the two after each step: `a` with a
-- datagram of the strings `s` that waits, `b` after the request, and `a` after the reply.
abbrev pub request : NetworkInterface → NetworkInterface → ArpMessage
request a b = arp_request a b.ip_address

abbrev pub reply : NetworkInterface → NetworkInterface → ArpMessage
reply a b = arp_reply b (request a b)

abbrev pub waiting : NetworkInterface → Serializer → EthernetFrame
waiting a s = ip_frame a ethernet_broadcast (finish s)

abbrev pub asking : NetworkInterface → NetworkInterface → Serializer → NetworkInterface
asking a b s = make_ready (arp_frame a ethernet_broadcast (arp_strings (request a b))) (record a {
  arp_table = assign b.ip_address (ethernet_broadcast, 0) a.arp_table;
  unknown_eth_addr = (b.ip_address, waiting a s) ∷ [];
})

abbrev pub answering : NetworkInterface → NetworkInterface → NetworkInterface
answering a b =
    make_ready (arp_frame b a.ethernet_address (arp_strings (reply a b)))
      (record b { arp_table = assign a.ip_address (a.ethernet_address, 0) b.arp_table })

abbrev pub answered : NetworkInterface → NetworkInterface → Serializer → NetworkInterface
answered a b s = record (asking a b s) {
  arp_table = assign b.ip_address (b.ethernet_address, 0) (asking a b s).arp_table;
  ready_to_send = (asking a b s).ready_to_send ++ (with_dst (waiting a s) b.ethernet_address ∷ []);
  unknown_eth_addr = [];
}

-- The mapping of an address that is not in the table is asked for by broadcast.
module _ (a b : NetworkInterface) (d : Ipv4Datagram) (s : Serializer) (fa : HasAddresses a)
    (fb : HasAddresses b) (serialized : serialize_datagram d serializer ≡ ok s)
    (unknown : find b.ip_address a.arp_table ≡ none) (a_idle : a.unknown_eth_addr ≡ [])
    (b_idle : b.unknown_eth_addr ≡ []) where
  request-IsMessage : IsMessage (request a b)
  request-IsMessage = record {
    is_supported = unfold Arp.supported in refl;
    sender_size = fa.size;
    target_size = refl;
    sender_bytes = fa.bytes;
    target_bytes = omega arith;
    sender_word = fa.word;
    target_word = fb.word;
  }

  reply-IsMessage : IsMessage (reply a b)
  reply-IsMessage = record {
    is_supported = unfold Arp.supported in refl;
    sender_size = fb.size;
    target_size = fa.size;
    sender_bytes = fb.bytes;
    target_bytes = fa.bytes;
    sender_word = fb.word;
    target_word = fa.word;
  }

  sends : send_datagram a d b.ip_address ≡ ok (asking a b s)
  unfolding send_datagram dispatch is_pending ask
  sends =
      rw (send_datagram, unknown, serialized, serialize_arp (request a b) request-IsMessage, a_idle)
        refl

  hears :
      recv_frame b (arp_frame a ethernet_broadcast (arp_strings (request a b)))
      ≡ ok (none, (answering a b))
  hears =
      recv_message (request a b) request-IsMessage b ethernet_broadcast a.ethernet_address
      ∙ ap (λ l. map_ok (λ j. (none, j)) (map_ok release_known l))
          (learn_request b (request a b) fb request-IsMessage refl refl)
      ∙ ap (λ j. ok (none, j)) (release_known-idle (answering a b) b_idle)

  learns :
      recv_frame (asking a b s) (arp_frame b a.ethernet_address (arp_strings (reply a b)))
      ≡ ok (none, (answered a b s))
  unfolding release_known release learn
  learns =
      recv_message (reply a b) reply-IsMessage (asking a b s) a.ethernet_address b.ethernet_address
      ∙ rw
          (
            release,
            find-assign_self b.ip_address (b.ethernet_address, 0)
                (assign b.ip_address (ethernet_broadcast, 0) a.arp_table),
          )
          refl

  -- Two interfaces have Ethernet addresses of six bytes and 32-bit IP addresses, and no datagram
  -- waits at either. If the first sends a datagram that can be serialized to the IP address of the
  -- second, which is not in its table, it broadcasts a request; if the second receives that frame,
  -- it learns the address of the first and replies; and if the first receives the reply, it learns
  -- the address of the second, and the datagram that waited is ready, in a frame to that address.
  pub resolves :
      (send_datagram a d b.ip_address ≡ ok (asking a b s))
      × (recv_frame b (arp_frame a ethernet_broadcast (arp_strings (request a b)))
          ≡ ok (none, (answering a b)))
      × (recv_frame (asking a b s) (arp_frame b a.ethernet_address (arp_strings (reply a b)))
          ≡ ok (none, (answered a b s)))
      × (find b.ip_address (answered a b s).arp_table ≡ some (b.ethernet_address, 0))
      × (find a.ip_address (answering a b).arp_table ≡ some (a.ethernet_address, 0))
  resolves = (
    sends,
    hears,
    learns,
    find-assign_self b.ip_address (b.ethernet_address, 0) (asking a b s).arp_table,
    find-assign_self a.ip_address (a.ethernet_address, 0) b.arp_table,
  )
