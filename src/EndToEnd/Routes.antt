-- ===== src/EndToEnd/Routes.antt =====
-- The routing tables of apps/endtoend.cc.
use networkinglab.Base.{
  ℕ, ◌*◌, ◌/◌, ◌%◌, ◌^◌, ◌<◌, ◌≡◌, refl, Bool, true, false, ◌&&◌, Option, none, some, List, ◌==◌,
  if◌then◌else◌, u32_mod, ok, map_ok, Bool-cases, inl, inr, ◌⊎◌, arith,
}
use networkinglab.Router.{Entry, find_entry, dst_prefix, improves, add_route, add_interface}
use networkinglab.EndToEnd.{dotted, host_side, internet_side, set_up, two_sides}

eight :
    (a b c d : ℕ)
    → a < 256
    → b < 256
    → c < 256
    → d < 256
    → (dotted a b c d / 2 ^ 24 * 2 ^ 24 % u32_mod == dotted 10 0 0 0) ≡ (a == 10)
eight a b c d ha hb hc hd = ground arith

twelve :
    (a b c d : ℕ)
    → a < 256
    → b < 256
    → c < 256
    → d < 256
    → (dotted a b c d / 2 ^ 20 * 2 ^ 20 % u32_mod == dotted 172 16 0 0)
      ≡ ((a == 172) && (b / 16 == 1))
twelve a b c d ha hb hc hd = ground arith

sixteen :
    (a b c d : ℕ)
    → a < 256
    → b < 256
    → c < 256
    → d < 256
    → (dotted a b c d / 2 ^ 16 * 2 ^ 16 % u32_mod == dotted 192 168 0 0)
      ≡ ((a == 192) && (b == 168))
sixteen a b c d ha hb hc hd = ground arith

-- Where a datagram goes: the next hop, if it is not the destination itself, and the interface.
abbrev Way : Type 0
Way = Option ℕ × ℕ

abbrev pub way : Option Entry → Option Way
way none = none
way (some e) = some (e.next_hop, e.interface_num)

-- The networks of the two hosts and the one between the routers, by the first two bytes.
abbrev pub client_way : ℕ → ℕ → Option Way
client_way a b =
    if (a == 192) && (b == 168)
    then some (none, host_side)
    else if a == 10
    then some (none, internet_side)
    else if (a == 172) && (b / 16 == 1)
    then some (some (dotted 10 0 0 172), internet_side)
    else none

abbrev pub server_way : ℕ → ℕ → Option Way
server_way a b =
    if (a == 172) && (b / 16 == 1)
    then some (none, host_side)
    else if a == 10
    then some (none, internet_side)
    else if (a == 192) && (b == 168)
    then some (some (dotted 10 0 0 192), internet_side)
    else none

-- No address lies in two of the networks.
excluded :
    (a b : ℕ)
    → ((((a == 192) && (b == 168)) ≡ true)
        × ((a == 10) ≡ false)
        × (((a == 172) && (b / 16 == 1)) ≡ false))
      ⊎ ((((a == 192) && (b == 168)) ≡ false)
          × ((a == 10) ≡ true)
          × (((a == 172) && (b / 16 == 1)) ≡ false))
      ⊎ ((((a == 192) && (b == 168)) ≡ false)
          × ((a == 10) ≡ false)
          × (((a == 172) && (b / 16 == 1)) ≡ true))
      ⊎ ((((a == 192) && (b == 168)) ≡ false)
          × ((a == 10) ≡ false)
          × (((a == 172) && (b / 16 == 1)) ≡ false))
excluded a b = elim (Bool-cases ((a == 192) && (b == 168))) [
  | inl e ↦ inl (e, ground (arith, e), ground (arith, e))
  | inr e ↦ elim (Bool-cases (a == 10)) [
    | inl f ↦ inr (inl (e, f, ground (arith, f)))
    | inr f ↦ elim (Bool-cases ((a == 172) && (b / 16 == 1))) [
      | inl g ↦ inr (inr (inl (e, f, g)))
      | inr g ↦ inr (inr (inr (e, f, g)))
    ]
  ]
]

-- For every destination, a dotted address of four bytes: the router of the client sends
-- 192.168.0.0/16 to the host, 10.0.0.0/8 to the Internet side, and 172.16.0.0/12 there by way of
-- 10.0.0.172; the router of the server sends 172.16.0.0/12 to the host, 10.0.0.0/8 to the Internet
-- side, and 192.168.0.0/16 there by way of 10.0.0.192; for any other destination neither finds an
-- entry.
pub find_entry-set_up :
    (is_client : Bool) (drawn drawn' : List ℕ) (a b c d : ℕ)
    → a < 256
    → b < 256
    → c < 256
    → d < 256
    → map_ok way (find_entry (dotted a b c d) (set_up is_client drawn drawn').routing_table none)
      ≡ ok (if is_client then client_way a b else server_way a b)
unfolding find_entry dst_prefix set_up two_sides add_route add_interface improves
find_entry-set_up true drawn drawn' a b c d ha hb hc hd =
    rw (sixteen a b c d ha hb hc hd, eight a b c d ha hb hc hd, twelve a b c d ha hb hc hd)
      (ground arith)
find_entry-set_up false drawn drawn' a b c d ha hb hc hd =
    rw (sixteen a b c d ha hb hc hd, eight a b c d ha hb hc hd, twelve a b c d ha hb hc hd)
      (elim (excluded a b) [
        | inl e ↦ rw (e.0, e.1, e.2) refl
        | inr (inl e) ↦ rw (e.0, e.1, e.2) refl
        | inr (inr (inl e)) ↦ rw (e.0, e.1, e.2) refl
        | inr (inr (inr e)) ↦ rw (e.0, e.1, e.2) refl
      ])
