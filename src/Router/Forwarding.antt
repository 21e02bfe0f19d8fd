-- ===== src/Router/Forwarding.antt =====
-- src/router.cc: what a call of route does with the queues of the interfaces.
use networkinglab.Base.{
  subst₂, ℕ, zero, suc, ◌-◌, ◌<◌, ◌≡◌, refl, ap, sym, subst, ◌∙◌, ◌⊎◌, inl, inr, Bool-cases, Option,
  none, some, List, [], ◌∷◌, map, length, ok, Outcome, arith, eq→==,
}
use networkinglab.Ipv4.{Ipv4Datagram}
use networkinglab.Ipv4.RoundTrip.{right_cksum, compute_checksum-right}
use networkinglab.Router.{
  Entry, AsyncNetworkInterface, Router, take_front, maybe_receive, receive_at, expires, hop_or,
  send_matched, forward, route_at, route_loop, route,
}
use networkinglab.Router.Queues.{
  queues, tail, pop_at, pop_from, pop_from-all, receive_at-queues, send_at_ok,
}
use networkinglab.Router.Longest.{Member, AllFit, find_entry-longest}

-- Each entry of the table names one of `n` interfaces.
abbrev pub AllNamed : ℕ → List Entry → Type 0
AllNamed n [] = Unit {0}
AllNamed n (e ∷ es) = (e.interface_num < n) × AllNamed n es

-- The datagrams of a queue, and of all queues, have the version 4.
abbrev pub AllFour : List Ipv4Datagram → Type 0
AllFour [] = Unit {0}
AllFour (d ∷ ds) = (d.header.ver ≡ 4) × AllFour ds

abbrev pub AllQueues : List (List Ipv4Datagram) → Type 0
AllQueues [] = Unit {0}
AllQueues (q ∷ qs) = AllFour q × AllQueues qs

-- A datagram that has been received, if there is one, has the version 4.
abbrev pub OptionFour : Option Ipv4Datagram → Type 0
OptionFour none = Unit {0}
OptionFour (some d) = d.header.ver ≡ 4

pub record IsRouting (table : List Entry) (qs : List (List Ipv4Datagram)) : Type 0 where
  pub fits : AllFit table
  pub named : AllNamed (length qs) table
  pub four : AllQueues qs

abbrev pub IsRouter : Router → Type 0
IsRouter r = IsRouting r.routing_table (queues r.interfaces)

Member-named :
    (n : ℕ) (m : Entry) (es : List Entry) → AllNamed n es → Member m es → m.interface_num < n
Member-named n m [] a h = absurd (omega (arith, h))
Member-named n m (e ∷ es) a (inl h) = subst (λ k. k.interface_num < n) (sym h) a.0
Member-named n m (e ∷ es) a (inr h) = Member-named n m es a.1 h

pub queues-length : (is : List AsyncNetworkInterface) → length (queues is) ≡ length is
queues-length [] = refl
queues-length (a ∷ rest) = omega (arith, queues-length rest)

pop_at-length : (k : ℕ) (qs : List (List Ipv4Datagram)) → length (pop_at k qs) ≡ length qs
pop_at-length k [] = refl
pop_at-length zero (q ∷ qs) = refl
pop_at-length (suc k) (q ∷ qs) = omega (arith, pop_at-length k qs)

tail-AllFour : (q : List Ipv4Datagram) → AllFour q → AllFour (tail q)
tail-AllFour [] a = tt
tail-AllFour (d ∷ ds) a = a.1

pop_at-AllQueues : (k : ℕ) (qs : List (List Ipv4Datagram)) → AllQueues qs → AllQueues (pop_at k qs)
pop_at-AllQueues k [] a = tt
pop_at-AllQueues zero (q ∷ qs) a = (tail-AllFour q a.0, a.1)
pop_at-AllQueues (suc k) (q ∷ qs) a = (a.0, pop_at-AllQueues k qs a.1)

pop_at-IsRouting :
    (k : ℕ) (table : List Entry) (qs : List (List Ipv4Datagram))
    → IsRouting table qs
    → IsRouting table (pop_at k qs)
pop_at-IsRouting k table qs v = record {
  fits = v.fits;
  named = subst (λ n. AllNamed n table) (sym (pop_at-length k qs)) v.named;
  four = pop_at-AllQueues k qs v.four;
}

take_front-OptionFour : (q : List Ipv4Datagram) → AllFour q → OptionFour (take_front q).0
take_front-OptionFour [] a = tt
take_front-OptionFour (d ∷ ds) a = a.0

receive_at-OptionFour :
    (k : ℕ) (is : List AsyncNetworkInterface)
    → AllQueues (queues is)
    → OptionFour (receive_at k is).0
unfolding receive_at maybe_receive
receive_at-OptionFour k [] a = tt
receive_at-OptionFour zero (i ∷ rest) a = take_front-OptionFour i.datagrams_in a.0
receive_at-OptionFour (suc k) (i ∷ rest) a = receive_at-OptionFour k rest a.1

-- The call gives a router with the same queues and the same table.
abbrev Keeps : Router → Outcome Router → Type 0
Keeps r m =
    (r' : Router) × (m ≡ ok r')
    × (queues r'.interfaces ≡ queues r.interfaces)
    × (r'.routing_table ≡ r.routing_table)

send_matched-Keeps :
    (r : Router) (d : Ipv4Datagram) (m : Option Entry)
    → d.header.ver ≡ 4
    → ((m ≡ none) ⊎ ((e : Entry) × (m ≡ some e) × (e.interface_num < length r.interfaces)))
    → Keeps r (send_matched r d m)
unfolding send_matched
send_matched-Keeps r d none v h = (r, refl, refl, refl)
send_matched-Keeps r d (some e) v (inl h) = cc
send_matched-Keeps r d (some e) v (inr (f, g, h)) =
    let sent = record d { header = record d.header { cksum = right_cksum d.header } } in
    let small : e.interface_num < length r.interfaces =
      subst (λ n. n < length r.interfaces) (cc) h in
    let (js, a, q) =
      send_at_ok e.interface_num r.interfaces sent (hop_or e.next_hop d.header.dst) v small in
    (
      record r { interfaces = js },
      rw (send_matched, compute_checksum-right d.header (eq→== d.header.ver 4 v), a) refl,
      q,
      refl,
    )

forward-Keeps :
    (r : Router) (d : Option Ipv4Datagram) → IsRouter r → OptionFour d → Keeps r (forward r d)
unfolding forward
forward-Keeps r none v f = (r, refl, refl, refl)
forward-Keeps r (some d) v f = elim (Bool-cases (expires d)) [
  | inl x ↦ (r, rw (forward, x) refl, refl, refl)
  | inr x ↦
      let (m, e, b, c) = find_entry-longest d.header.dst r.routing_table v.fits in
      let lowered = record d { header = record d.header { ttl = d.header.ttl - 1 } } in
      let (r', a, q, t) = send_matched-Keeps r lowered m f (elim c [
        | inl n ↦ inl n
        | inr (k, n, o, p) ↦ inr (
          k,
          n,
          subst (λ l. k.interface_num < l) (queues-length r.interfaces)
              (Member-named _ k r.routing_table v.named o),
        )
      ]) in
      (r', rw (forward, x, e) a, q, t)
]

route_at_ok :
    (k : ℕ) (r : Router)
    → IsRouter r
    → (r' : Router) × (route_at k r ≡ ok r')
      × (queues r'.interfaces ≡ pop_at k (queues r.interfaces))
      × (r'.routing_table ≡ r.routing_table)
unfolding route_at
route_at_ok k r v =
    let popped = receive_at-queues k r.interfaces in
    let (r', a, q, t) =
      forward-Keeps (record r { interfaces = (receive_at k r.interfaces).1 })
        (receive_at k r.interfaces).0
        (subst (IsRouting r.routing_table) (sym popped) (pop_at-IsRouting k _ _ v))
        (receive_at-OptionFour k r.interfaces v.four) in
    (r', a, q ∙ popped, t)

route_loop_ok :
    (n k : ℕ) (r : Router)
    → IsRouter r
    → (r' : Router) × (route_loop n k r ≡ ok r')
      × (queues r'.interfaces ≡ pop_from n k (queues r.interfaces))
      × (r'.routing_table ≡ r.routing_table)
unfolding route_loop
route_loop_ok zero k r v = (r, refl, refl, refl)
route_loop_ok (suc n) k r v =
    let (r', a, q, t) = route_at_ok k r v in
    let (r'', b, p, u) =
      route_loop_ok n (suc k) r' (subst₂ IsRouting (sym t) (sym q) (pop_at-IsRouting k _ _ v)) in
    (r'', rw (route_loop, a) b, p ∙ ap (pop_from n (suc k)) q, u ∙ t)

-- If no prefix in the table is longer than 32, each entry names an interface that there is, and
-- all datagrams that wait have version 4, then route comes to an end without an exception: of each
-- interface that has received datagrams it has taken the first one and no other, and the table is
-- as it was.
pub route_takes_one_each :
    (r : Router)
    → IsRouter r
    → (r' : Router) × (route r ≡ ok r')
      × (queues r'.interfaces ≡ map tail (queues r.interfaces))
      × (r'.routing_table ≡ r.routing_table)
unfolding route
route_takes_one_each r v =
    let (r', a, q, t) = route_loop_ok (length r.interfaces) 0 r v in
    (
      r',
      a,
      q
          ∙ ap (λ n. pop_from n 0 (queues r.interfaces)) (sym (queues-length r.interfaces))
          ∙ pop_from-all (queues r.interfaces),
      t,
    )
