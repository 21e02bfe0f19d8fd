-- ===== src/Router/Queues.antt =====
-- src/router.cc: the queues of the interfaces as datagrams are taken and sent.
use networkinglab.Base.{
  ℕ, zero, suc, ◌<◌, ◌≡◌, refl, ap, ◌∙◌, List, [], ◌∷◌, map, length, ok, arith,
}
use networkinglab.Ipv4.{Ipv4Datagram}
use networkinglab.Router.{AsyncNetworkInterface, take_front, maybe_receive, receive_at, send_at}
use networkinglab.Interface.Sending.{send_datagram_ok}

-- The queues of datagrams that have been received.
abbrev pub queues : List AsyncNetworkInterface → List (List Ipv4Datagram)
queues [] = []
queues (a ∷ rest) = a.datagrams_in ∷ queues rest

abbrev pub tail : List Ipv4Datagram → List Ipv4Datagram
tail [] = []
tail (d ∷ ds) = ds

-- The queues after one datagram has been taken at an index, and after `n` rounds of the loop.
abbrev pub pop_at : ℕ → List (List Ipv4Datagram) → List (List Ipv4Datagram)
pop_at k [] = []
pop_at zero (q ∷ qs) = tail q ∷ qs
pop_at (suc k) (q ∷ qs) = q ∷ pop_at k qs

abbrev pub pop_from : ℕ → ℕ → List (List Ipv4Datagram) → List (List Ipv4Datagram)
pop_from zero k qs = qs
pop_from (suc n) k qs = pop_from n (suc k) (pop_at k qs)

pop_from-suc :
    (n k : ℕ) (q : List Ipv4Datagram) (qs : List (List Ipv4Datagram))
    → pop_from n (suc k) (q ∷ qs) ≡ q ∷ pop_from n k qs
pop_from-suc zero k q qs = refl
pop_from-suc (suc n) k q qs = pop_from-suc n (suc k) q (pop_at k qs)

pub pop_from-all : (qs : List (List Ipv4Datagram)) → pop_from (length qs) 0 qs ≡ map tail qs
pop_from-all [] = refl
pop_from-all (q ∷ qs) =
    pop_from-suc (length qs) 0 (tail q) qs ∙ ap (λ l. tail q ∷ l) (pop_from-all qs)

take_front-tail : (q : List Ipv4Datagram) → (take_front q).1 ≡ tail q
take_front-tail [] = refl
take_front-tail (d ∷ ds) = refl

pub receive_at-queues :
    (k : ℕ) (is : List AsyncNetworkInterface) → queues (receive_at k is).1 ≡ pop_at k (queues is)
unfolding receive_at maybe_receive
receive_at-queues k [] = refl
receive_at-queues zero (a ∷ rest) = ap (λ q. q ∷ queues rest) (take_front-tail a.datagrams_in)
receive_at-queues (suc k) (a ∷ rest) = ap (λ l. a.datagrams_in ∷ l) (receive_at-queues k rest)

-- Within the interfaces, a datagram of version 4 is sent, and the queues stay as they are.
pub send_at_ok :
    (n : ℕ) (is : List AsyncNetworkInterface) (d : Ipv4Datagram) (hop : ℕ)
    → d.header.ver ≡ 4
    → n < length is
    → (js : List AsyncNetworkInterface) × (send_at n is d hop ≡ ok js) × (queues js ≡ queues is)
unfolding send_at
send_at_ok n [] d hop v h = absurd (omega (arith, h))
send_at_ok zero (a ∷ rest) d hop v h =
    let (j, e) = send_datagram_ok a.interface d hop v in
    (record a { interface = j } ∷ rest, rw (send_at, e) refl, refl)
send_at_ok (suc n) (a ∷ rest) d hop v h =
    let (js, e, q) = send_at_ok n rest d hop v (omega (arith, h)) in
    (a ∷ js, rw (send_at, e) refl, ap (λ l. a.datagrams_in ∷ l) q)
