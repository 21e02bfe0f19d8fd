-- ===== src/Ipv4/Version.antt =====
-- util/ipv4_header.cc: what has been parsed without an error has version 4.
use networkinglab.Base.{
  ℕ, ◌*◌, ◌-◌, ◌≡◌, refl, ap, false, Bool-cases, inl, inr, ltb, ◌==◌, ==→eq, List, Outcome, ok,
  out_of_range, runtime_error, undefined, no_fuel, Holds, Holds->>=, Holds-map, Holds-Unit, ◌∙◌,
  sym, arith,
}
use networkinglab.Wire.{Parser, dump_all, serializer}
use networkinglab.Wire.Parsing.{
  Parsing, pure, set_error, has_error, continue, ◌>>=◌, skip_bytes, all_remaining, lift,
}
use networkinglab.Ipv4.{
  Ipv4Header, Ipv4Datagram, serialize_header, compute_checksum, verify, check_header, parse_members,
  parse_header, parse_datagram, header_length,
}

pub Holds-continue :
    {A B : Type 0} (Q : A × Parser → Type 0) (R : B × Parser → Type 0) (m : Outcome (A × Parser))
    (f : A → Parsing B)
    → Holds Q m
    → ((a : A) (p : Parser) → Q (a, p) → Holds R (f a p))
    → Holds R (continue m f)
Holds-continue Q R (ok (a, p)) f h k = k a p h
Holds-continue Q R out_of_range f h k = tt
Holds-continue Q R runtime_error f h k = tt
Holds-continue Q R undefined f h k = tt
Holds-continue Q R no_fuel f h k = tt

compute_checksum-ver : (h : Ipv4Header) → Holds (λ h'. h'.ver ≡ h.ver) (compute_checksum h)
unfolding compute_checksum
compute_checksum-ver h =
    Holds->>= (λ s. Unit {0}) (λ h'. h'.ver ≡ h.ver)
      (serialize_header (record h { cksum = 0 }) serializer) _
      (Holds-Unit (serialize_header (record h { cksum = 0 }) serializer)) (λ s u. refl)

lift-Holds :
    {A : Type 0} (Q : A → Type 0) (m : Outcome A) (p : Parser)
    → Holds Q m
    → Holds (λ r. Q r.0) (lift m p)
unfolding lift
lift-Holds Q (ok a) p h = h
lift-Holds Q out_of_range p h = tt
lift-Holds Q runtime_error p h = tt
lift-Holds Q undefined p h = tt
lift-Holds Q no_fuel p h = tt

verify-ver : (h : Ipv4Header) (p : Parser) → Holds (λ r. r.0.ver ≡ h.ver) (verify h p)
unfolding verify ◌>>=◌ pure set_error
verify-ver h p =
    Holds-continue (λ r. Unit {0}) (λ r. r.0.ver ≡ h.ver)
      (skip_bytes (h.hlen * 4 - header_length) p) _
      (Holds-Unit (skip_bytes (h.hlen * 4 - header_length) p))
      (λ a q u.
        Holds-continue (λ r. r.0.ver ≡ h.ver) (λ r. r.0.ver ≡ h.ver) (lift (compute_checksum h) q) _
          (lift-Holds (λ h'. h'.ver ≡ h.ver) (compute_checksum h) q (compute_checksum-ver h))
          (λ h' t e. elim (Bool-cases (h'.cksum == h.cksum)) [ inl c ↦ rw c e | inr c ↦ rw c e ]))

-- A header whose version is not 4 leaves an error.
abbrev Four : Ipv4Header × Parser → Type 0
Four r = r.1.error ≡ false → r.0.ver ≡ 4

check_header-Four : (h : Ipv4Header) (p : Parser) → Holds Four (check_header h p)
unfolding check_header ◌>>=◌ pure set_error has_error
check_header-Four h p = elim (Bool-cases (h.ver == 4)) [
  | inl e ↦ elim (Bool-cases (ltb h.hlen 5)) [
    | inl f ↦ rw (e, f) (λ c. ==→eq _ _ e)
    | inr f ↦ elim (Bool-cases p.error) [
      | inl g ↦ rw (e, f, g) (λ c. ==→eq _ _ e)
      | inr g ↦
          rw (e, f, g)
            (Holds-map (λ r. r.0.ver ≡ h.ver) Four (verify h (record p { error = false }))
              (verify-ver h (record p { error = false })) (λ r v c. v ∙ ==→eq _ _ e))
    ]
  ]
  | inr e ↦ elim (Bool-cases (ltb h.hlen 5)) [
    | inl f ↦ rw (e, f) (λ c. absurd (ground (arith, c)))
    | inr f ↦ rw (e, f) (λ c. absurd (ground (arith, c)))
  ]
]

parse_header-Four : (h : Ipv4Header) (p : Parser) → Holds Four (parse_header h p)
unfolding parse_header ◌>>=◌
parse_header-Four h p =
    Holds-continue (λ r. Unit {0}) Four (parse_members h p) _ (Holds-Unit (parse_members h p))
      (λ h' q u. check_header-Four h' q)

-- What is left is taken, whatever it is.
remaining-Holds :
    (p : Parser) (m : Outcome (List (List ℕ)))
    → Holds {A = List (List ℕ) × Parser}
        (λ r. r.1 ≡ p)
        (elim m [
          | ok bs ↦ ok (bs, p)
          | out_of_range ↦ out_of_range
          | runtime_error ↦ runtime_error
          | undefined ↦ undefined
          | no_fuel ↦ no_fuel
        ])
remaining-Holds p (ok bs) = refl
remaining-Holds p out_of_range = tt
remaining-Holds p runtime_error = tt
remaining-Holds p undefined = tt
remaining-Holds p no_fuel = tt

-- A datagram that has been parsed without an error has version 4.
pub parse_datagram-Four :
    (d : Ipv4Datagram) (p : Parser)
    → Holds (λ r. r.1.error ≡ false → r.0.header.ver ≡ 4) (parse_datagram d p)
unfolding parse_datagram ◌>>=◌ pure all_remaining
parse_datagram-Four d p =
    Holds-continue Four (λ r. r.1.error ≡ false → r.0.header.ver ≡ 4) (parse_header d.header p) _
      (parse_header-Four d.header p)
      (λ h q f.
        Holds-continue (λ r. r.1 ≡ q) (λ r. r.1.error ≡ false → r.0.header.ver ≡ 4)
          (all_remaining q) _ (remaining-Holds q (dump_all q.input))
          (λ bs t e c. f (ap (λ t. t.error) (sym e) ∙ c)))
