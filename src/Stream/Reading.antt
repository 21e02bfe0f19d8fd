-- ===== src/Stream/Reading.antt =====
-- read() of src/byte_stream_helpers.cc.
use networkinglab.Base.{
  ℕ, zero, suc, ◌+◌, ◌-◌, ◌<◌, min, ◌≡◌, refl, ap, sym, subst, ◌∙◌, ◌==◌, List, [], ◌∷◌, ◌++◌,
  append-nil, append_assoc, Bool-cases, ltb, inl, inr, ◌&&◌, not, is_empty_of_lt, true, length,
  take, drop, concat, length-append, length-take, length-drop, take_of_min, take-append_front,
  u64_mod, Outcome, ok, ◌>>=◌, arith,
}
use networkinglab.Stream.{ByteStream, front, peek, pop, read_loop, read}
use networkinglab.Stream.Invariant.{
  contents, AllFull, IsValid, Popped, pop-Popped, Popped-zero, Popped-trans,
}

-- What the loop returns, and the stream that it leaves.
abbrev Reads : ByteStream → ℕ → List ℕ → Outcome (List ℕ × ByteStream) → Type 0
Reads s k out r =
    (t : ByteStream) × (r ≡ ok (out ++ take k (contents s), t))
    × Popped s t (min k (length (contents s)))

done-Reads :
    (s : ByteStream) (k : ℕ) (out : List ℕ)
    → IsValid s
    → min k (length (contents s)) ≡ 0
    → Reads s k out (ok (out, s))
done-Reads s k out v e = (
  s,
  ap (λ ys. ok (ys, s))
      (sym (ap (λ ys. out ++ ys) (take_of_min k (contents s) e) ∙ append-nil out)),
  Popped-zero s _ v e,
)

module _ (s : ByteStream) (len : ℕ) (out c : List ℕ) (cs : List (List ℕ))
    (e : s.buffer ≡ c ∷ cs) where
  shown : peek s ≡ ok c
  unfolding peek front
  shown = rw (e, front)

  -- One round: the part of the front string that is wanted moves over.
  round :
      (fuel : ℕ) (t : ByteStream)
      → (not (s.bytes_buffered == 0) && ltb (length out) len) ≡ true
      → 0 < length c
      → pop s (length (take (len - length out) c)) ≡ ok t
      → read_loop (suc fuel) s len out ≡ read_loop fuel t len (out ++ take (len - length out) c)
  unfolding read_loop
  round fuel t more h p =
      rw (more, read_loop) (rw (shown, ◌>>=◌) (rw (is_empty_of_lt c h) (rw (p, ◌>>=◌) refl)))

  bytes : contents s ≡ c ++ concat cs
  bytes = ap concat e

  -- What is read is this part and then what the rest of the loop reads.
  joined :
      (t : ByteStream) (part : List ℕ)
      → part ≡ take (len - length out) c
      → contents t ≡ drop (length part) (contents s)
      → (out ++ part) ++ take (len - length (out ++ part)) (contents t)
        ≡ out ++ take (len - length out) (contents s)
  joined t part d q =
      append_assoc out part (take (len - length (out ++ part)) (contents t))
      ∙ ap (λ ys. out ++ ys)
          (rw (q, shorter, d, bytes) (take-append_front (len - length out) c (concat cs)))
    where
      shorter : len - length (out ++ part) ≡ len - length out - length part
      shorter = omega (arith, length-append out part)

-- The claim for one bound on the rounds.
abbrev Loops : ℕ → ℕ → Type 0
Loops len fuel =
    (s : ByteStream) (out : List ℕ)
    → IsValid s
    → s.bytes_pushed < u64_mod
    → len - length out < fuel
    → Reads s (len - length out) out (read_loop fuel s len out)

more-Reads :
    (fuel len : ℕ)
    → Loops len fuel
    → (s : ByteStream) (out : List ℕ) (b : List (List ℕ)) → s.buffer ≡ b
    → IsValid s
    → s.bytes_pushed < u64_mod
    → len - length out < suc fuel
    → (not (s.bytes_buffered == 0) && ltb (length out) len) ≡ true
    → Reads s (len - length out) out (read_loop (suc fuel) s len out)
more-Reads fuel len ih s out [] eb v w f more =
    absurd (ground (arith, v.counted, ap (λ b. length (concat b)) eb))
more-Reads fuel len ih s out (c ∷ cs) eb v w f more =
    let (t, p, q) = pop-Popped s (length part) v w (omega (arith, v.counted, both, cut)) in
    let (u, r, m) =
      ih t (out ++ part) q.valid (rw q.same_pushed w) (omega (arith, some, progress, joint, cut)) in
    (
      u,
      round s len out c cs eb fuel t more some p
          ∙ r
          ∙ ap (λ ys. ok (ys, u)) (joined s len out c cs eb t _ refl q.removed),
      Popped-trans _ _ _ q m (
          omega
            (arith, both, ap length q.removed, length-drop (length part) (contents s), joint, cut)),
    )
  where
    part : List ℕ
    part = take (len - length out) c

    cut : length part ≡ min (len - length out) (length c)
    cut = length-take (len - length out) c

    joint : length (out ++ part) ≡ length out + length part
    joint = length-append out part

    some : 0 < length c
    some = (subst AllFull eb v.full).0

    both : length (contents s) ≡ length c + length (concat cs)
    both = ap length (bytes s len out c cs eb) ∙ length-append c (concat cs)

    progress : length out < len
    progress = ground arith

read_loop-Reads : (len fuel : ℕ) → Loops len fuel
unfolding read_loop
read_loop-Reads len zero s out v w f = elim f [ ]
read_loop-Reads len (suc fuel) s out v w f =
    elim (Bool-cases (not (s.bytes_buffered == 0) && ltb (length out) len)) [
      | inl e ↦ more-Reads fuel len (read_loop-Reads len fuel) s out s.buffer refl v w f e
      | inr e ↦
          rw (e, read_loop) (done-Reads s (len - length out) out v (ground (arith, v.counted)))
    ]

-- read() returns the first `len` bytes, or all if there are fewer, and they leave the stream: its
-- loop has the rounds that it needs, and it never throws.
pub read-Reads :
    (s : ByteStream) (len : ℕ) → IsValid s → s.bytes_pushed < u64_mod → Reads s len [] (read s len)
unfolding read
read-Reads s len v w =
    subst (λ k. Reads s k [] (read_loop (suc len) s len [])) (omega arith)
      (read_loop-Reads len (suc len) s [] v w (omega arith))
