-- ===== src/Wire/Ends.antt =====
-- How a Parser of util/parser.hh begins with its buffers, and hands over what is left.
use networkinglab.Base.{
  ℕ, ◌+◌, ◌-◌, ◌≤◌, ◌<◌, ◌≡◌, refl, sym, ap, ◌∙◌, false, List, [], ◌∷◌, ◌++◌, append_assoc,
  append-nil, ok, length, length-append, drop, drop_of_zero, concat, ◌==◌, if◌then◌else◌,
  Bool-cases, inl, inr, ==→eq, ==→ne, ge→ltb, add64, add64-eq, u64_mod, arith,
}
use networkinglab.Wire.{
  BufferList, buffer_list, append, append_all, substr, dump_all, dump_concat, Parser, parser,
}
use networkinglab.Wire.Parsing.{Parsing, pure, ◌>>=◌, all_remaining, all_remaining_concat}
use networkinglab.Stream.Invariant.{AllFull}
use networkinglab.Wire.Reading.{Holds, Fluent, Fluent-resp, Fluent-zero, chunks-zero, Within-zero}
use networkinglab.Wire.Steps.{Stands, Reads}

module _ (size skip : ℕ) (c : List ℕ) (cs : List (List ℕ)) where
  first_str : skip ≤ length c → (if skip == 0 then ok c else substr skip c) ≡ ok (drop skip c)
  unfolding substr
  first_str h = elim (Bool-cases (skip == 0)) [
    | inl e ↦ rw e (ap ok (sym (drop_of_zero skip c (==→eq skip 0 e))))
    | inr e ↦ rw (e, ge→ltb (length c) skip h) refl
  ]

length-nil : (rest : List ℕ) → length rest ≡ 0 → rest ≡ []
length-nil [] e = refl
length-nil (x ∷ rest) e = absurd (omega arith)

-- The strings that are left: all that stands there, and fluent as it was.
abbrev pub Dumps : BufferList → List ℕ → List ℕ → Type 0
Dumps b more rest =
    (bs : List (List ℕ)) × (dump_all b ≡ ok bs)
    × (concat bs ≡ more ++ rest)
    × Fluent (length more) bs

dump_any :
    (size skip : ℕ) (cs : List (List ℕ)) (more rest : List ℕ)
    → Holds (record { size = size; buffer = cs; skip = skip }) more rest
    → (size == 0) ≡ false
    → Dumps (record { size = size; buffer = cs; skip = skip }) more rest
unfolding dump_all
dump_any size skip [] more rest h e =
    absurd (omega (arith, ap length h.bytes, h.counted, ==→ne size 0 e))
dump_any size skip (c ∷ cs) more rest h e =
    (drop skip c ∷ cs, rw (dump_all, e, first_str size skip c cs h.within) refl, h.bytes, h.fluent)

pub dump_all-Holds : (b : BufferList) (more rest : List ℕ) → Holds b more rest → Dumps b more rest
unfolding dump_all
dump_all-Holds b more rest h = elim (Bool-cases (b.size == 0)) [
  | inl e ↦
      let none_left : length (more ++ rest) ≡ 0 = omega (arith, h.counted, ==→eq b.size 0 e) in
      (
        [],
        rw (dump_all, e) refl,
        sym (length-nil (more ++ rest) none_left),
        omega (arith, none_left, length-append more rest),
      )
  | inr e ↦ dump_any b.size b.skip b.buffer more rest h e
]

pub Fluent-front : (n : ℕ) (c : List ℕ) (cs : List (List ℕ)) → n ≤ length c → Fluent n (c ∷ cs)
Fluent-front n c cs h =
    ((λ k. omega (arith, h, k)), Fluent-resp {m = 0} cs (omega (arith, h)) (Fluent-zero cs))

pub Fluent-AllFull :
    (n : ℕ) (cs : List (List ℕ)) → AllFull cs → n ≤ length (concat cs) → Fluent n cs
Fluent-AllFull n [] f h = omega (arith, h)
Fluent-AllFull n (c ∷ cs) (full, f) h = (
  (λ k. full),
  Fluent-AllFull (n - length c) cs f (omega (arith, h, length-append c (concat cs))),
)

append_all-eq :
    (b : BufferList) (xs : List (List ℕ))
    → b.size + length (concat xs) < u64_mod
    → append_all b xs ≡ record b { size = b.size + length (concat xs); buffer = b.buffer ++ xs }
unfolding append_all append
append_all-eq b [] h = ground (arith, append-nil b.buffer)
append_all-eq b (x ∷ xs) h =
    let grown : add64 b.size (length x) ≡ b.size + length x =
      add64-eq b.size (length x) (omega (arith, h, length-append x (concat xs))) in
    append_all-eq (append b x) xs (rw grown (omega (arith, h, length-append x (concat xs))))
    ∙ ground (arith, grown, append_assoc b.buffer (x ∷ []) xs, length-append x (concat xs))

-- The parser stands at the front of what it is made of.
pub parser-Stands :
    (buffers : List (List ℕ)) (bs rest : List ℕ)
    → concat buffers ≡ bs ++ rest
    → Fluent (length bs) buffers
    → length (bs ++ rest) < u64_mod
    → Stands (parser buffers) bs rest
unfolding parser buffer_list
parser-Stands buffers bs rest e f h =
    rw (append_all-eq empty buffers (omega (arith, ap length e, h))) (
      record {
        bytes = rw (chunks-zero buffers) e;
        fluent = rw (chunks-zero buffers) f;
        within = Within-zero buffers;
        counted = omega (arith, ap length e);
        word = omega (arith, ap length e, h);
      },
      refl,
    )
  where
    empty : BufferList
    empty = record { size = 0; buffer = []; skip = 0 }

pub all_remaining-Stands :
    (p : Parser) (more rest : List ℕ)
    → Stands p more rest
    → (bs : List (List ℕ)) × (all_remaining p ≡ ok (bs, p))
      × (concat bs ≡ more ++ rest)
      × Fluent (length more) bs
unfolding all_remaining
all_remaining-Stands p more rest s =
    let (bs, e, d, f) = dump_all-Holds p.input more rest s.0 in
    (bs, rw (all_remaining, e) refl, d, f)

pub all_remaining_concat-Stands :
    (p : Parser) (rest : List ℕ) → Stands p [] rest → all_remaining_concat p ≡ ok (rest, p)
unfolding all_remaining_concat dump_concat
all_remaining_concat-Stands p rest s =
    let (bs, e, d, f) = dump_all-Holds p.input [] rest s.0 in rw (all_remaining_concat, e, d) refl

-- The step reads the bytes `bs`, takes `rest` as what is left, and gives `v` without an error.
pub record Finishes {A : Type 0} (m : Parsing A) (bs rest : List ℕ) (v : A) : Type 0 where
  pub at : (p : Parser) → Stands p bs rest → (q : Parser) × (m p ≡ ok (v, q)) × (q.error ≡ false)

pub Finishes-bind :
    {A B : Type 0} {m : Parsing A} (f : A → Parsing B) {bs cs rest : List ℕ} {v : A} {w : B}
    → Reads m bs v
    → Finishes (f v) cs rest w
    → Finishes (m >>= f) (bs ++ cs) rest w
unfolding ◌>>=◌
Finishes-bind f {cs = cs} {rest = rest} h k = record {
  at = λ p s.
      let (q, e, t) = h.at p cs rest s in let (r, d, u) = k.at q t in (r, rw (◌>>=◌, e) d, u);
}

pub Finishes-rest :
    {A : Type 0} (f : List ℕ → A) (rest : List ℕ)
    → Finishes (all_remaining_concat >>= λ bs. pure (f bs)) [] rest (f rest)
unfolding ◌>>=◌ pure
Finishes-rest f rest = record {
  at = λ p s. (p, rw (◌>>=◌, all_remaining_concat-Stands p rest s) refl, s.1);
}
