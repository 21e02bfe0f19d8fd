-- ===== src/Wire/Steps.antt =====
-- Steps of a Parser of util/parser.hh that read the bytes which they expect.
use networkinglab.Base.{
  ℕ, ◌+◌, ◌*◌, ◌≤◌, ◌<◌, ◌≡◌, refl, subst, false, List, [], ◌∷◌, ◌++◌, append_assoc, append-nil, ok,
  length, length-append, ge→ltb, u16_mod, u32_mod, arith,
}
use networkinglab.Wire.{remove_prefix, Parser, check_size, integer, to_bytes}
use networkinglab.Wire.Parsing.{Parsing, pure, ◌>>=◌, skip_bytes, byte_array}
use networkinglab.Wire.Reading.{
  Holds, from_bytes, read_bytes-Holds, remove_loop-zero, Fluent-zero, chunks,
}

-- A parser without an error that has `bs` next, and `rest` behind.
abbrev pub Stands : Parser → List ℕ → List ℕ → Type 0
Stands p bs rest = Holds p.input bs rest × (p.error ≡ false)

-- What is next may as well count as what is behind.
pub Stands-none : (p : Parser) (bs rest : List ℕ) → Stands p bs rest → Stands p [] (bs ++ rest)
Stands-none p bs rest s = (
  record {
    bytes = s.0.bytes;
    fluent = Fluent-zero (chunks p.input.skip p.input.buffer);
    within = s.0.within;
    counted = s.0.counted;
    word = s.0.word;
  },
  s.1,
)

-- The step reads the bytes `bs`, wherever they stand, and gives `v`.
pub record Reads {A : Type 0} (m : Parsing A) (bs : List ℕ) (v : A) : Type 0 where
  pub at :
      (p : Parser) (more rest : List ℕ)
      → Stands p (bs ++ more) rest
      → (p' : Parser) × (m p ≡ ok (v, p')) × Stands p' more rest

pub Reads-pure : {A : Type 0} (v : A) → Reads (pure v) [] v
unfolding pure
Reads-pure v = record { at = λ p more rest s. (p, refl, s) }

pub Reads-bind :
    {A B : Type 0} {m : Parsing A} (f : A → Parsing B) {bs cs : List ℕ} {v : A} {w : B}
    → Reads m bs v
    → Reads (f v) cs w
    → Reads (m >>= f) (bs ++ cs) w
unfolding ◌>>=◌
Reads-bind f {bs = bs} {cs = cs} h k = record {
  at = λ p more rest s.
      let (q, e, t) =
        h.at p (cs ++ more) rest (subst (λ l. Stands p l rest) (append_assoc bs cs more) s) in
      let (r, d, u) = k.at q more rest t in (r, rw e d, u);
}

-- The test of the size changes nothing where there are bytes enough.
check_size-enough : (size : ℕ) (p : Parser) → size ≤ p.input.size → check_size size p ≡ p
unfolding check_size
check_size-enough size p h = rw (ge→ltb p.input.size size h)

pub Reads-whole :
    {A : Type 0} {m : Parsing A} {bs : List ℕ} {v : A} → Reads m (bs ++ []) v → Reads m bs v
Reads-whole {m = m} {bs = bs} {v = v} h = subst (λ l. Reads m l v) (append-nil bs) h

pub Reads-integer :
    (width out : ℕ) (bs : List ℕ)
    → length bs ≡ width
    → Reads (integer width out) bs (from_bytes 0 bs)
unfolding integer
Reads-integer width out bs e = record {
  at = λ p more rest s.
      let (b, q, k) = read_bytes-Holds width 0 bs p.input more rest e s.0 in
      let enough : width ≤ p.input.size =
        omega
          (arith, s.0.counted, e, length-append {0} (bs ++ more) rest, length-append {0} bs more) in
      (
        record p { input = b },
        rw (check_size-enough width p enough) (rw s.1 (rw q refl)),
        (k, s.1),
      );
}

-- Integers of one, two and four bytes come back as they were written.
Reads-to_bytes :
    (width out v : ℕ)
    → length (to_bytes width v) ≡ width
    → from_bytes 0 (to_bytes width v) ≡ v
    → Reads (integer width out) (to_bytes width v) v
Reads-to_bytes width out v e d =
    subst (λ k. Reads (integer width out) (to_bytes width v) k) d
      (Reads-integer width out (to_bytes width v) e)

pub Reads-u8 : (out v : ℕ) → v < 256 → Reads (integer 1 out) (to_bytes 1 v) v
Reads-u8 out v h = Reads-to_bytes 1 out v (unfold to_bytes in refl) (unfold to_bytes in omega arith)

pub Reads-u16 : (out v : ℕ) → v < u16_mod → Reads (integer 2 out) (to_bytes 2 v) v
Reads-u16 out v h =
    Reads-to_bytes 2 out v (unfold to_bytes in refl) (unfold to_bytes in omega arith)

pub Reads-u32 : (out v : ℕ) → v < u32_mod → Reads (integer 4 out) (to_bytes 4 v) v
Reads-u32 out v h =
    Reads-to_bytes 4 out v (unfold to_bytes in refl) (unfold to_bytes in omega arith)

Reads-byte : (out x : ℕ) → Reads (integer 1 out) (x ∷ []) x
Reads-byte out x =
    subst (λ k. Reads (integer 1 out) (x ∷ []) k) {x = 0 * 256 + x} (omega arith)
      (Reads-integer 1 out (x ∷ []) refl)

-- An array of bytes is read byte by byte.
pub Reads-byte_array : (old bs : List ℕ) → length old ≡ length bs → Reads (byte_array old) bs bs
unfolding byte_array
Reads-byte_array [] [] e = Reads-pure []
Reads-byte_array [] (x ∷ bs) e = absurd (omega arith)
Reads-byte_array (o ∷ old) [] e = absurd (omega arith)
Reads-byte_array (o ∷ old) (x ∷ bs) e =
    Reads-bind _ (Reads-byte o x)
      (Reads-whole (Reads-bind _ (Reads-byte_array old bs (omega arith)) (Reads-pure (x ∷ bs))))

-- No bytes are skipped.
pub Reads-skip_none : Reads (skip_bytes 0) [] tt
unfolding skip_bytes remove_prefix
Reads-skip_none = record {
  at = λ p more rest s.
      (p, rw (skip_bytes, remove_loop-zero p.input.size p.input.buffer p.input.skip) refl, s);
}

-- What is left behind the bytes that have been read is handed over, cut in some way.
