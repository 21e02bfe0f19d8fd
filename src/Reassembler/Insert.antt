-- ===== src/Reassembler/Insert.antt =====
-- Reassembler::insert of src/reassembler.cc as a whole: the invariant, and which bytes are known.
use networkinglab.Base.{
  ℕ, zero, suc, ◌+◌, ◌-◌, ◌≤◌, ◌<◌, ◌≡◌, inl, inr, refl, ap, sym, ◌∙◌, Bool, ◌||◌, ◌&&◌, none, List,
  [], ◌∷◌, leb, ltb, length, drop, take, replicate, append-nil, take_of_length-le, sub64, sub64-eq,
  add64, add64-eq, u64_mod, arith, Bool-cases, ltb→lt, ltb→ge,
}
use networkinglab.Stream.{ByteStream, push}
use networkinglab.Stream.Invariant.{available_capacity-eq}
use networkinglab.Reassembler.{Reassembler, Substring, window_end, clip, push_now, flush}
use networkinglab.Reassembler.Layout.{
  Ordered, Ordered-mono, total, total-le, covers, AllAgree, Agrees,
}
use networkinglab.Reassembler.Sweep.{Keeps}
use networkinglab.Reassembler.Settle.{merge, merge-Keeps, merge-nil}
use networkinglab.Reassembler.Flush.{
  Sink, Grown, Grown-trans, Carries, Reached, push-Reached, Flushed, flush-Flushed,
}

-- The index behind the last byte that the stream has room for.
abbrev pub limit : ByteStream → ℕ
limit w = w.bytes_popped + w.capacity

pub window_end-eq : (hi : ℕ) (w : ByteStream) → Sink hi w → window_end w ≡ hi
window_end-eq hi w s =
    ap (add64 w.bytes_pushed) (available_capacity-eq w v (omega arith))
    ∙ add64-eq w.bytes_pushed (w.capacity - w.bytes_buffered) (omega arith)
    ∙ omega arith
  where
    open s use {valid as v}

replicate_of_zero : (n : ℕ) → n ≡ 0 → replicate {A = ℕ} n 0 ≡ []
replicate_of_zero zero e = refl
replicate_of_zero (suc n) e = absurd (omega arith)

pub clip-take :
    (hi first : ℕ) (str : List ℕ)
    → first < hi
    → hi < u64_mod
    → first + length str < u64_mod
    → clip hi first str ≡ take (hi - first) str
unfolding clip
clip-take hi first str h w l =
    rw (add64-eq first (length str) l) (elim (Bool-cases (ltb hi (first + length str))) [
      | inl c ↦
          rw
            (
              c,
              sub64-eq hi first (omega arith) w,
              replicate_of_zero (hi - first - length str) (omega (arith, ltb→lt _ _ c)),
            )
            (append-nil (take (hi - first) str))
      | inr c ↦ rw c (sym (take_of_length-le (hi - first) str (omega (arith, ltb→ge _ _ c))))
    ])

-- What an insertion of `str` at `first` makes of the nodes `ns` and the stream `w`.
pub record Inserted (hi first : ℕ) (str : List ℕ) (ns : List Substring) (w : ByteStream)
    (r : List Substring × ℕ × ByteStream) : Type 0 where
  pub ordered : Ordered (suc r.2.bytes_pushed) hi r.0
  pub counted : r.1 ≡ total r.0
  pub sink : Sink hi r.2
  pub grown : Grown w r.2
  pub covered :
      (i : ℕ)
      → (ltb i r.2.bytes_pushed || covers i r.0)
        ≡ ((ltb i w.bytes_pushed || covers i ns) || (leb first i && ltb i (first + length str)))
  pub agrees :
      (whole : ℕ → ℕ)
      → Agrees whole first str
      → AllAgree whole ns
      → Carries whole w
      → AllAgree whole r.0 × Carries whole r.2

-- insert between the clipping and the closing.
abbrev pub assemble : ℕ → List ℕ → List Substring → ℕ → ByteStream → List Substring × ℕ × ByteStream
assemble first str ns nb w =
    let (str', w') = push_now first str w in let (ms, k) = merge first str' ns nb in flush ms k w'

module _ (hi first : ℕ) (ns : List Substring) (nb : ℕ) (w : ByteStream)
    (o : Ordered (suc w.bytes_pushed) hi ns) (e : nb ≡ total ns) (s : Sink hi w) where
  open s use {valid as v}

  from_zero : Ordered 0 hi ns
  from_zero = Ordered-mono ns (omega arith) (omega arith) o

  flushes :
      (ms : List Substring) (k : ℕ) (u : ByteStream)
      → Sink hi u
      → Ordered 0 hi ms
      → k ≡ total ms
      → Flushed hi ms u (flush ms k u)
  flushes ms k u t p q =
      flush-Flushed hi ms 0 k u p q
        (omega (arith, total-le ms {lo = 0} {hi = hi} (omega arith) p, s.word)) t

  -- The data begin at or before the next byte and go past it.
  pushed-Inserted :
      (str : List ℕ)
      → first ≤ w.bytes_pushed
      → w.bytes_pushed < first + length str
      → first + length str ≤ hi
      → Inserted hi first str ns w (
          let (ms, k) = merge first [] ns nb in
          flush ms k (push w (drop (sub64 w.bytes_pushed first) str)))
  pushed-Inserted str h l f = record {
    ordered = g.ordered;
    counted = g.counted;
    sink = g.sink;
    grown = Grown-trans p.grown g.grown;
    covered = λ i. ground (arith, g.covered i, m.covered i, p.pushed);
    agrees = λ whole a b c. g.agrees whole (m.agrees whole b) (p.carries whole a c);
  }
    where
      p :
          Reached hi
            (record { start = first; bytes = str })
            w
            (push w (drop (sub64 w.bytes_pushed first) str))
      p = push-Reached hi (record { start = first; bytes = str }) w s h f

      m : Keeps 0 hi none ns (merge first [] ns nb)
      m = merge-nil hi first ns nb (omega (arith, s.word)) from_zero e

      g : Flushed hi (merge first [] ns nb).0 (push w (drop (sub64 w.bytes_pushed first) str)) (
          let (ms, k) = merge first [] ns nb in
          flush ms k (push w (drop (sub64 w.bytes_pushed first) str)))
      g =
          flushes (merge first [] ns nb).0 (merge first [] ns nb).1 _ p.sink m.ordered
            (omega (arith, m.counted))

  -- The data wait: they are all old, or they begin behind the next byte.
  waiting-Inserted :
      (str : List ℕ)
      → first + length str ≤ hi
      → Inserted hi first str ns w (let (ms, k) = merge first str ns nb in flush ms k w)
  waiting-Inserted [] f = record {
    ordered = g.ordered;
    counted = g.counted;
    sink = g.sink;
    grown = g.grown;
    covered = λ i. ground (arith, g.covered i, m.covered i);
    agrees = λ whole a b c. g.agrees whole (m.agrees whole b) c;
  }
    where
      m : Keeps 0 hi none ns (merge first [] ns nb)
      m = merge-nil hi first ns nb (omega (arith, s.word)) from_zero e

      g : Flushed hi (merge first [] ns nb).0 w (let (ms, k) = merge first [] ns nb in flush ms k w)
      g =
          flushes (merge first [] ns nb).0 (merge first [] ns nb).1 w s m.ordered
            (omega (arith, m.counted))
  waiting-Inserted (x ∷ xs) f = record {
    ordered = g.ordered;
    counted = g.counted;
    sink = g.sink;
    grown = g.grown;
    covered = λ i. ground (arith, g.covered i, m.covered i);
    agrees = λ whole a b c. g.agrees whole (m.agrees whole (a, b)) c;
  }
    where
      m :
          Keeps 0 hi none
            (record { start = first; bytes = x ∷ xs } ∷ ns)
            (merge first (x ∷ xs) ns nb)
      m = merge-Keeps hi first x xs ns nb s.word f from_zero e

      g :
          Flushed hi
            (merge first (x ∷ xs) ns nb).0
            w
            (let (ms, k) = merge first (x ∷ xs) ns nb in flush ms k w)
      g =
          flushes (merge first (x ∷ xs) ns nb).0 (merge first (x ∷ xs) ns nb).1 w s m.ordered
            (omega (arith, m.counted))

  pub assemble-Inserted :
      (str : List ℕ)
      → first + length str ≤ hi
      → Inserted hi first str ns w (assemble first str ns nb w)
  unfolding push_now
  assemble-Inserted str f =
      rw (add64-eq first (length str) (omega (arith, s.word)))
        (elim (Bool-cases (leb first w.bytes_pushed && ltb w.bytes_pushed (first + length str))) [
          | inl c ↦ rw c (pushed-Inserted str (ground arith) (ground arith) f)
          | inr c ↦ rw c (waiting-Inserted str f)
        ])

-- The Reassembler's nodes lie behind the next byte and within the window, apart from one another,
-- and `bytes_pending` counts their bytes; the stream is valid.
pub record IsSound (r : Reassembler) (w : ByteStream) : Type 0 where
  pub sink : Sink (limit w) w
  pub ordered : Ordered (suc w.bytes_pushed) (limit w) r.substrs
  pub counted : r.nbytes_substrs ≡ total r.substrs

-- Is byte `i` of the whole stream written to the output, or stored?
abbrev pub known : ℕ → Reassembler → ByteStream → Bool
known i r w = ltb i w.bytes_pushed || covers i r.substrs

-- Is it one of the bytes that come with the insertion, and within the window?
abbrev pub arrives : ℕ → ℕ → List ℕ → ByteStream → Bool
arrives i first str w = leb first i && (ltb i (first + length str) && ltb i (limit w))

-- The stored and waiting bytes are all those of the whole stream.
pub record IsTrue (whole : ℕ → ℕ) (r : Reassembler) (w : ByteStream) : Type 0 where
  pub stored : AllAgree whole r.substrs
  pub carried : Carries whole w
