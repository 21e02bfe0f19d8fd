-- ===== src/Wire/Cutting.antt =====
-- Parser::integer of util/parser.hh: how the bytes are cut into buffers makes no difference.
use networkinglab.Base.{
  ℕ, ◌≤◌, ◌<◌, ◌≡◌, refl, sym, ap, subst, ◌∙◌, false, List, [], ◌∷◌, ◌++◌, append-nil, length,
  length-take, take, drop, take-append-drop, concat, u64_mod, ok, arith,
}
use networkinglab.Stream.Invariant.{AllFull}
use networkinglab.Wire.{Parser, parser, integer}
use networkinglab.Wire.Parsing.{all_remaining_concat}
use networkinglab.Wire.Reading.{Fluent, Fluent-resp, from_bytes}
use networkinglab.Wire.Steps.{Stands, Reads-integer}
use networkinglab.Wire.Ends.{
  parser-Stands, all_remaining_concat-Stands, Fluent-front, Fluent-AllFull,
}

-- An integer of the first bytes of `str` is read from the buffers, and the other bytes are left.
abbrev pub Splits : ℕ → ℕ → List (List ℕ) → List ℕ → Type 0
Splits width out buffers str =
    (q : Parser) × (integer width out (parser buffers) ≡ ok (from_bytes 0 (take width str), q))
    × (q.error ≡ false)
    × (all_remaining_concat q ≡ ok (drop width str, q))

integer-Splits :
    (width out : ℕ) (buffers : List (List ℕ)) (str : List ℕ)
    → concat buffers ≡ str
    → Fluent width buffers
    → width ≤ length str
    → length str < u64_mod
    → Splits width out buffers str
integer-Splits width out buffers str e f h w =
    let whole : take width str ++ drop width str ≡ str = take-append-drop width str in
    let size : length (take width str) ≡ width = omega (arith, length-take width str, h) in
    let stands : Stands (parser buffers) (take width str) (drop width str) =
      parser-Stands buffers (take width str) (drop width str) (e ∙ sym whole)
        (Fluent-resp buffers (sym size) f) (omega (arith, ap length whole, w)) in
    let (q, r, s) =
      (Reads-integer width out (take width str) size).at (parser buffers) [] (drop width str) (
        subst (λ l. Stands (parser buffers) l (drop width str)) (sym (append-nil (take width str)))
          stands) in
    (q, r, s.1, all_remaining_concat-Stands q (drop width str) s)

-- If no buffer is empty and the buffers hold as many bytes as the integer has, and fewer than
-- 2^64, then the integer that is read from the buffers is the one that is read from the same bytes
-- in a single buffer: the first bytes, the high one first, without an error, and all other bytes
-- are left in both cases.
pub integer_of_any_cut :
    (width out : ℕ) (buffers : List (List ℕ))
    → AllFull buffers
    → width ≤ length (concat buffers)
    → length (concat buffers) < u64_mod
    → Splits width out buffers (concat buffers)
      × Splits width out (concat buffers ∷ []) (concat buffers)
integer_of_any_cut width out buffers f h w = (
  integer-Splits width out buffers (concat buffers) refl (Fluent-AllFull width buffers f h) h w,
  integer-Splits width out (concat buffers ∷ []) (concat buffers) (append-nil (concat buffers))
      (Fluent-front width (concat buffers) [] h) h w,
)
