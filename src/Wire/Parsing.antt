-- ===== src/Wire/Parsing.antt =====
-- The methods of util/parser.hh as steps of a parser that may fail, for the parse functions of the
-- headers.
use networkinglab.Base.{
  ℕ, Bool, true, List, [], ◌∷◌, Outcome, ok, out_of_range, runtime_error, undefined, no_fuel,
}
use networkinglab.Wire.{Parser, remove_prefix, dump_all, dump_concat, integer}

abbrev pub Parsing : Type 0 → Type 0
Parsing A = Parser → Outcome (A × Parser)

unfoldable pub pure : {A : Type 0} → A → Parsing A
pure a p = ok (a, p)

-- Parser::set_error and Parser::has_error.
unfoldable pub set_error : Parsing (Unit {0})
set_error p = ok (tt, record p { error = true })

unfoldable pub has_error : Parsing Bool
has_error p = ok (p.error, p)

-- Go on with what a step gave, if it did not throw.
abbrev pub continue : {A B : Type 0} → Outcome (A × Parser) → (A → Parsing B) → Outcome (B × Parser)
continue (ok (a, p)) f = f a p
continue out_of_range f = out_of_range
continue runtime_error f = runtime_error
continue undefined f = undefined
continue no_fuel f = no_fuel

infixl 5 ◌>>=◌ ◌>>◌
unfoldable pub ◌>>=◌ : {A B : Type 0} → Parsing A → (A → Parsing B) → Parsing B
unfolding pure set_error has_error
◌>>=◌ m f p = continue (m p) f

abbrev pub ◌>>◌ : {B : Type 0} → Parsing (Unit {0}) → Parsing B → Parsing B
m >> n = m >>= λ _. n

-- Parser::remove_prefix.
unfoldable pub skip_bytes : ℕ → Parsing (Unit {0})
skip_bytes n p = elim (remove_prefix n p.input) [
  | ok b ↦ ok (tt, record p { input = b })
  | out_of_range ↦ out_of_range
  | runtime_error ↦ runtime_error
  | undefined ↦ undefined
  | no_fuel ↦ no_fuel
]

-- Parser::all_remaining into a vector, and into a Buffer. The buffers are given away, and no caller
-- reads on.
unfoldable pub all_remaining : Parsing (List (List ℕ))
all_remaining p = elim (dump_all p.input) [
  | ok bs ↦ ok (bs, p)
  | out_of_range ↦ out_of_range
  | runtime_error ↦ runtime_error
  | undefined ↦ undefined
  | no_fuel ↦ no_fuel
]

unfoldable pub all_remaining_concat : Parsing (List ℕ)
all_remaining_concat p = elim (dump_concat p.input) [
  | ok bs ↦ ok (bs, p)
  | out_of_range ↦ out_of_range
  | runtime_error ↦ runtime_error
  | undefined ↦ undefined
  | no_fuel ↦ no_fuel
]

-- A loop over the bytes of an array: each is read as an integer.
unfoldable pub byte_array : List ℕ → Parsing (List ℕ)
byte_array [] = pure []
byte_array (b ∷ bs) = do x ← integer 1 b; xs ← byte_array bs; pure (x ∷ xs)

-- A call that does not read, and may throw.
unfoldable pub lift : {A : Type 0} → Outcome A → Parsing A
lift (ok a) p = ok (a, p)
lift out_of_range p = out_of_range
lift runtime_error p = runtime_error
lift undefined p = undefined
lift no_fuel p = no_fuel
