-- ===== src/Wire.antt =====
-- util/parser.hh and util/buffer.hh: bytes read from a list of buffers, and bytes written to one. A
-- Buffer is the string that it holds.
pub mod Parsing
pub mod Reading
pub mod Steps
pub mod Ends
pub mod Cutting
pub mod Writing
mod Tests
use networkinglab.Base.{
  ℕ, zero, suc, ◌+◌, ◌-◌, ◌*◌, ◌/◌, ◌%◌, ◌^◌, min, Bool, true, false, List, [], ◌∷◌, ◌++◌, ltb,
  ◌==◌, if◌then◌else◌, length, drop, is_empty, concat, add64, sub64, Outcome, ok, out_of_range,
  runtime_error, undefined, ◌>>=◌,
}

-- Parser::BufferList.
pub record BufferList : Type 0 where
  pub size : ℕ
  pub buffer : List (List ℕ)
  pub skip : ℕ

-- BufferList::append.
unfoldable pub append : BufferList → List ℕ → BufferList
append b str = record b { size = add64 b.size (length str); buffer = b.buffer ++ (str ∷ []) }

append_all : BufferList → List (List ℕ) → BufferList
append_all b [] = b
append_all b (x ∷ xs) = append_all (append b x) xs

-- BufferList::BufferList.
unfoldable pub buffer_list : List (List ℕ) → BufferList
unfolding append_all append
buffer_list buffers = append_all (record { size = 0; buffer = []; skip = 0 }) buffers

-- std::string_view::substr.
unfoldable pub substr : ℕ → List ℕ → Outcome (List ℕ)
substr pos str = if ltb (length str) pos then out_of_range else ok (drop pos str)

-- BufferList::peek.
unfoldable pub peek : BufferList → Outcome (List ℕ)
unfolding substr
peek b = elim b.buffer [ [] ↦ runtime_error | c ∷ cs ↦ substr b.skip c ]

-- std::string_view::front.
unfoldable pub front : List ℕ → Outcome ℕ
front [] = undefined
front (x ∷ xs) = ok x

-- The loop of BufferList::remove_prefix, over the buffers: where a buffer is not used up, all of
-- `len` has been removed.
unfoldable pub remove_loop : ℕ → ℕ → List (List ℕ) → ℕ → Outcome BufferList
remove_loop len size [] skip = ok (record { size = size; buffer = []; skip = skip })
remove_loop len size (c ∷ cs) skip = elim (len == 0) [
  | true ↦ ok (record { size = size; buffer = c ∷ cs; skip = skip })
  | false ↦ substr skip c >>= λ view.
      let to_pop_now = min len (length view) in
      elim (skip + to_pop_now == length c) [
        | true ↦ remove_loop (len - to_pop_now) (sub64 size to_pop_now) cs 0
        | false ↦
            ok (record { size = sub64 size to_pop_now; buffer = c ∷ cs; skip = skip + to_pop_now })
      ]
]

-- BufferList::remove_prefix.
unfoldable pub remove_prefix : ℕ → BufferList → Outcome BufferList
unfolding remove_loop substr
remove_prefix len b = remove_loop len b.size b.buffer b.skip

-- BufferList::dump_all into a vector. The front string loses what has been skipped.
unfoldable pub dump_all : BufferList → Outcome (List (List ℕ))
unfolding substr
dump_all b = elim (b.size == 0) [
  | true ↦ ok []
  | false ↦ elim b.buffer [
    | [] ↦ undefined
    | c ∷ cs ↦ (if b.skip == 0 then ok c else substr b.skip c) >>= λ first_str. ok (first_str ∷ cs)
  ]
]

-- BufferList::dump_all into a Buffer: the strings end to end.
unfoldable pub dump_concat : BufferList → Outcome (List ℕ)
dump_concat b = dump_all b >>= λ strs. ok (concat strs)

pub record Parser : Type 0 where
  pub input : BufferList
  pub error : Bool

-- Parser::Parser.
unfoldable pub parser : List (List ℕ) → Parser
parser input = record { input = buffer_list input; error = false }

-- Parser::check_size.
unfoldable pub check_size : ℕ → Parser → Parser
check_size size p = if ltb p.input.size size then record p { error = true } else p

-- The loop of Parser::integer over the bytes. Of as many bytes as the type has, none is shifted out.
unfoldable pub read_bytes : ℕ → ℕ → BufferList → Outcome (ℕ × BufferList)
read_bytes zero out b = ok (out, b)
read_bytes (suc n) out b = peek b >>= λ view.
    front view >>= λ byte. remove_prefix 1 b >>= λ b'. read_bytes n (out * 256 + byte) b'

-- Parser::integer for an integer of `width` bytes: `out` stays as it is on an error.
unfoldable pub integer : ℕ → ℕ → Parser → Outcome (ℕ × Parser)
unfolding check_size
integer width out p =
    let p' = check_size width p in
    if p'.error
    then ok (out, p')
    else (read_bytes width 0 p'.input >>= λ r. ok (r.0, record p' { input = r.1 }))

pub record Serializer : Type 0 where
  pub output : List (List ℕ)
  pub buffer : List ℕ

-- Serializer::Serializer.
unfoldable pub serializer : Serializer
serializer = record { output = []; buffer = [] }

-- The bytes of an integer of `width` bytes, the high one first.
unfoldable pub to_bytes : ℕ → ℕ → List ℕ
to_bytes zero val = []
to_bytes (suc n) val = (val / 256 ^ n % 256) ∷ to_bytes n val

-- Serializer::integer.
unfoldable pub put_integer : ℕ → ℕ → Serializer → Serializer
put_integer width val s = record s { buffer = s.buffer ++ to_bytes width val }

-- Serializer::flush.
unfoldable pub flush : Serializer → Serializer
flush s = record { output = s.output ++ (s.buffer ∷ []); buffer = [] }

-- Serializer::buffer.
unfoldable pub put_buffer : List ℕ → Serializer → Serializer
unfolding flush
put_buffer buf s = record (flush s) { output = (flush s).output ++ (buf ∷ []) }

-- Serializer::buffer for a vector.
unfoldable pub put_buffers : List (List ℕ) → Serializer → Serializer
put_buffers [] s = s
put_buffers (b ∷ bs) s = put_buffers bs (put_buffer b s)

-- Serializer::output.
unfoldable pub finish : Serializer → List (List ℕ)
unfolding flush
finish s = (flush s).output
