-- ===== src/Wire/Writing.antt =====
-- What the functions of util/parser.hh that write add to a Serializer.
use networkinglab.Base.{
  ℕ, ◌<◌, ◌≡◌, refl, sym, ap, ◌∙◌, List, [], ◌∷◌, ◌++◌, append_assoc, append-nil, concat,
  concat-append, ap₂, arith,
}
use networkinglab.Wire.{
  Serializer, to_bytes, put_integer, flush, put_buffer, put_buffers, finish, serializer,
}

-- A loop over the bytes of an array: each is written as an integer.
unfoldable pub put_bytes : List ℕ → Serializer → Serializer
put_bytes [] s = s
put_bytes (b ∷ bs) s = put_bytes bs (put_integer 1 b s)

-- The bytes `bs` are added to those that wait for a flush.
abbrev pub write : List ℕ → Serializer → Serializer
write bs s = record s { buffer = s.buffer ++ bs }

pub put_integer-write :
    (width v : ℕ) (s : Serializer) → put_integer width v s ≡ write (to_bytes width v) s
unfolding put_integer
put_integer-write width v s = refl

-- Bytes below 256 are written as they are.
abbrev pub AllBytes : List ℕ → Type 0
AllBytes [] = Unit {0}
AllBytes (b ∷ bs) = (b < 256) × AllBytes bs

pub put_bytes-write : (bs : List ℕ) (s : Serializer) → AllBytes bs → put_bytes bs s ≡ write bs s
unfolding put_bytes put_integer to_bytes
put_bytes-write [] s a = ap (λ l. record s { buffer = l }) (sym (append-nil s.buffer))
put_bytes-write (b ∷ bs) s a =
    ap (λ (k : ℕ). put_bytes bs (write (k ∷ []) s)) {y = b} (omega (arith, a.0))
    ∙ put_bytes-write bs (write (b ∷ []) s) a.1
    ∙ ap (λ l. record s { buffer = l }) (append_assoc s.buffer (b ∷ []) bs)

pub write-write : (bs cs : List ℕ) (s : Serializer) → write cs (write bs s) ≡ write (bs ++ cs) s
write-write bs cs s = ap (λ l. record s { buffer = l }) (append_assoc s.buffer bs cs)

-- All that has been written, end to end.
abbrev pub written : Serializer → List ℕ
written s = concat s.output ++ s.buffer

pub concat-finish : (s : Serializer) → concat (finish s) ≡ written s
unfolding finish flush
concat-finish s =
    concat-append s.output (s.buffer ∷ []) ∙ ap (λ l. concat s.output ++ l) (append-nil s.buffer)

pub written-put_buffer : (b : List ℕ) (s : Serializer) → written (put_buffer b s) ≡ written s ++ b
unfolding put_buffer finish
written-put_buffer b s =
    append-nil (concat (finish s ++ (b ∷ [])))
    ∙ concat-append (finish s) (b ∷ [])
    ∙ ap₂ (λ k l. k ++ l) (concat-finish s) (append-nil b)

pub written-put_buffers :
    (bs : List (List ℕ)) (s : Serializer) → written (put_buffers bs s) ≡ written s ++ concat bs
unfolding put_buffers
written-put_buffers [] s = sym (append-nil (written s))
written-put_buffers (b ∷ bs) s =
    written-put_buffers bs (put_buffer b s)
    ∙ ap (λ l. l ++ concat bs) (written-put_buffer b s)
    ∙ append_assoc (written s) b (concat bs)

-- The first string of the output holds what was written before the first flush.
abbrev pub StartsWith : List ℕ → List (List ℕ) → Type 0
StartsWith bs cs = (rest : List (List ℕ)) × (cs ≡ bs ∷ rest)

put_buffers-StartsWith :
    (bs : List (List ℕ)) (s : Serializer) (front : List ℕ)
    → StartsWith front s.output
    → StartsWith front (put_buffers bs s).output
unfolding put_buffers put_buffer
put_buffers-StartsWith [] s front h = h
put_buffers-StartsWith (b ∷ bs) s front (rest, e) =
    put_buffers-StartsWith bs (put_buffer b s) front
      ((rest ++ (s.buffer ∷ [])) ++ (b ∷ []), rw e refl)

pub finish-StartsWith :
    (bs : List (List ℕ)) (front : List ℕ)
    → StartsWith front (finish (put_buffers bs (write front serializer)))
unfolding finish put_buffers put_buffer serializer
finish-StartsWith [] front = ([], refl)
finish-StartsWith (b ∷ bs) front =
    let (rest, e) =
      put_buffers-StartsWith bs (put_buffer b (write front serializer)) front (b ∷ [], refl) in
    (rest ++ ((put_buffers bs (put_buffer b (write front serializer))).buffer ∷ []), rw e refl)

pub concat-finish-put_buffers :
    (bs : List (List ℕ)) (front : List ℕ)
    → concat (finish (put_buffers bs (write front serializer))) ≡ front ++ concat bs
unfolding serializer
concat-finish-put_buffers bs front =
    concat-finish (put_buffers bs (write front serializer))
    ∙ written-put_buffers bs (write front serializer)
