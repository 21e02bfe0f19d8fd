-- ===== src/Tuntap/Dividing.antt =====
-- FileDescriptor::read for a vector of strings, of util/file_descriptor.cc, as the adapters use it.
use networkinglab.Base.{
  ℕ, ◌-◌, ◌≤◌, ◌≡◌, if◌then◌else◌, refl, ap, ap₂, ◌∙◌, inl, inr, Bool-cases, List, [], ◌∷◌, ◌++◌,
  map, leb, ge→ltb, leb→le, leb→gt, length, length-append, length-take, length-drop, take, drop,
  take_of_length-le, drop_of_length-le, take-append-le, take-append-drop, append-nil, concat, ok,
  arith,
}
use networkinglab.Descriptor.{FdWrapper, done, widen_last, readv, trim, read_vector, register_read}
use networkinglab.Tuntap.{scatter}

-- A buffer that has been filled keeps its size.
length-filled :
    (b bytes : List ℕ) → length (take (length b) bytes ++ drop (length bytes) b) ≡ length b
length-filled b bytes =
    length-append (take (length b) bytes) (drop (length bytes) b)
    ∙ omega (arith, length-take (length b) bytes, length-drop (length bytes) b)

trim-readv :
    (bs : List (List ℕ)) (bytes : List ℕ) (n : ℕ)
    → n ≡ length bytes
    → trim n (readv bs bytes) ≡ scatter (map length bs) bytes
unfolding trim readv scatter
trim-readv [] bytes n e = refl
trim-readv (b ∷ bs) bytes n e =
    ap₂ (λ x xs. x ∷ xs) first
      (trim-readv bs (drop (length b) bytes)
        (n - length (take (length b) bytes ++ drop (length bytes) b))
        (omega (arith, length-filled b bytes, length-drop (length b) bytes)))
  where
    first :
        (if leb (length (take (length b) bytes ++ drop (length bytes) b)) n
          then take (length b) bytes ++ drop (length bytes) b
          else take n (take (length b) bytes ++ drop (length bytes) b))
        ≡ take (length b) bytes
    first = rw (length-filled b bytes) (elim (Bool-cases (leb (length b) n)) [
      | inl c ↦
          rw (c, drop_of_length-le (length bytes) b (omega (arith, leb→le _ _ c)))
            (append-nil (take (length b) bytes))
      | inr c ↦
          rw (c, take_of_length-le (length b) bytes (omega (arith, leb→gt _ _ c)))
            (take-append-le n bytes (drop (length bytes) b) (omega arith)
              ∙ take_of_length-le n bytes (omega arith))
    ])

concat-scatter :
    (bs : List (List ℕ)) (bytes : List ℕ)
    → length bytes ≤ length (concat bs)
    → concat (scatter (map length bs) bytes) ≡ bytes
unfolding scatter
concat-scatter [] [] h = refl
concat-scatter [] (x ∷ xs) h = absurd (omega arith)
concat-scatter (b ∷ bs) bytes h =
    ap (λ ys. take (length b) bytes ++ ys)
      (concat-scatter bs (drop (length b) bytes)
        (omega (arith, length-drop (length b) bytes, length-append b (concat bs))))
    ∙ take-append-drop (length b) bytes

-- If the bytes that the device delivers fit the buffers, of which the last has the default size,
-- then read for a vector gives each buffer the next bytes up to its size, and the buffers together
-- hold the bytes.
pub read_vector-divides :
    (w : FdWrapper) (b : List ℕ) (bs : List (List ℕ)) (bytes : List ℕ)
    → let buffers = widen_last (b ∷ bs) in
      length bytes ≤ length (concat buffers)
      → (read_vector w (b ∷ bs) (done bytes)
          ≡ ok (scatter (map length buffers) bytes, register_read w))
        × (concat (scatter (map length buffers) bytes) ≡ bytes)
unfolding read_vector
read_vector-divides w b bs bytes h = (
  rw
      (
        ge→ltb (length (concat (widen_last (b ∷ bs)))) (length bytes) h,
        trim-readv (widen_last (b ∷ bs)) bytes (length bytes) refl,
      )
      refl,
  concat-scatter (widen_last (b ∷ bs)) bytes h,
)
