-- ===== src/Reassembler/Visit.antt =====
-- One round of the first loop of Reassembler::insert in src/reassembler.cc, on machine words that
-- do not wrap.
use networkinglab.Base.{
  ℕ, ◌-◌, ◌≤◌, ◌<◌, min, ◌≡◌, refl, Option, none, some, List, length, is_empty_of_lt, ap, drop,
  length-drop, drop_of_length-le, add64, sub64, add64-eq, sub64-eq, u64_mod, arith, le→leb, lt→ltb,
  ge→ltb,
}
use networkinglab.Reassembler.{Substring, stop, overlaps, overlap, advance, put, visit}
use networkinglab.Reassembler.Layout.{finish}

-- What is left of `n` behind `p`.
abbrev pub tail_after : Substring → Substring → Substring
tail_after p n = record { start = finish p; bytes = drop (finish p - n.start) n.bytes }

pub visit_first :
    (n : Substring) (nb : ℕ) (rest : Option Substring → ℕ → List Substring × ℕ)
    → visit none n nb rest ≡ put n (rest (some n) nb)
unfolding visit overlaps
visit_first n nb rest = refl

module _ (p n : Substring) (nb hi : ℕ) (rest : Option Substring → ℕ → List Substring × ℕ)
    (after : p.start ≤ n.start) (fits_p : finish p ≤ hi) (fits_n : finish n ≤ hi)
    (word : hi < u64_mod) (counted : length n.bytes ≤ nb) (nb_word : nb < u64_mod) where
  stop-p : stop p ≡ finish p
  unfolding stop
  stop-p = add64-eq p.start (length p.bytes) (omega arith)

  pub visit_apart : finish p ≤ n.start → visit (some p) n nb rest ≡ put n (rest (some n) nb)
  unfolding visit overlaps
  visit_apart h = rw (le→leb p.start n.start after, stop-p, ge→ltb n.start (finish p) h)

  all :
      n.start < finish p
      → finish n ≤ finish p
      → min (sub64 (finish p) n.start) (length n.bytes) ≡ length n.bytes
  all h k = omega (arith, sub64-eq (finish p) n.start (omega arith) (omega arith))

  some_bytes :
      n.start < finish p
      → finish p < finish n
      → min (sub64 (finish p) n.start) (length n.bytes) ≡ finish p - n.start
  some_bytes h k = omega (arith, sub64-eq (finish p) n.start (omega arith) (omega arith))

  moved : n.start < finish p → add64 n.start (finish p - n.start) ≡ finish p
  moved h = omega (arith, add64-eq n.start (finish p - n.start) (omega arith))

  pub visit_covered :
      n.start < finish p
      → finish n ≤ finish p
      → visit (some p) n nb rest ≡ rest (some p) (nb - length n.bytes)
  unfolding visit overlaps overlap
  visit_covered h k =
      rw (le→leb p.start n.start after, stop-p, lt→ltb n.start (finish p) h)
        (rw (all h k, drop_of_length-le (length n.bytes) n.bytes (omega arith))
          (ap (rest (some p)) (sub64-eq nb (length n.bytes) counted nb_word)))

  pub visit_cut :
      n.start < finish p
      → finish p < finish n
      → visit (some p) n nb rest
        ≡ put (tail_after p n) (rest (some (tail_after p n)) (nb - (finish p - n.start)))
  unfolding visit overlaps overlap advance
  visit_cut h k =
      rw (le→leb p.start n.start after, stop-p, lt→ltb n.start (finish p) h)
        (rw (
          some_bytes h k,
          is_empty_of_lt (drop (finish p - n.start) n.bytes)
              (omega (arith, length-drop (finish p - n.start) n.bytes)),
          moved h,
          sub64-eq nb (finish p - n.start) (omega arith) nb_word,
        ))
