-- ===== src/Wire/Tests.antt =====
-- Runs of util/parser.hh.
use networkinglab.Base.{◌≡◌, refl, false, [], ◌∷◌, ok, arith, add64, sub64}
use networkinglab.Wire.{
  parser, buffer_list, append, append_all, substr, peek, front, remove_loop, remove_prefix,
  check_size, read_bytes, integer, serializer, to_bytes, put_integer, put_buffer, flush, finish,
}
use networkinglab.Wire.Cutting.{Splits, integer_of_any_cut}

-- An integer of two bytes that stand in two buffers.
across_buffers :
    integer 2 0 (parser ((1 ∷ []) ∷ (2 ∷ 3 ∷ []) ∷ []))
    ≡ ok (
      258,
      record { input = record { size = 1; buffer = (2 ∷ 3 ∷ []) ∷ []; skip = 1 }; error = false },
    )
unfolding integer parser buffer_list append_all append check_size read_bytes peek substr front
    remove_prefix remove_loop add64 sub64
across_buffers = refl

-- What has been written before a buffer is a string of its own.
buffers_apart :
    finish (put_integer 1 7 (put_buffer (5 ∷ []) (put_integer 2 258 serializer)))
    ≡ (1 ∷ 2 ∷ []) ∷ (5 ∷ []) ∷ (7 ∷ []) ∷ []
unfolding finish flush put_integer put_buffer to_bytes serializer
buffers_apart = refl

integer_of_any_cut_example :
    Splits 2 0 ((1 ∷ []) ∷ (2 ∷ 3 ∷ []) ∷ []) (1 ∷ 2 ∷ 3 ∷ [])
    × Splits 2 0 ((1 ∷ 2 ∷ 3 ∷ []) ∷ []) (1 ∷ 2 ∷ 3 ∷ [])
integer_of_any_cut_example =
    integer_of_any_cut 2 0 ((1 ∷ []) ∷ (2 ∷ 3 ∷ []) ∷ []) (omega arith, (omega arith, tt))
      (omega arith) (omega arith)
