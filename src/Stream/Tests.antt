-- ===== src/Stream/Tests.antt =====
-- Runs of src/byte_stream.cc, and the theorems at them.
use networkinglab.Base.{
  ◌≡◌, refl, [], ◌∷◌, ◌++◌, false, true, ok, out_of_range, arith, ◌>>=◌, add64, sub64, Holds,
}
use networkinglab.Stream.{
  ByteStream, push, push_string, fit, pop, pop_strings, erase_front, read, read_loop, peek,
  available_capacity, close, set_error, is_finished,
}
use networkinglab.Stream.Pipe
use networkinglab.Stream.Invariant.{IsValid, contents}
use networkinglab.Stream.Refine.{view, viewed, push_refines, pop_refines, read_refines}

-- A stream for six bytes: seven have gone in, three of them have left.
abbrev some_stream : ByteStream
some_stream = record {
  capacity = 6;
  buffer = (14 ∷ []) ∷ (15 ∷ 16 ∷ 17 ∷ []) ∷ [];
  bytes_pushed = 7;
  bytes_popped = 3;
  bytes_buffered = 4;
  is_closed = false;
  has_error = false;
}

some_stream-IsValid : IsValid some_stream
some_stream-IsValid = record {
  counted = refl;
  bounded = omega arith;
  total = omega arith;
  full = omega arith;
}

push_fits : contents (push some_stream (18 ∷ 19 ∷ 20 ∷ [])) ≡ 14 ∷ 15 ∷ 16 ∷ 17 ∷ 18 ∷ 19 ∷ []
unfolding push push_string fit available_capacity sub64 add64
push_fits = refl

read_across :
    (read some_stream 2 >>= λ r. ok (r.0 ++ (0 ∷ contents r.1))) ≡ ok (14 ∷ 15 ∷ 0 ∷ 16 ∷ 17 ∷ [])
unfolding read read_loop peek pop pop_strings erase_front sub64 add64
read_across = refl

pop_too_much : pop some_stream 5 ≡ out_of_range
unfolding pop
pop_too_much = refl

finished_when_read : (read (close some_stream) 9 >>= λ r. ok (is_finished r.1)) ≡ ok true
unfolding close is_finished read read_loop peek pop pop_strings erase_front sub64 add64
finished_when_read = refl

fails_for_good : (set_error some_stream).has_error ≡ true
unfolding set_error
fails_for_good = refl

push_refines_example :
    (view (push some_stream (18 ∷ 19 ∷ 20 ∷ [])) ≡ Pipe.push (view some_stream) (18 ∷ 19 ∷ 20 ∷ []))
    × IsValid (push some_stream (18 ∷ 19 ∷ 20 ∷ []))
push_refines_example =
    push_refines some_stream (18 ∷ 19 ∷ 20 ∷ []) some_stream-IsValid (omega arith)

pop_refines_example :
    (viewed (pop some_stream 2) ≡ Pipe.pop (view some_stream) 2) × Holds IsValid (pop some_stream 2)
pop_refines_example = pop_refines some_stream 2 some_stream-IsValid (omega arith)

read_refines_example :
    (read some_stream 2 >>= λ r. ok (r.0, view r.1)) ≡ ok (Pipe.read (view some_stream) 2)
read_refines_example = read_refines some_stream 2 some_stream-IsValid (omega arith)
