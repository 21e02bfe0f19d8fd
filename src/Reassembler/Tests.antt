-- ===== src/Reassembler/Tests.antt =====
-- Runs of src/reassembler.cc, and the theorems at them.
use networkinglab.Base.{
  ◌<◌, ℕ, ◌≡◌, ◌≤◌, ◌<◌, ◌+◌, ◌-◌, refl, List, [], ◌∷◌, false, true, ◌||◌, ◌&&◌, ◌==◌, ok, arith,
  add64, sub64,
}
use networkinglab.Stream.{
  ByteStream, push, close, push_string, fit, available_capacity, pop, pop_strings, erase_front,
}
use networkinglab.Stream.Invariant.{contents}
use networkinglab.Reassembler.{Reassembler, insert, bytes_pending}
use networkinglab.Reassembler.Insert.{IsSound, IsTrue, known, arrives}
use networkinglab.Reassembler.Correct.{
  closing, insert-IsSound, insert-known, insert-IsTrue, insert_writes,
}
use networkinglab.Reassembler.Closing.{insert_closes, insert_cut_closes}
use networkinglab.Reassembler.Counting.{count, insert-pending}

-- The whole stream: byte i is 100 + i.
abbrev counting : ℕ → ℕ
counting i = 100 + i

-- Bytes 0 and 1 are written and wait, and bytes 4 and 5 are stored.
abbrev some_stream : ByteStream
some_stream = record {
  capacity = 8;
  buffer = (100 ∷ 101 ∷ []) ∷ [];
  bytes_pushed = 2;
  bytes_popped = 0;
  bytes_buffered = 2;
  is_closed = false;
  has_error = false;
}

abbrev some_gap : Reassembler
some_gap = record {
  substrs = record { start = 4; bytes = 104 ∷ 105 ∷ [] } ∷ [];
  nbytes_substrs = 2;
  should_close = false;
}

some_gap-IsSound : IsSound some_gap some_stream
some_gap-IsSound = record {
  sink = record {
    valid = record {
      counted = refl;
      bounded = omega arith;
      total = omega arith;
      full = omega arith;
    };
    limit = refl;
    word = omega arith;
  };
  ordered = omega arith;
  counted = refl;
}

some_gap-IsTrue : IsTrue counting some_gap some_stream
some_gap-IsTrue = record { stored = ((refl, (refl, tt)), tt); carried = (refl, (refl, tt)) }

abbrev bridge : List ℕ
bridge = 101 ∷ 102 ∷ 103 ∷ 104 ∷ []

abbrev long_tail : List ℕ
long_tail = 102 ∷ 103 ∷ 104 ∷ 105 ∷ 106 ∷ 107 ∷ 108 ∷ []

fills_the_gap :
    contents (insert some_gap 1 bridge true some_stream).1 ≡ 100 ∷ 101 ∷ 102 ∷ 103 ∷ 104 ∷ 105 ∷ []
unfolding insert push close push_string fit available_capacity add64 sub64
fills_the_gap = refl

insert-IsSound_example :
    IsSound
      (insert some_gap 1 bridge true some_stream).0
      (insert some_gap 1 bridge true some_stream).1
insert-IsSound_example =
    insert-IsSound some_gap some_stream some_gap-IsSound 1 bridge true (omega arith)

insert-known_example :
    known 3
      (insert some_gap 1 bridge true some_stream).0
      (insert some_gap 1 bridge true some_stream).1
    ≡ (known 3 some_gap some_stream || arrives 3 1 bridge some_stream)
insert-known_example =
    insert-known some_gap some_stream some_gap-IsSound 1 bridge true (omega arith) 3

insert-IsTrue_example :
    IsTrue counting
      (insert some_gap 1 bridge true some_stream).0
      (insert some_gap 1 bridge true some_stream).1
insert-IsTrue_example =
    insert-IsTrue some_gap some_stream some_gap-IsSound 1 bridge true (omega arith) counting
      (refl, (refl, (refl, (refl, tt)))) some_gap-IsTrue

insert_writes_example :
    let next = (insert some_gap 1 bridge true some_stream).1.bytes_pushed in
    ((known next some_gap some_stream || arrives next 1 bridge some_stream) ≡ false)
    × ((i : ℕ) → i < next → (known i some_gap some_stream || arrives i 1 bridge some_stream) ≡ true)
insert_writes_example =
    insert_writes some_gap some_stream some_gap-IsSound 1 bridge true (omega arith)

insert-pending_example :
    (bytes_pending (insert some_gap 3 (103 ∷ []) false some_stream).0
      ≡ count
          (λ i. known i some_gap some_stream || arrives i 3 (103 ∷ []) some_stream)
          (insert some_gap 3 (103 ∷ []) false some_stream).1.bytes_pushed
          (8 - (insert some_gap 3 (103 ∷ []) false some_stream).1.bytes_pushed))
    × (bytes_pending (insert some_gap 3 (103 ∷ []) false some_stream).0
          + (insert some_gap 3 (103 ∷ []) false some_stream).1.bytes_buffered
        ≤ (insert some_gap 3 (103 ∷ []) false some_stream).1.capacity)
insert-pending_example =
    insert-pending some_gap some_stream some_gap-IsSound 3 (103 ∷ []) false (omega arith)

abbrev after_pop : ByteStream
after_pop = record some_stream { buffer = (101 ∷ []) ∷ []; bytes_popped = 1; bytes_buffered = 1 }

popped_one : pop some_stream 1 ≡ ok after_pop
unfolding pop pop_strings erase_front add64 sub64
popped_one = refl

insert_closes_example :
    ((insert some_gap 1 bridge true some_stream).1.bytes_pushed ≡ 6)
    × ((insert some_gap 1 bridge true some_stream).1.is_closed ≡ (
        false
        || (closing some_gap true
            && (count (λ i. known i some_gap some_stream || arrives i 1 bridge some_stream) 6 2
                == 0))))
insert_closes_example =
    insert_closes some_gap some_stream some_gap-IsSound 1 bridge (omega arith) true 6 (omega arith)
      refl (λ i h. ground (arith, h))

-- An empty last substring ahead of bytes that are missing closes an empty stream at once.
closes_at_once :
    let r : Reassembler = record { substrs = []; nbytes_substrs = 0; should_close = false } in
    let w : ByteStream = record some_stream { buffer = []; bytes_pushed = 0; bytes_buffered = 0 } in
    (insert r 5 [] true w).1.is_closed ≡ true
unfolding insert push close push_string fit available_capacity add64 sub64
closes_at_once = refl

insert_cut_closes_example :
    let v = (insert some_gap 2 long_tail true some_stream).1 in
    (v.is_closed ≡ true) × (v.bytes_pushed < 9)
insert_cut_closes_example =
    insert_cut_closes some_gap some_stream some_gap-IsSound 2 long_tail (omega arith) (omega arith)
      (omega arith) (omega arith)
