-- ===== src/Descriptor/Tests.antt =====
-- Runs of util/file_descriptor.cc.
use networkinglab.Base.{◌≡◌, refl, true, false, [], ◌∷◌, ok, runtime_error, add32}
use networkinglab.Descriptor.{
  FdWrapper, done, failed, eagain, other, fresh, init, close, destroy, read, write, write_vector,
  check_system_call, set_blocking, caught,
}

abbrev waiting : FdWrapper
waiting = record (fresh 3) { non_blocking = true }

-- The bit 11 of the flags is set.
opens : init 11 (done 3) (done 2050) ≡ ok waiting
unfolding init check_system_call
opens = refl

refuses : init 11 (failed other) (done 0) ≡ runtime_error
unfolding init
refuses = refl

-- The buffer comes back with what it held.
reads_nothing : read waiting (1 ∷ 2 ∷ []) (failed eagain) ≡ ok (1 ∷ 2 ∷ [], waiting)
unfolding read
reads_nothing = refl

reads_end :
    read waiting (1 ∷ 2 ∷ []) (done []) ≡ ok ([], record waiting { eof = true; read_count = 1 })
unfolding read add32
reads_end = refl

writes_part : write waiting (1 ∷ 2 ∷ []) (done 1) ≡ ok (1, record waiting { write_count = 1 })
unfolding write write_vector check_system_call add32
writes_part = refl

writes_nothing : write waiting (1 ∷ 2 ∷ []) (failed eagain) ≡ runtime_error
unfolding write write_vector check_system_call
writes_nothing = refl

unblocks : set_blocking 11 (fresh 3) false (done 2) (done 0) ≡ ok (2050, waiting)
unfolding set_blocking check_system_call
unblocks = refl

blocks : set_blocking 11 waiting true (done 2050) (done 0) ≡ ok (2, fresh 3)
unfolding set_blocking check_system_call
blocks = refl

-- The destructor closes, and swallows the exception of a close that fails.
destroys : destroy (fresh 3) (done 0) ≡ record (fresh 3) { eof = true; closed = true }
unfolding destroy close caught check_system_call
destroys = refl

keeps_open : destroy (fresh 3) (failed other) ≡ fresh 3
unfolding destroy close caught check_system_call
keeps_open = refl
