-- ===== src/Descriptor.antt =====
-- util/file_descriptor.{hh,cc}, with CheckSystemCall of util/exception.hh: a file descriptor and its
-- flags. What a system call answers is an argument, and so is the number of the bit O_NONBLOCK.
mod Tests
use networkinglab.Base.{
  ℕ, zero, suc, ◌+◌, ◌-◌, ◌*◌, ◌/◌, ◌%◌, ◌^◌, Bool, true, false, not, ◌&&◌, List, [], ◌∷◌, ◌++◌,
  leb, ltb, ◌==◌, if◌then◌else◌, length, is_empty, take, drop, replicate, concat, add32, Outcome,
  ok, out_of_range, runtime_error, undefined, no_fuel, ◌>>=◌,
}

-- The values of errno that the code tells apart.
pub data Errno : Type 0 where
  eagain einprogress other : Errno

-- What a system call returns: a value, or a negative number and an errno.
pub data Answer {ℓ} (A : Type ℓ) : Type ℓ where
  done : A → Answer A
  failed : Errno → Answer A

-- FileDescriptor::FDWrapper.
pub record FdWrapper : Type 0 where
  pub fd : ℕ
  pub eof : Bool
  pub closed : Bool
  pub non_blocking : Bool
  pub read_count : ℕ
  pub write_count : ℕ

-- errno == EAGAIN or errno == EINPROGRESS.
abbrev pub would_block : Errno → Bool
would_block eagain = true
would_block einprogress = true
would_block other = false

-- CheckSystemCall. A unix_error is a runtime_error.
unfoldable pub check : {A : Type 0} → Answer A → Outcome A
check (done a) = ok a
check (failed e) = runtime_error

-- FDWrapper::CheckSystemCall.
unfoldable pub check_system_call : FdWrapper → Answer ℕ → Outcome ℕ
check_system_call w (done n) = ok n
check_system_call w (failed e) = if w.non_blocking && would_block e then ok 0 else runtime_error

-- flags & O_NONBLOCK, flags | O_NONBLOCK and flags ^ (flags & O_NONBLOCK).
abbrev pub has_bit : ℕ → ℕ → Bool
has_bit bit flags = not (flags / 2 ^ bit % 2 == 0)

abbrev pub set_bit : ℕ → ℕ → ℕ
set_bit bit flags = if has_bit bit flags then flags else flags + 2 ^ bit

abbrev pub clear_bit : ℕ → ℕ → ℕ
clear_bit bit flags = if has_bit bit flags then flags - 2 ^ bit else flags

abbrev pub fresh : ℕ → FdWrapper
fresh fd = record {
  fd = fd;
  eof = false;
  closed = false;
  non_blocking = false;
  read_count = 0;
  write_count = 0;
}

-- FDWrapper::FDWrapper: of a number, which may be negative, and what fcntl answers.
unfoldable pub init : ℕ → Answer ℕ → Answer ℕ → Outcome FdWrapper
unfolding check_system_call
init nonblock (failed e) get = runtime_error
init nonblock (done fd) get = check_system_call (fresh fd) get >>= λ flags.
    ok (record (fresh fd) { non_blocking = has_bit nonblock flags })

-- FDWrapper::close.
unfoldable pub close : FdWrapper → Answer ℕ → Outcome FdWrapper
unfolding check_system_call
close w a = check_system_call w a >>= λ n. ok (record w { eof = true; closed = true })

-- What the catch of a destructor leaves.
caught : FdWrapper → Outcome FdWrapper → FdWrapper
caught w (ok v) = v
caught w out_of_range = w
caught w runtime_error = w
caught w undefined = w
caught w no_fuel = w

-- FDWrapper::~FDWrapper.
unfoldable pub destroy : FdWrapper → Answer ℕ → FdWrapper
unfolding caught close
destroy w a = if w.closed then w else caught w (close w a)

-- set_eof, register_read and register_write; the counts are of 32 bits.
abbrev pub set_eof : FdWrapper → FdWrapper
set_eof w = record w { eof = true }

abbrev pub register_read : FdWrapper → FdWrapper
register_read w = record w { read_count = add32 w.read_count 1 }

abbrev pub register_write : FdWrapper → FdWrapper
register_write w = record w { write_count = add32 w.write_count 1 }

-- kReadBufferSize.
abbrev pub read_buffer_size : ℕ
read_buffer_size = 16384

-- The system call has failed: the buffer stays as it is, or an exception is thrown.
abbrev give_up : {B : Type 0} → FdWrapper → Errno → B → Outcome (B × FdWrapper)
give_up w e buffer = if w.non_blocking && would_block e then ok (buffer, w) else runtime_error

-- read( string& ): an empty buffer gets the default size, and otherwise its own size counts.
abbrev pub sized : List ℕ → List ℕ
sized buffer = if is_empty buffer then replicate read_buffer_size 0 else buffer

unfoldable pub read : FdWrapper → List ℕ → Answer (List ℕ) → Outcome (List ℕ × FdWrapper)
read w buffer (failed e) = give_up w e (sized buffer)
read w buffer (done bytes) =
    let w' = register_read w in
    if ltb (length (sized buffer)) (length bytes)
    then runtime_error
    else ok (bytes, if length bytes == 0 then set_eof w' else w')

-- buffers.back().clear(); buffers.back().resize( kReadBufferSize ).
unfoldable pub widen_last : List (List ℕ) → List (List ℕ)
widen_last [] = []
widen_last (b ∷ []) = replicate read_buffer_size 0 ∷ []
widen_last (b ∷ c ∷ cs) = b ∷ widen_last (c ∷ cs)

-- What readv does to the buffers: the bytes go over the old content, buffer by buffer.
unfoldable pub readv : List (List ℕ) → List ℕ → List (List ℕ)
readv [] bytes = []
readv (b ∷ bs) bytes =
    (take (length b) bytes ++ drop (length bytes) b) ∷ readv bs (drop (length b) bytes)

-- The last loop: buffers that are not full are cut.
unfoldable pub trim : ℕ → List (List ℕ) → List (List ℕ)
trim remaining [] = []
trim remaining (b ∷ bs) =
    let rest = trim (remaining - length b) bs in
    (if leb (length b) remaining then b else take remaining b) ∷ rest

-- read( vector<string>& ). The end of the file is not noted here.
unfoldable pub read_vector :
    FdWrapper → List (List ℕ) → Answer (List ℕ) → Outcome (List (List ℕ) × FdWrapper)
unfolding widen_last readv trim
read_vector w buffers a = if is_empty buffers then ok (buffers, w) else elim a [
  | failed e ↦ give_up w e (widen_last buffers)
  | done bytes ↦
      if ltb (length (concat (widen_last buffers))) (length bytes)
      then runtime_error
      else ok (trim (length bytes) (readv (widen_last buffers) bytes), register_read w)
]

-- write( const vector<string_view>& ), which the other two call: the number of bytes written.
unfoldable pub write_vector : FdWrapper → List (List ℕ) → Answer ℕ → Outcome (ℕ × FdWrapper)
unfolding check_system_call
write_vector w buffers a = check_system_call w a >>= λ n.
    let total_size = length (concat buffers) in
    if (n == 0) && not (total_size == 0)
    then runtime_error
    else if ltb total_size n
    then runtime_error
    else ok (n, register_write w)

-- write( string_view ).
unfoldable pub write : FdWrapper → List ℕ → Answer ℕ → Outcome (ℕ × FdWrapper)
unfolding write_vector
write w buffer = write_vector w (buffer ∷ [])

-- set_blocking: what fcntl answers to F_GETFL and to F_SETFL; the new flags go to the second call.
abbrev pub new_flags : ℕ → Bool → ℕ → ℕ
new_flags nonblock blocking flags =
    if blocking then clear_bit nonblock flags else set_bit nonblock flags

unfoldable pub set_blocking : ℕ → FdWrapper → Bool → Answer ℕ → Answer ℕ → Outcome (ℕ × FdWrapper)
unfolding check_system_call
set_blocking nonblock w blocking get set = check_system_call w get >>= λ flags.
    check_system_call w set >>= λ n.
    ok (new_flags nonblock blocking flags, record w { non_blocking = not blocking })
