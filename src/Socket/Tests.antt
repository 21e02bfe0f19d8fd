-- ===== src/Socket/Tests.antt =====
-- Runs of util/socket.cc.
use networkinglab.Base.{ℕ, ◌≡◌, refl, true, [], ◌∷◌, ok, runtime_error, add32}
use networkinglab.Descriptor.{done, failed, eagain, fresh, check_system_call, init}
use networkinglab.Socket.{
  rdwr, shutdown, SockOpt, getsockopt, verify, adopt, accept, recv, send, throw_if_error,
}

abbrev answer : ℕ → SockOpt
answer value = record { len = 4; value = value }

shuts_down :
    shutdown (fresh 3) rdwr (done 0) ≡ ok (record (fresh 3) { read_count = 1; write_count = 1 })
unfolding shutdown check_system_call add32
shuts_down = refl

adopts : adopt (fresh 3) 2 1 6 (done (answer 2)) (done (answer 1)) (done (answer 6)) ≡ ok (fresh 3)
unfolding adopt verify getsockopt
adopts = refl

rejects :
    adopt (fresh 3) 2 1 6 (done (answer 2)) (done (answer 2)) (done (answer 6)) ≡ runtime_error
unfolding adopt verify getsockopt
rejects = refl

-- A socket that does not block and has no connection waiting gives the descriptor 0 to a new socket.
accepts_zero :
    accept 11
      (2, 1, 6)
      (record (fresh 3) { non_blocking = true })
      (failed eagain)
      (done 0)
      (done (answer 2))
      (done (answer 1))
      (done (answer 6))
    ≡ ok (fresh 0, record (fresh 3) { non_blocking = true; read_count = 1 })
unfolding accept adopt verify getsockopt init check_system_call add32
accepts_zero = refl

receives : recv (fresh 3) (done (5 ∷ [])) ≡ ok (5 ∷ [], record (fresh 3) { read_count = 1 })
unfolding recv add32
receives = refl

sends : send (fresh 3) (done 1) ≡ ok (record (fresh 3) { write_count = 1 })
unfolding send check_system_call add32
sends = refl

throws : throw_if_error (fresh 3) (done (answer 111)) ≡ runtime_error
unfolding throw_if_error getsockopt
throws = refl
