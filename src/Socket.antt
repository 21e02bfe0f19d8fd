-- ===== src/Socket.antt =====
-- util/socket.cc: what sockets add to file descriptors. What a system call answers is an argument; the
-- calls that only pass their arguments on and check the answer are Descriptor.check_system_call.
mod Tests
use networkinglab.Base.{
  ℕ, Bool, not, ◌||◌, List, [], ltb, ◌==◌, if◌then◌else◌, length, Outcome, ok, runtime_error, ◌>>=◌,
  map_ok,
}
use networkinglab.Descriptor.{
  Answer, done, failed, FdWrapper, check, check_system_call, register_read, register_write,
  read_buffer_size,
}
use networkinglab.Descriptor

-- SHUT_RD, SHUT_WR, SHUT_RDWR, and every other number.
pub data How : Type 0 where
  rd wr rdwr invalid : How

-- The switch of shutdown.
abbrev pub count_shutdown : How → FdWrapper → Outcome FdWrapper
count_shutdown rd w = ok (register_read w)
count_shutdown wr w = ok (register_write w)
count_shutdown rdwr w = ok (register_write (register_read w))
count_shutdown invalid w = runtime_error

-- Socket::shutdown.
unfoldable pub shutdown : FdWrapper → How → Answer ℕ → Outcome FdWrapper
shutdown w how a = check_system_call w a >>= λ n. count_shutdown how w

-- What getsockopt writes: the length and the value.
pub record SockOpt : Type 0 where
  pub len : ℕ
  pub value : ℕ

-- Socket::getsockopt. In the case of an error that does not count, the variables stay as they are.
unfoldable pub getsockopt : FdWrapper → SockOpt → Answer SockOpt → Outcome SockOpt
getsockopt w initial (done o) = ok o
getsockopt w initial (failed e) = map_ok (λ n. initial) (check_system_call w (failed e))

-- sizeof( int ).
abbrev pub int_size : ℕ
int_size = 4

abbrev pub mismatch : ℕ → SockOpt → Bool
mismatch expected o = not (o.len == int_size) || not (o.value == expected)

-- One of the three checks of the constructor: the value goes on to the next.
unfoldable pub verify : FdWrapper → ℕ → ℕ → Answer SockOpt → Outcome ℕ
unfolding getsockopt
verify w expected actual_value a =
    getsockopt w (record { len = int_size; value = actual_value }) a >>= λ o.
    if mismatch expected o then runtime_error else ok o.value

-- Socket::Socket of a file descriptor: domain, type and protocol, and what getsockopt answers.
unfoldable pub adopt :
    FdWrapper → ℕ → ℕ → ℕ → Answer SockOpt → Answer SockOpt → Answer SockOpt → Outcome FdWrapper
unfolding verify
adopt w domain type protocol d t p = verify w domain 0 d >>= λ v0.
    verify w type v0 t >>= λ v1. map_ok (λ v2. w) (verify w protocol v1 p)

-- Socket::Socket of a domain, type and protocol: what socket and fcntl answer.
unfoldable pub open_socket : ℕ → Answer ℕ → Answer ℕ → Outcome FdWrapper
open_socket nonblock made get = check made >>= λ fd. Descriptor.init nonblock (done fd) get

-- DatagramSocket::recv: the payload, of the size that recvfrom gives, which may be more than fits.
unfoldable pub recv : FdWrapper → Answer (List ℕ) → Outcome (List ℕ × FdWrapper)
recv w (failed e) = map_ok (λ n. ([], register_read w)) (check_system_call w (failed e))
recv w (done bytes) =
    if ltb read_buffer_size (length bytes) then runtime_error else ok (bytes, register_read w)

-- DatagramSocket::sendto and DatagramSocket::send.
unfoldable pub send : FdWrapper → Answer ℕ → Outcome FdWrapper
send w a = map_ok (λ n. register_write w) (check_system_call w a)

-- TCPSocket::accept: the new socket, which has been verified, and this one. The domain, type and
-- protocol are those of TCP, and the last three arguments what getsockopt answers.
unfoldable pub accept :
    ℕ
    → ℕ × ℕ × ℕ
    → FdWrapper
    → Answer ℕ
    → Answer ℕ
    → Answer SockOpt
    → Answer SockOpt
    → Answer SockOpt
    → Outcome (FdWrapper × FdWrapper)
unfolding adopt
accept nonblock (domain, type, protocol) w made get d t p =
    check_system_call (register_read w) made >>= λ fd.
    Descriptor.init nonblock (done fd) get >>= λ v.
    map_ok (λ u. (u, register_read w)) (adopt v domain type protocol d t p)

-- Socket::throw_if_error.
unfoldable pub throw_if_error : FdWrapper → Answer SockOpt → Outcome FdWrapper
throw_if_error w a = getsockopt w (record { len = int_size; value = 0 }) a >>= λ o.
    if not (o.len == int_size) || not (o.value == 0) then runtime_error else ok w
