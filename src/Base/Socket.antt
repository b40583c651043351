-- ===== src/Base/Socket.antt =====
-- xrtcserver/rtcserver/src/base/socket.hpp and socket.cpp. What the kernel answers to a system call
-- is an argument of the function that makes the call.
pub mod Results
use rtc_frameworker.Prelude.{
  ℕ, zero, suc, ◌+◌, ◌==◌, Bool, true, false, not, ◌&&◌, List, [], ◌∷◌, Option, none, some, length,
  if◌then◌else◌,
}
use rtc_frameworker.Prelude.Int.{ℤ, pos, negsuc, ◌==ℤ◌}
use rtc_frameworker.Messages.{Bytes, Ret, done, failed}

pub data Errno : Type 0 where
  eagain eintr other : Errno

-- A system call that returns a value, or -1 with an error number.
pub data Answer (A : Type 0) : Type 0 where
  value : A → Answer A
  error : Errno → Answer A

pub record Address : Type 0 where
  pub ip : Bytes
  pub port : ℕ

abbrev pub minus_one : ℤ
minus_one = negsuc 0

-- The answers to the calls of `create_tcp_server`, in order: socket, setsockopt, inet_aton (0 is a
-- malformed address), bind, listen.
pub record ServerCalls : Type 0 where
  pub socket : Answer ℕ
  pub setsockopt : Answer ℕ
  pub inet_aton : Bool
  pub bind : Answer ℕ
  pub listen : Answer ℕ

abbrev is_error : {A : Type 0} → Answer A → Bool
is_error (value a) = false
is_error (error e) = true

abbrev is_empty : Bytes → Bool
is_empty [] = true
is_empty (b ∷ bs) = false

-- The part of `create_tcp_server` behind a descriptor: its result, and the descriptor if the
-- function leaves it open.
unfoldable pub configure_server : ℕ → Bytes → ServerCalls → ℤ × Option ℕ
configure_server fd host c =
    if is_error c.setsockopt
    then (minus_one, some fd)
    else if not (is_empty host) && not c.inet_aton
    then (minus_one, none)
    else if is_error c.bind
    then (minus_one, none)
    else if is_error c.listen
    then (minus_one, none)
    else (pos fd, some fd)

unfoldable pub create_tcp_server : Bytes → ServerCalls → ℤ × Option ℕ
unfolding configure_server
create_tcp_server host c = elim c.socket [
  | error e ↦ (minus_one, none)
  | value fd ↦ configure_server fd host c
]

-- The `while (1)` over the answers of accept(2): its result and the answers that are left. An
-- iteration that does not return ends at `break`, also after EINTR.
unfoldable pub generic_accept : List (Answer ℕ) → ℤ × List (Answer ℕ)
generic_accept [] = (minus_one, [])
generic_accept (value cfd ∷ rest) = (pos cfd, rest)
generic_accept (error eintr ∷ rest) = (minus_one, rest)
generic_accept (error eagain ∷ rest) = (minus_one, rest)
generic_accept (error other ∷ rest) = (minus_one, rest)

-- The descriptor, with the client's address where one was accepted.
unfoldable pub tcp_accept : List (Answer ℕ) → Address → ℤ × Option Address
unfolding generic_accept
tcp_accept answers client = elim (generic_accept answers).0 [
  | pos cfd ↦ (pos cfd, some client)
  | negsuc n ↦ (minus_one, none)
]

-- fcntl F_GETFL, then F_SETFL with `flags | O_NONBLOCK`: the flags that the descriptor has then.
unfoldable pub sock_set_nonblock : (ℕ → ℕ) → ℕ → Answer ℕ → Answer ℕ → ℕ × Ret
sock_set_nonblock or_nonblock flags (error e) set = (flags, failed)
sock_set_nonblock or_nonblock flags (value got) (error e) = (flags, failed)
sock_set_nonblock or_nonblock flags (value got) (value r) = (or_nonblock got, done)

unfoldable pub sock_set_nodelay : Answer ℕ → Ret
sock_set_nodelay (error e) = failed
sock_set_nodelay (value r) = done

-- The references `host` and `port` after the call.
unfoldable pub sock_peer_to_str : Answer Address → Bytes → ℕ → Bytes × ℕ × Ret
sock_peer_to_str (error e) host port =
    (if is_empty host then host else b'?' ∷ [], if port == 0 then port else 0, failed)
sock_peer_to_str (value a) host port = (a.ip, a.port, done)

-- The returned int, and the bytes that were put into the buffer.
unfoldable pub sock_read_data : Answer Bytes → ℤ × Bytes
sock_read_data (error eagain) = (pos 0, [])
sock_read_data (error eintr) = (minus_one, [])
sock_read_data (error other) = (minus_one, [])
sock_read_data (value []) = (minus_one, [])
sock_read_data (value (b ∷ bs)) = (pos (length (b ∷ bs)), b ∷ bs)

unfoldable pub sock_write_data : Answer ℕ → ℤ
sock_write_data (error eagain) = pos 0
sock_write_data (error eintr) = minus_one
sock_write_data (error other) = minus_one
sock_write_data (value n) = pos n
