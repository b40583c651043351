-- ===== src/Base/Socket/Results.antt =====
-- socket.cpp: what the callers may rely on.
use rtc_frameworker.Prelude.{ℕ, ◌≡◌, refl, ◌⊎◌, List, [], ◌∷◌, none, some, arith, length, inl, inr}
use rtc_frameworker.Prelude.Int.{pos}
use rtc_frameworker.Messages.{Bytes}
use rtc_frameworker.Base.Socket.{
  Errno, eagain, eintr, other, Answer, value, error, ServerCalls, minus_one, configure_server,
  create_tcp_server, generic_accept, sock_read_data,
}

pub Answer-cases :
    {A : Type 0} (a : Answer A) → ((x : A) × (a ≡ value x)) ⊎ ((e : Errno) × (a ≡ error e))
Answer-cases (value x) = inl (x, refl)
Answer-cases (error e) = inr (e, refl)

configured :
    (fd : ℕ) (host : Bytes) (c : ServerCalls) (r : ℕ)
    → c.setsockopt ≡ value r
    → (configure_server fd host c ≡ (pos fd, some fd))
      ⊎ (configure_server fd host c ≡ (minus_one, none))
unfolding configure_server
configured fd host c r e = ground arith

-- Whatever the calls answer, `create_tcp_server` returns either the descriptor of a socket that it
-- leaves open, or -1; and after -1 the socket was closed or never made, except where setsockopt
-- failed: then it stays open.
pub create_tcp_server_cases :
    (host : Bytes) (c : ServerCalls)
    → ((fd r : ℕ) × (create_tcp_server host c ≡ (pos fd, some fd))
        × (c.socket ≡ value fd)
        × (c.setsockopt ≡ value r))
      ⊎ ((e : Errno) × (create_tcp_server host c ≡ (minus_one, none)) × (c.socket ≡ error e))
      ⊎ ((r : ℕ) × (create_tcp_server host c ≡ (minus_one, none)) × (c.setsockopt ≡ value r))
      ⊎ ((fd : ℕ) × (e : Errno) × (create_tcp_server host c ≡ (minus_one, some fd))
          × (c.socket ≡ value fd)
          × (c.setsockopt ≡ error e))
unfolding create_tcp_server
create_tcp_server_cases host c = elim (Answer-cases c.socket) [
  | inr (e, p) ↦ inr (inl (e, rw (p, create_tcp_server) refl, p))
  | inl (fd, p) ↦ elim (Answer-cases c.setsockopt) [
    | inr (e, q) ↦ inr (inr (inr (fd, e, rw (p, q, create_tcp_server) refl, p, q)))
    | inl (r, q) ↦ elim (configured fd host c r q) [
      | inl h ↦ inl (fd, r, rw (p, create_tcp_server) h, p, q)
      | inr h ↦ inr (inr (inl (r, rw (p, create_tcp_server) h, q)))
    ]
  ]
]

-- accept(2) is called once: an interrupted call is reported as a failure and not made again.
pub generic_accept_once :
    (a : Answer ℕ) (rest : List (Answer ℕ)) → (generic_accept (a ∷ rest)).1 ≡ rest
unfolding generic_accept
generic_accept_once (value n) rest = refl
generic_accept_once (error eintr) rest = refl
generic_accept_once (error eagain) rest = refl
generic_accept_once (error other) rest = refl

-- A read returns the number of bytes put into the buffer, or -1 for an error and for the end of
-- the stream, and 0 only where there is nothing to read yet.
pub read_cases :
    (a : Answer Bytes)
    → ((b : ℕ) × (bs : Bytes) × (a ≡ value (b ∷ bs))
        × (sock_read_data a ≡ (pos (length (b ∷ bs)), b ∷ bs)))
      ⊎ ((a ≡ error eagain) × (sock_read_data a ≡ (pos 0, [])))
      ⊎ (sock_read_data a ≡ (minus_one, []))
unfolding sock_read_data
read_cases (value []) = ground arith
read_cases (value (b ∷ bs)) = inl (b, bs, refl, refl)
read_cases (error eintr) = ground arith
read_cases (error eagain) = ground arith
read_cases (error other) = ground arith
