-- ===== src/Server/SignalingWorker/Table.antt =====
-- signaling_worker.cpp: the table `conns_`, indexed by descriptor.
use rtc_frameworker.Prelude.{
  ℕ, zero, suc, ◌+◌, ◌-◌, ◌*◌, ◌^◌, ◌≤◌, ◌<◌, ◌≡◌, ◌≢◌, refl, ap, ◌∙◌, inl, inr, leb, true, List,
  [], ◌∷◌, ◌++◌, Option, none, some, arith, length, set, replicate, length-append, length-replicate,
  Bool-cases, if◌then◌else◌, leb→le, ◌%◌, le→leb,
}
use rtc_frameworker.Prelude.Int.{pos}
use rtc_frameworker.Base.EventLoop.{Libev, union, creat_io_event, start_io_event}
use rtc_frameworker.Base.EventLoop.Interest.{interest, interest-start_io_event}
use rtc_frameworker.Server.Reply.Watching.{Watching}
use rtc_frameworker.Base.Socket.{Answer, Address}
use rtc_frameworker.Server.Connection.{TcpConnection, conn_io}
use rtc_frameworker.Server.SignalingWorker.{
  SignalingWorker, conn_at, resize, open_conn, new_conn, close_conn, is_timed_out, process_timeout,
}

module _ {ev : Libev} where
  pub conn_at-set_self :
      (conns : List (Option (TcpConnection ev))) (fd : ℕ) (c : Option (TcpConnection ev))
      → fd < length conns
      → conn_at (set conns fd c) fd ≡ c
  conn_at-set_self [] fd c h = elim h [ ]
  conn_at-set_self (x ∷ xs) zero c h = refl
  conn_at-set_self (x ∷ xs) (suc fd) c h = conn_at-set_self xs fd c (omega arith)

  pub conn_at-set_ne :
      (conns : List (Option (TcpConnection ev))) (fd j : ℕ) (c : Option (TcpConnection ev))
      → fd ≢ j
      → conn_at (set conns fd c) j ≡ conn_at conns j
  conn_at-set_ne [] fd j c h = refl
  conn_at-set_ne (x ∷ xs) zero zero c h = absurd (h refl)
  conn_at-set_ne (x ∷ xs) zero (suc j) c h = refl
  conn_at-set_ne (x ∷ xs) (suc fd) zero c h = refl
  conn_at-set_ne (x ∷ xs) (suc fd) (suc j) c h = conn_at-set_ne xs fd j c (λ e. h (ap suc e))

  pub conn_at-lt :
      (conns : List (Option (TcpConnection ev))) (fd : ℕ) (c : TcpConnection ev)
      → conn_at conns fd ≡ some c
      → fd < length conns
  conn_at-lt [] fd c h = cc
  conn_at-lt (x ∷ xs) zero c h = omega arith
  conn_at-lt (x ∷ xs) (suc fd) c h = omega (arith, conn_at-lt xs fd c h)

  conn_at-replicate :
      (n j : ℕ) → conn_at (replicate {A = Option (TcpConnection ev)} n none) j ≡ none
  conn_at-replicate zero j = refl
  conn_at-replicate (suc n) zero = refl
  conn_at-replicate (suc n) (suc j) = conn_at-replicate n j

  conn_at-append_none :
      (conns : List (Option (TcpConnection ev))) (n j : ℕ)
      → conn_at (conns ++ replicate n none) j ≡ conn_at conns j
  conn_at-append_none [] n j = conn_at-replicate n j
  conn_at-append_none (x ∷ xs) n zero = refl
  conn_at-append_none (x ∷ xs) n (suc j) = conn_at-append_none xs n j

  -- Growing the table keeps every entry, and adds empty ones.
  pub conn_at-resize :
      (conns : List (Option (TcpConnection ev))) (n j : ℕ)
      → conn_at (resize conns n) j ≡ conn_at conns j
  conn_at-resize conns n j = conn_at-append_none conns (n - length conns) j

  pub length-resize :
      (conns : List (Option (TcpConnection ev))) (n : ℕ)
      → length conns ≤ n
      → length (resize conns n) ≡ n
  length-resize conns n h = omega (
    arith,
    length-append conns (replicate (n - length conns) none),
    length-replicate {A = Option (TcpConnection ev)} (n - length conns) none,
  )

  abbrev pub grown : List (Option (TcpConnection ev)) → ℕ → List (Option (TcpConnection ev))
  grown conns fd = if leb (length conns) fd then resize conns (fd * 2) else conns

  pub conn_at-grown :
      (conns : List (Option (TcpConnection ev))) (fd j : ℕ)
      → conn_at (grown conns fd) j ≡ conn_at conns j
  conn_at-grown conns fd j = elim (Bool-cases (leb (length conns) fd)) [
    | inl e ↦ rw (e) (conn_at-resize conns (fd * 2) j)
    | inr e ↦ rw (e)
  ]

  pub lt-length-grown :
      (conns : List (Option (TcpConnection ev))) (fd : ℕ) → 0 < fd → fd < length (grown conns fd)
  lt-length-grown conns fd h = elim (Bool-cases (leb (length conns) fd)) [
    | inl e ↦ rw (e) (omega (arith, length-resize conns (fd * 2) (omega (arith, leb→le _ _ e))))
    | inr e ↦ rw (e) (ground arith)
  ]

  -- `new_conn` puts the new connection at the index of its descriptor, which is not 0, and leaves
  -- every other entry of the table as it was, also when the table has to grow.
  pub new_conn_table :
      (w : SignalingWorker ev) (fd addr now : ℕ) (peer : Answer Address) (j : ℕ)
      → 0 < fd
      → fd ≢ j
      → (conn_at (new_conn w (pos fd) addr now peer).conns fd ≡ some (open_conn addr fd now peer))
        × (conn_at (new_conn w (pos fd) addr now peer).conns j ≡ conn_at w.conns j)
  unfolding new_conn
  new_conn_table w fd addr now peer j h ne = (
    conn_at-set_self (grown w.conns fd) fd _ (lt-length-grown w.conns fd h),
    conn_at-set_ne (grown w.conns fd) fd j _ ne ∙ conn_at-grown w.conns fd j,
  )

  -- Descriptor 0 does not grow the empty table (`resize(0)`), so that the write of its entry is out
  -- of the vector's bounds: the connection is not in the table.
  pub new_conn_zero :
      (w : SignalingWorker ev) (addr now : ℕ) (peer : Answer Address)
      → w.conns ≡ []
      → (new_conn w (pos 0) addr now peer).conns ≡ []
  unfolding new_conn
  new_conn_zero w addr now peer e = rw e

  -- A connection whose timer fires is closed exactly if the timeout has passed since its last
  -- interaction, for a clock that did not go back and a timeout that is not negative; else the
  -- worker is unchanged.
  pub process_timeout_lem :
      (w : SignalingWorker ev) (conn : TcpConnection ev) (now t : ℕ)
      → w.connection_timeout ≡ pos t
      → conn.last_interaction_time ≤ now
      → now < 2 ^ 64
      → process_timeout w conn now
        ≡ (if leb t (now - conn.last_interaction_time) then (close_conn w conn).0 else w)
  unfolding process_timeout is_timed_out
  process_timeout_lem w conn now t e h l =
      let passed : (now + 2 ^ 64 - conn.last_interaction_time) % 2 ^ 64
          ≡ now - conn.last_interaction_time =
        omega arith in
      rw (e, passed) refl

  -- With a clock that went back behind the last interaction, the difference wraps and the
  -- connection is closed at once, for a last interaction before 2^63 and a timeout from 0 below
  -- 2^31.
  pub process_timeout_back :
      (w : SignalingWorker ev) (conn : TcpConnection ev) (now t : ℕ)
      → w.connection_timeout ≡ pos t
      → now < conn.last_interaction_time
      → conn.last_interaction_time < 2 ^ 63
      → t < 2 ^ 31
      → process_timeout w conn now ≡ (close_conn w conn).0
  unfolding process_timeout is_timed_out
  process_timeout_back w conn now t e h l s =
      let late : leb t ((now + 2 ^ 64 - conn.last_interaction_time) % 2 ^ 64) ≡ true =
        le→leb _ _ (omega arith) in
      rw (e, late) refl

  -- The watcher of a new connection waits for what it should: it has no replies, and waits for
  -- READ alone.
  pub open_conn-Watching :
      (addr fd now : ℕ) (peer : Answer Address) → Watching (open_conn {ev = ev} addr fd now peer)
  unfolding open_conn union creat_io_event interest
  open_conn-Watching addr fd now peer =
      let w = creat_io_event ev conn_io in
      let (i, cb) = interest-start_io_event ev w (pos fd) 1 (omega arith) in
      let none_yet : interest ev w ≡ 0 = rw (ev.init_inactive, interest) refl in
      (start_io_event ev w (pos fd) 1, refl, i ∙ ap (λ n. union n 1) none_yet)
