-- ===== src/Server/SignalingWorker/Reachable.antt =====
-- signaling_worker.cpp: what holds of every connection in every state that a worker reaches.
use rtc_frameworker.Prelude.{
  ℕ, ◌≡◌, sym, ◌∙◌, Bool, true, false, Option, none, some, if◌then◌else◌, List, inl, inr,
  Option-cases, [], refl, arith,
}
use rtc_frameworker.Prelude.Int.{ℤ}
use rtc_frameworker.Messages.{Bytes}
use rtc_frameworker.Server.Receive.Identity.{Same}
use rtc_frameworker.Server.Reply.{respond, add_reply, write_reply}
use rtc_frameworker.Platform.{Json}
use rtc_frameworker.Base.EventLoop.{Libev, has_read, has_write}
use rtc_frameworker.Base.Socket.{Answer}
use rtc_frameworker.Server.Connection.{TcpConnection}
use rtc_frameworker.Server.Inbox.{Inbox}
use rtc_frameworker.Server.SignalingWorker.{
  SignalingWorker, open_conn, send_rtc_msg, write_reply_to, read_query, conn_io_cb,
}
use rtc_frameworker.Server.SignalingWorker.Lifecycle.{create}
use rtc_frameworker.Server.SignalingWorker.Callbacks.{
  Step, accepted, io, timer, messaged, replied, Reach, initial, after, AtReply, AtReplies,
  AtReplies-all,
}
use rtc_frameworker.Server.SignalingWorker.Invariant.{
  Everywhere, Stable, Answers, moved, new_conn-Everywhere, write_reply_to-Everywhere,
  conn_timer_cb-Everywhere, process_rtc_msg-Everywhere,
}
use rtc_frameworker.Server.SignalingWorker.Invariant.Requests.{read_query-Everywhere}

module _ {ev : Libev} where
  pub io_value :
      (a b : SignalingWorker ev) (x y : Inbox) (s t : Bytes)
      → ◌≡◌ {A = Option (SignalingWorker ev × Inbox × Bytes)} (some (a, x, s)) (some (b, y, t))
      → a ≡ b
  io_value a b x y s t h = cc

  pub io_none :
      (b : SignalingWorker ev) (y : Inbox) (t : Bytes)
      → ¬ (◌≡◌ {A = Option (SignalingWorker ev × Inbox × Bytes)} none (some (b, y, t)))
  io_none b y t h = cc

  first_value :
      (a b : SignalingWorker ev) (x y : Inbox)
      → ◌≡◌ {A = Option (SignalingWorker ev × Inbox)} (some (a, x)) (some (b, y))
      → a ≡ b
  first_value a b x y h = cc

  -- The second half of `conn_io_cb`.
  abbrev pub wrote :
      Bool
      → SignalingWorker ev × Bytes
      → SignalingWorker ev
      → Inbox
      → Option (SignalingWorker ev × Inbox × Bytes)
  wrote events (v, sent) u rtc = if events then some (v, rtc, sent) else some (u, rtc, [])

  module _ (json : Json) where
    -- The first half.
    abbrev pub first :
        Bool
        → SignalingWorker ev
        → ℤ
        → Answer Bytes
        → ℕ
        → Inbox
        → Option (SignalingWorker ev × Inbox)
    first events w fd answer now rtc =
        if events then read_query json w fd answer now rtc else some (w, rtc)

module _ {ev : Libev} (P : ℕ → TcpConnection ev → Type 0) where
  wrote-Everywhere :
      (events : Bool) (v : SignalingWorker ev × Bytes) (u w' : SignalingWorker ev)
      (rtc rtc' : Inbox) (sent : Bytes)
      → wrote events v u rtc ≡ some (w', rtc', sent)
      → Everywhere P v.0.conns
      → Everywhere P u.conns
      → Everywhere P w'.conns
  wrote-Everywhere true (v, s) u w' rtc rtc' sent h i j =
      moved P (io_value v w' rtc rtc' s sent h) i
  wrote-Everywhere false (v, s) u w' rtc rtc' sent h i j =
      moved P (io_value u w' rtc rtc' [] sent h) j

  module _ (json : Json) where
    pub first-Everywhere :
        (events : Bool) (w u : SignalingWorker ev) (fd : ℤ) (answer : Answer Bytes) (now : ℕ)
        (rtc r : Inbox)
        → first json events w fd answer now rtc ≡ some (u, r)
        → ((j : ℕ) (c c' : TcpConnection ev) → Same c' c → P j c → P j c')
        → Everywhere P w.conns
        → Everywhere P u.conns
    first-Everywhere true w u fd answer now rtc r h received inv =
        read_query-Everywhere P json w u fd answer now rtc r h received inv
    first-Everywhere false w u fd answer now rtc r h received inv =
        moved P (first_value w u rtc r h) inv

    pub conn_io_cb-Everywhere :
        (w w' : SignalingWorker ev) (fd : ℤ) (events : ℕ) (answer : Answer Bytes)
        (answers : List (Answer ℕ)) (now : ℕ) (rtc rtc' : Inbox) (sent : Bytes)
        → conn_io_cb json w fd events answer answers now rtc ≡ some (w', rtc', sent)
        → ((j : ℕ) (c : TcpConnection ev) (answers : List (Answer ℕ)) (now : ℕ)
            → P j c
            → P j (write_reply c answers now).1)
        → ((j : ℕ) (c c' : TcpConnection ev) → Same c' c → P j c → P j c')
        → Everywhere P w.conns
        → Everywhere P w'.conns
    unfolding conn_io_cb
    conn_io_cb-Everywhere w w' fd events answer answers now rtc rtc' sent h written received inv =
        elim (Option-cases (first json (has_read events) w fd answer now rtc)) [
          | inl runs_on ↦
              let e : conn_io_cb json w fd events answer answers now rtc ≡ none =
                rw (runs_on, conn_io_cb) refl in
              absurd (io_none w' rtc' sent (sym e ∙ h))
          | inr ((u, r), got) ↦
              let e : conn_io_cb json w fd events answer answers now rtc
                  ≡ wrote (has_write events) (write_reply_to u fd answers now) u r =
                rw (got, conn_io_cb) refl in
              let kept =
                first-Everywhere (has_read events) w u fd answer now rtc r got received inv in
              wrote-Everywhere (has_write events) (write_reply_to u fd answers now) u w' r rtc' sent
                (sym e ∙ h) (write_reply_to-Everywhere P u fd answers now written kept) kept
        ]

    Step-Everywhere :
        (w w' : SignalingWorker ev) (st : Step json w w')
        → AtReply json (Answers P json) st
        → Stable P
        → Everywhere P w.conns
        → Everywhere P w'.conns
    unfolding send_rtc_msg
    Step-Everywhere _ _ (accepted w fd addr now peer h) a laws inv =
        new_conn-Everywhere P w fd addr now peer h laws inv
    Step-Everywhere _ _ (io w w' fd events answer answers now rtc rtc' sent h) a laws inv =
        conn_io_cb-Everywhere w w' fd events answer answers now rtc rtc' sent h laws.written
          laws.received inv
    Step-Everywhere _ _ (timer w j conn now h) a laws inv =
        conn_timer_cb-Everywhere P w conn now inv
    Step-Everywhere _ _ (messaged w msg) a laws inv = inv
    Step-Everywhere _ _ (replied w block) a laws inv =
        process_rtc_msg-Everywhere P json w block a inv

    -- A property of connections that is stable, and that each reply on the way keeps, holds of
    -- every connection of the table in every state that a new worker reaches.
    pub Reach-Everywhere :
        (worker_id : ℕ) (timeout : ℤ) (w : SignalingWorker ev)
        (r : Reach json (create worker_id timeout) w)
        → AtReplies json (Answers P json) r
        → Stable P
        → Everywhere P w.conns
    unfolding create
    Reach-Everywhere worker_id timeout _ initial a laws = λ j c h. cc h
    Reach-Everywhere worker_id timeout _ (after v w r s) a laws =
        Step-Everywhere v w s a.1 laws (Reach-Everywhere worker_id timeout v r a.0 laws)

module _ {ev : Libev} where
  -- Every connection of a table stands at the index of its descriptor.
  abbrev pub Indexed : List (Option (TcpConnection ev)) → Type 0
  Indexed = Everywhere (λ j (c : TcpConnection ev). c.fd ≡ j)

  Indexed-stable : Stable (λ j (c : TcpConnection ev). c.fd ≡ j)
  unfolding open_conn write_reply
  Indexed-stable = record {
    opened = λ fd addr now peer h. refl;
    written = λ j c answers now h. ground arith;
    received = λ j c c' same h. same.fd ∙ h;
  }

  module _ (json : Json) where
    Indexed-Answers :
        (w : SignalingWorker ev) (block : Option Bytes)
        → Answers (λ j (c : TcpConnection ev). c.fd ≡ j) json w block
    unfolding respond add_reply
    Indexed-Answers w none msg msgs fd c q f a t h = h
    Indexed-Answers w (some b) msg msgs fd c q f a t h = h

    -- Whatever callbacks a new worker has run, each connection of its table stands at the index of
    -- its descriptor: a lookup by descriptor finds the connection of that descriptor or none.
    pub Reach-Indexed :
        (worker_id : ℕ) (timeout : ℤ) (w : SignalingWorker ev)
        → Reach json (create worker_id timeout) w
        → Indexed w.conns
    Reach-Indexed worker_id timeout w r =
        Reach-Everywhere (λ j (c : TcpConnection ev). c.fd ≡ j) json worker_id timeout w r
          (AtReplies-all json _ Indexed-Answers r) Indexed-stable
