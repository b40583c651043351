-- ===== src/Server/SignalingWorker/Descriptors/Closing.antt =====
-- signaling_worker.cpp: what each callback does to the descriptors that were closed and to those of
-- the table.
use rtc_frameworker.Prelude.{
  ℕ, zero, suc, ◌+◌, ◌≡◌, ◌≢◌, refl, sym, ap, ◌∙◌, List, [], ◌∷◌, Option, none, some, arith, inl,
  inr, if◌then◌else◌, ◌==◌, ==_iff, Bool, true, false, Bool-cases, Option-cases, List-cases, set,
  subst,
}
use rtc_frameworker.Prelude.Int.{ℤ, pos, negsuc, ◌==ℤ◌}
use rtc_frameworker.Messages.{Bytes, RtcMsg, cmdno_push}
use rtc_frameworker.Platform.{Json}
use rtc_frameworker.Base.EventLoop.{Libev, has_read, has_write}
use rtc_frameworker.Base.Socket.{Answer}
use rtc_frameworker.Server.Connection.{TcpConnection}
use rtc_frameworker.Server.Inbox.{Inbox}
use rtc_frameworker.Server.Receive.{read_data}
use rtc_frameworker.Server.Receive.Identity.{read_data-Same}
use rtc_frameworker.Server.SignalingWorker.{
  SignalingWorker, conn_at, close_conn, conn_timer_cb, process_timeout, is_timed_out,
  write_reply_to, read_query, conn_io_cb, response_server_offer, process_rtc_msg,
}
use rtc_frameworker.Server.SignalingWorker.Table.{conn_at-lt, conn_at-set_self, conn_at-set_ne}
use rtc_frameworker.Server.SignalingWorker.Replies.{
  process_rtc_msg-nil, process_rtc_msg-cons, response_server_offer_cases,
}
use rtc_frameworker.Server.SignalingWorker.Reachable.{Indexed, first, wrote}

-- How often a descriptor was closed.
unfoldable pub closings : List ℤ → ℕ → ℕ
closings [] j = 0
closings (fd ∷ fds) j = if fd ==ℤ pos j then suc (closings fds j) else closings fds j

-- 1 for a connection that is there.
abbrev pub present : {A : Type 0} → Option A → ℕ
present none = 0
present (some a) = 1

module _ {ev : Libev} where
  -- How often a descriptor was closed, and once more if there is a connection for it.
  abbrev pub total : SignalingWorker ev → ℕ → ℕ
  total w j = closings w.closed j + present (conn_at w.conns j)

  abbrev pub Balances : SignalingWorker ev → SignalingWorker ev → Type 0
  Balances w w' = (j : ℕ) → total w' j ≡ total w j

  replaced-present :
      (conns : List (Option (TcpConnection ev))) (fd : ℕ) (c c' : TcpConnection ev) (j : ℕ)
      → conn_at conns fd ≡ some c
      → present (conn_at (set conns fd (some c')) j) ≡ present (conn_at conns j)
  replaced-present conns fd c c' j there = elim (Bool-cases (fd == j)) [
    | inl same ↦
        let here = (==_iff fd j).0 same in
        subst (λ k. present (conn_at (set conns fd (some c')) k) ≡ present (conn_at conns k)) here
          (ap present (conn_at-set_self conns fd (some c') (conn_at-lt conns fd c there))
            ∙ ap present (sym there))
    | inr other ↦
        let apart : fd ≢ j = λ k. cc ((==_iff fd j).1 k) in
        ap present (conn_at-set_ne conns fd j (some c') apart)
  ]

  replaced :
      (w : SignalingWorker ev) (fd : ℕ) (c c' : TcpConnection ev)
      → conn_at w.conns fd ≡ some c
      → Balances w (record w { conns = set w.conns fd (some c') })
  replaced w fd c c' there j =
      ap (λ n. closings w.closed j + n) (replaced-present w.conns fd c c' j there)

  closing-present :
      (closed : List ℤ) (conns : List (Option (TcpConnection ev))) (fd j : ℕ) (c : TcpConnection ev)
      → conn_at conns fd ≡ some c
      → closings (pos fd ∷ closed) j + present (conn_at (set conns fd none) j)
        ≡ closings closed j + present (conn_at conns j)
  unfolding closings
  closing-present closed conns fd j c there = elim (Bool-cases (fd == j)) [
    | inl same ↦
        let here = (==_iff fd j).0 same in
        let gone = conn_at-set_self conns fd none (conn_at-lt conns fd c there) in
        let at_j : present (conn_at (set conns fd none) j) ≡ 0 =
          ap (λ k. present (conn_at (set conns fd none) k)) (sym here) ∙ ap present gone in
        let was_j : present (conn_at conns j) ≡ 1 =
          ap (λ k. present (conn_at conns k)) (sym here) ∙ ap present there in
        rw (same, at_j, was_j) (omega arith)
    | inr other ↦
        let apart : fd ≢ j = λ k. cc ((==_iff fd j).1 k) in
        let kept : present (conn_at (set conns fd none) j) ≡ present (conn_at conns j) =
          ap present (conn_at-set_ne conns fd j none apart) in
        rw other (ap (λ n. closings closed j + n) kept)
  ]

  closed-Balances :
      (w : SignalingWorker ev) (fd : ℕ) (c c' : TcpConnection ev)
      → conn_at w.conns fd ≡ some c
      → c'.fd ≡ fd
      → Balances w (close_conn w c').0
  unfolding close_conn
  closed-Balances w fd c c' there at_fd j =
      subst
        (λ k. closings (pos k ∷ w.closed) j + present (conn_at (set w.conns k none) j) ≡ total w j)
        (sym at_fd) (closing-present w.closed w.conns fd j c there)

  pub conn_timer_cb-Balances :
      (w : SignalingWorker ev) (fd : ℕ) (c : TcpConnection ev) (now : ℕ)
      → conn_at w.conns fd ≡ some c
      → c.fd ≡ fd
      → Balances w (conn_timer_cb w c now)
  unfolding conn_timer_cb process_timeout
  conn_timer_cb-Balances w fd c now there at_fd = elim (Bool-cases (is_timed_out w c now)) [
    | inl e ↦ rw e (closed-Balances w fd c c there at_fd)
    | inr e ↦ rw e (λ j. refl)
  ]

  write_reply_to-Balances :
      (w : SignalingWorker ev) (fd : ℤ) (answers : List (Answer ℕ)) (now : ℕ)
      → Balances w (write_reply_to w fd answers now).0
  unfolding write_reply_to
  write_reply_to-Balances w (negsuc n) answers now = λ j. refl
  write_reply_to-Balances w (pos zero) answers now = λ j. refl
  write_reply_to-Balances w (pos (suc n)) answers now =
      elim (Option-cases (conn_at w.conns (suc n))) [
        | inl free ↦ rw (free, write_reply_to) (λ j. refl)
        | inr (c, there) ↦ rw (there, write_reply_to) (replaced w (suc n) c _ there)
      ]

  module _ (json : Json) where
    abbrev AfterRead : SignalingWorker ev → Option (SignalingWorker ev × Inbox) → Type 0
    AfterRead w none = Unit
    AfterRead w (some (w', rtc)) = Balances w w'

    abbrev pub AfterEvent :
        SignalingWorker ev → Option (SignalingWorker ev × Inbox × Bytes) → Type 0
    AfterEvent w none = Unit
    AfterEvent w (some (w', rtc, sent)) = Balances w w'

    read_query-Balances :
        (w : SignalingWorker ev) (fd : ℤ) (answer : Answer Bytes) (now : ℕ) (rtc : Inbox)
        → Indexed w.conns
        → AfterRead w (read_query json w fd answer now rtc)
    unfolding read_query
    read_query-Balances w (negsuc n) answer now rtc indexed = λ j. refl
    read_query-Balances w (pos fd) answer now rtc indexed =
        elim (Option-cases (conn_at w.conns fd)) [
          | inl free ↦ rw (free, read_query) (λ j. refl)
          | inr (c, taken) ↦ elim (Option-cases (read_data json w.worker_id c answer now rtc)) [
            | inl runs_on ↦ rw (taken, runs_on, read_query) tt
            | inr ((c', r, closing), got) ↦
                let same = read_data-Same json w.worker_id c c' answer now rtc r closing got in
                elim (Bool-cases closing) [
                  | inl shut ↦
                      rw (taken, got, shut, read_query)
                        (closed-Balances w fd c c' taken (same.fd ∙ indexed fd c taken))
                  | inr open_still ↦
                      rw (taken, got, open_still, read_query) (replaced w fd c c' taken)
                ]
          ]
        ]

    first-Balances :
        (events : Bool) (w : SignalingWorker ev) (fd : ℤ) (answer : Answer Bytes) (now : ℕ)
        (rtc : Inbox)
        → Indexed w.conns
        → AfterRead w (first json events w fd answer now rtc)
    first-Balances true w fd answer now rtc indexed =
        read_query-Balances w fd answer now rtc indexed
    first-Balances false w fd answer now rtc indexed = λ j. refl

    wrote-Balances :
        (events : Bool) (w u : SignalingWorker ev) (fd : ℤ) (answers : List (Answer ℕ)) (now : ℕ)
        (rtc : Inbox)
        → Balances w u
        → AfterEvent w (wrote events (write_reply_to u fd answers now) u rtc)
    wrote-Balances true w u fd answers now rtc s =
        λ j. write_reply_to-Balances u fd answers now j ∙ s j
    wrote-Balances false w u fd answers now rtc s = s

    pub conn_io_cb-Balances :
        (w : SignalingWorker ev) (fd : ℤ) (events : ℕ) (answer : Answer Bytes)
        (answers : List (Answer ℕ)) (now : ℕ) (rtc : Inbox)
        → Indexed w.conns
        → AfterEvent w (conn_io_cb json w fd events answer answers now rtc)
    unfolding conn_io_cb
    conn_io_cb-Balances w fd events answer answers now rtc indexed =
        elim (Option-cases (first json (has_read events) w fd answer now rtc)) [
          | inl runs_on ↦ rw (runs_on, conn_io_cb) tt
          | inr ((u, r), got) ↦
              let s : Balances w u =
                subst (AfterRead w) got
                  (first-Balances (has_read events) w fd answer now rtc indexed) in
              rw (got, conn_io_cb) (wrote-Balances (has_write events) w u fd answers now r s)
        ]

    offer-Balances :
        (w : SignalingWorker ev) (msg : RtcMsg) (block : Option Bytes)
        → Balances w (response_server_offer json w msg block)
    offer-Balances w msg block = elim (response_server_offer_cases json w msg block) [
      | inl e ↦ subst (Balances w) (sym e) (λ j. refl)
      | inr (fd, c, _, _, there, e) ↦ subst (Balances w) (sym e) (replaced w fd c _ there)
    ]

    pub process_rtc_msg-Balances :
        (w : SignalingWorker ev) (block : Option Bytes) → Balances w (process_rtc_msg json w block)
    process_rtc_msg-Balances w block = elim (List-cases w.q_msg) [
      | inl e ↦ subst (Balances w) (sym (process_rtc_msg-nil json w block e)) (λ j. refl)
      | inr (msg, msgs, e) ↦
          let r = process_rtc_msg-cons json w msg msgs block e in
          elim (Bool-cases (msg.cmdno ==ℤ pos cmdno_push)) [
            | inl push ↦
                subst (Balances w) (sym r)
                  (rw push (offer-Balances (record w { q_msg = msgs }) msg block))
            | inr other ↦ subst (Balances w) (sym r) (rw other (λ j. refl))
          ]
    ]
