-- ===== src/Server/SignalingWorker/Streams.antt =====
-- signaling_worker.cpp: over all callbacks of a worker, the bytes that were queued for each
-- connection of its table and the bytes that went to its socket.
use rtc_frameworker.Prelude.{
  ℕ, ◌≡◌, refl, sym, ◌∙◌, List, [], ◌++◌, none, some, subst, true, false, Bool, Option-cases, inl,
  inr,
}
use rtc_frameworker.Prelude.Int.{ℤ}
use rtc_frameworker.Messages.{Bytes}
use rtc_frameworker.Platform.{Json}
use rtc_frameworker.Base.EventLoop.{Libev, has_read, has_write}
use rtc_frameworker.Base.Socket.{Answer}
use rtc_frameworker.Server.Connection.{TcpConnection}
use rtc_frameworker.Server.Inbox.{Inbox}
use rtc_frameworker.Server.Reply.Pending.{pending}
use rtc_frameworker.Server.SignalingWorker.{
  send_rtc_msg, SignalingWorker, conn_at, write_reply_to, conn_io_cb,
}
use rtc_frameworker.Server.SignalingWorker.Lifecycle as Lifecycle
use rtc_frameworker.Server.SignalingWorker.Callbacks.{
  Step, Reach, accepted, io, timer, messaged, replied, initial, after, AtReplies,
}
use rtc_frameworker.Server.SignalingWorker.Invariant.{Everywhere, conn_timer_cb-Everywhere}
use rtc_frameworker.Server.SignalingWorker.Reachable.{first-Everywhere, first, wrote, io_none}
use rtc_frameworker.Server.SignalingWorker.Serving.{
  Serving, Fitting, Reach-Serving, received-Serving,
}
use rtc_frameworker.Server.SignalingWorker.Accounts.{
  Ledger, opened, add, Delivers, received-Delivers, add-nothing, new_conn-Delivers,
  write_reply_to-Delivers, Wrote,
}
use rtc_frameworker.Server.SignalingWorker.Owed.{front_reply, process_rtc_msg-Delivers}

module _ {ev : Libev} (json : Json) where
  -- What went to the socket of each descriptor since it was opened, behind a callback.
  pub sent_by : {w w' : SignalingWorker ev} → Step json w w' → Ledger → Ledger
  sent_by (accepted w fd addr now peer h) q = opened fd q
  sent_by (io w w' fd events answer answers now rtc rtc' sent h) q = add fd sent q
  sent_by (timer w j conn now h) q = q
  sent_by (messaged w msg) q = q
  sent_by (replied w block) q = q

  -- The replies to each descriptor since it was opened, in order.
  pub owed_by : {w w' : SignalingWorker ev} → Step json w w' → Ledger → Ledger
  owed_by (accepted w fd addr now peer h) p = opened fd p
  owed_by (io w w' fd events answer answers now rtc rtc' sent h) p = p
  owed_by (timer w j conn now h) p = p
  owed_by (messaged w msg) p = p
  owed_by (replied w block) p = λ j. p j ++ front_reply json w.q_msg block w.conns j

  pub sent : {s w : SignalingWorker ev} → Reach json s w → Ledger
  sent initial = λ j. []
  sent (after v w r st) = sent_by st (sent r)

  pub owed : {s w : SignalingWorker ev} → Reach json s w → Ledger
  owed initial = λ j. []
  owed (after v w r st) = owed_by st (owed r)

  wrote-Delivers :
      (p q : Ledger) (fd : ℤ) (events : Bool) (v : SignalingWorker ev × Bytes)
      (u w' : SignalingWorker ev) (rtc rtc' : Inbox) (bytes : Bytes)
      → wrote events v u rtc ≡ some (w', rtc', bytes)
      → Wrote p q fd v
      → Everywhere (Delivers p q) u.conns
      → Wrote p q fd (w', bytes)
  wrote-Delivers p q fd true (v, s) u w' rtc rtc' bytes h wrote kept =
      let same : (v, s) ≡ (w', bytes) = cc h in subst (Wrote p q fd) same wrote
  wrote-Delivers p q fd false (v, s) u w' rtc rtc' bytes h wrote kept =
      let same : (u, []) ≡ (w', bytes) = cc h in
      subst (Wrote p q fd) same (λ j c at. add-nothing p q fd j c (kept j c at))

  conn_io_cb-Delivers :
      (p q : Ledger) (w w' : SignalingWorker ev) (fd : ℤ) (events : ℕ) (answer : Answer Bytes)
      (answers : List (Answer ℕ)) (now : ℕ) (rtc rtc' : Inbox) (bytes : Bytes)
      → conn_io_cb json w fd events answer answers now rtc ≡ some (w', rtc', bytes)
      → Everywhere Serving w.conns
      → Everywhere (Delivers p q) w.conns
      → Wrote p q fd (w', bytes)
  unfolding conn_io_cb
  conn_io_cb-Delivers p q w w' fd events answer answers now rtc rtc' bytes h serving inv =
      elim (Option-cases (first json (has_read events) w fd answer now rtc)) [
        | inl runs_on ↦
            let e : conn_io_cb json w fd events answer answers now rtc ≡ none =
              rw (runs_on, conn_io_cb) refl in
            absurd (io_none w' rtc' bytes (sym e ∙ h))
        | inr ((u, r), got) ↦
            let e : conn_io_cb json w fd events answer answers now rtc
                ≡ wrote (has_write events) (write_reply_to u fd answers now) u r =
              rw (got, conn_io_cb) refl in
            let served =
              first-Everywhere Serving json (has_read events) w u fd answer now rtc r got
                received-Serving serving in
            let kept =
              first-Everywhere (Delivers p q) json (has_read events) w u fd answer now rtc r got
                (received-Delivers p q) inv in
            wrote-Delivers p q fd (has_write events) (write_reply_to u fd answers now) u w' r rtc'
              bytes (sym e ∙ h) (write_reply_to-Delivers p q u fd answers now served kept) kept
      ]

  Step-Delivers :
      (p q : Ledger) (w w' : SignalingWorker ev) (st : Step json w w')
      → Everywhere Serving w.conns
      → Everywhere (Delivers p q) w.conns
      → Everywhere (Delivers (owed_by st p) (sent_by st q)) w'.conns
  unfolding sent_by owed_by send_rtc_msg
  Step-Delivers p q _ _ (accepted w fd addr now peer h) serving inv =
      new_conn-Delivers p q w fd addr now peer h inv
  Step-Delivers p q _ _ (io w w' fd events answer answers now rtc rtc' bytes h) serving inv =
      conn_io_cb-Delivers p q w w' fd events answer answers now rtc rtc' bytes h serving inv
  Step-Delivers p q _ _ (timer w j conn now h) serving inv =
      conn_timer_cb-Everywhere (Delivers p q) w conn now inv
  Step-Delivers p q _ _ (messaged w msg) serving inv = inv
  Step-Delivers p q _ _ (replied w block) serving inv =
      process_rtc_msg-Delivers json p q w block serving inv

  -- In every state that a new worker reaches with replies that fit, whatever the order of its
  -- callbacks and however many clients it has: for each connection, the bytes that went to its
  -- socket since it was accepted, followed by those that it has still to send, are the replies that
  -- were queued for it since then, whole and in order. A reply counts for the connection that then
  -- stood at the message's descriptor and had the message's address, be it the one whose request
  -- the message was made of or a later one to which the allocator gave that address again.
  pub Reach-Delivers :
      (worker_id : ℕ) (timeout : ℤ) (w : SignalingWorker ev)
      (r : Reach json (Lifecycle.create worker_id timeout) w) (j : ℕ) (c : TcpConnection ev)
      → AtReplies json (Fitting json) r
      → conn_at w.conns j ≡ some c
      → sent r j ++ pending c.reply_list c.cur_resp_pos ≡ owed r j
  unfolding Lifecycle.create sent owed
  Reach-Delivers worker_id timeout w r j c fit at = sym (all r fit j c at)
    where
      all :
          {w' : SignalingWorker ev} (r' : Reach json (Lifecycle.create worker_id timeout) w')
          → AtReplies json (Fitting json) r'
          → Everywhere (Delivers (owed r') (sent r')) w'.conns
      all initial f = λ i d h. cc h
      all (after v w'' r'' st) f =
          Step-Delivers (owed r'') (sent r'') v w'' st
            (Reach-Serving json worker_id timeout v r'' f.0) (all r'' f.0)
