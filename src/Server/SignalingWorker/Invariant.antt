-- ===== src/Server/SignalingWorker/Invariant.antt =====
-- signaling_worker.cpp: predicates on every connection of the table, and the callbacks.
pub mod Requests
use rtc_frameworker.Prelude.{
  ℕ, zero, suc, ◌<◌, ◌≡◌, ◌≢◌, refl, sym, ap, ◌∙◌, ◌==◌, ==_iff, Option, none, some, List, [],
  Bool-cases, inl, inr, length, set, ◌∷◌, Option-cases, subst, List-cases,
}
use rtc_frameworker.Prelude.Int.{ℤ, pos, negsuc, ◌==ℤ◌}
use rtc_frameworker.Messages.{Bytes, RtcMsg, cmdno_push}
use rtc_frameworker.Platform.{Json}
use rtc_frameworker.Base.EventLoop.{Libev}
use rtc_frameworker.Base.Socket.{Answer, Address}
use rtc_frameworker.Server.Connection.{TcpConnection}
use rtc_frameworker.Server.Inbox.{Inbox, pop_msg}
use rtc_frameworker.Server.Receive.{read_data}
use rtc_frameworker.Server.Receive.Identity.{Same, read_data-Same}
use rtc_frameworker.Server.Reply.{respond, write_reply}
use rtc_frameworker.Server.SignalingWorker.{
  SignalingWorker, conn_at, open_conn, new_conn, close_conn, process_timeout, is_timed_out,
  conn_timer_cb, write_reply_to, read_query, response_server_offer, process_rtc_msg,
}
use rtc_frameworker.Server.SignalingWorker.Replies.{
  process_rtc_msg-cons, response_server_offer_cases,
}
use rtc_frameworker.Server.SignalingWorker.Table.{
  conn_at-set_self, conn_at-set_ne, conn_at-lt, grown, lt-length-grown, conn_at-grown,
}

-- What holds of a connection, which stands at an index, survives what a worker does to the
-- connection when it opens it, writes to it and reads from it.
pub record Stable {ev : Libev} (P : ℕ → TcpConnection ev → Type 0) : Type 0 where
  pub opened :
      (fd addr now : ℕ) (peer : Answer Address) → 0 < fd → P fd (open_conn addr fd now peer)
  pub written :
      (j : ℕ) (c : TcpConnection ev) (answers : List (Answer ℕ)) (now : ℕ)
      → P j c
      → P j (write_reply c answers now).1
  pub received : (j : ℕ) (c c' : TcpConnection ev) → Same c' c → P j c → P j c'

module _ {ev : Libev} (P : ℕ → TcpConnection ev → Type 0) where
  -- It holds of every connection of a table.
  abbrev pub Everywhere : List (Option (TcpConnection ev)) → Type 0
  Everywhere conns = (j : ℕ) (c : TcpConnection ev) → conn_at conns j ≡ some c → P j c

  pub moved : {a b : SignalingWorker ev} → a ≡ b → Everywhere a.conns → Everywhere b.conns
  moved e = subst (λ (v : SignalingWorker ev). Everywhere v.conns) e

  -- A table with one entry set, from its other entries.
  pub set-but :
      (conns : List (Option (TcpConnection ev))) (fd : ℕ) (c : TcpConnection ev)
      → fd < length conns
      → P fd c
      → ((j : ℕ) (d : TcpConnection ev) → fd ≢ j → conn_at conns j ≡ some d → P j d)
      → Everywhere (set conns fd (some c))
  set-but conns fd c h e others j d f = elim (Bool-cases (fd == j)) [
    | inl same ↦
        let here : fd ≡ j = (==_iff fd j).0 same in
        let there : some c ≡ some d =
          sym (conn_at-set_self conns fd (some c) h)
          ∙ ap (conn_at (set conns fd (some c))) here
          ∙ f in
        let same_conn : c ≡ d = cc there in subst (λ k. P k d) here (subst (P fd) same_conn e)
    | inr other ↦
        let apart : fd ≢ j = λ k. cc ((==_iff fd j).1 k) in
        others j d apart (sym (conn_at-set_ne conns fd j (some c) apart) ∙ f)
  ]

  pub set-Everywhere :
      (conns : List (Option (TcpConnection ev))) (fd : ℕ) (c : TcpConnection ev)
      → fd < length conns
      → P fd c
      → Everywhere conns
      → Everywhere (set conns fd (some c))
  set-Everywhere conns fd c h e inv = set-but conns fd c h e (λ j d _. inv j d)

  set-none :
      (conns : List (Option (TcpConnection ev))) (fd : ℕ) (d : TcpConnection ev)
      → ¬ (conn_at (set conns fd none) fd ≡ some d)
  set-none [] fd d h = cc
  set-none (x ∷ xs) zero d h = cc
  set-none (x ∷ xs) (suc fd) d h = set-none xs fd d h

  pub clear-Everywhere :
      (conns : List (Option (TcpConnection ev))) (fd : ℕ)
      → Everywhere conns
      → Everywhere (set conns fd none)
  clear-Everywhere conns fd inv j d f = elim (Bool-cases (fd == j)) [
    | inl same ↦
        let here : fd ≡ j = (==_iff fd j).0 same in
        absurd (set-none conns fd d (ap (conn_at (set conns fd none)) here ∙ f))
    | inr other ↦
        let apart : fd ≢ j = λ k. cc ((==_iff fd j).1 k) in
        inv j d (sym (conn_at-set_ne conns fd j none apart) ∙ f)
  ]

  pub new_conn-Everywhere :
      (w : SignalingWorker ev) (fd addr now : ℕ) (peer : Answer Address)
      → 0 < fd
      → Stable P
      → Everywhere w.conns
      → Everywhere (new_conn w (pos fd) addr now peer).conns
  unfolding new_conn
  new_conn-Everywhere w fd addr now peer h laws inv =
      set-Everywhere (grown w.conns fd) fd (open_conn addr fd now peer)
        (lt-length-grown w.conns fd h) (laws.opened fd addr now peer h)
        (λ j c f. inv j c (sym (conn_at-grown w.conns fd j) ∙ f))

  pub write_reply_to-Everywhere :
      (w : SignalingWorker ev) (fd : ℤ) (answers : List (Answer ℕ)) (now : ℕ)
      → ((j : ℕ) (c : TcpConnection ev) (answers : List (Answer ℕ)) (now : ℕ)
          → P j c
          → P j (write_reply c answers now).1)
      → Everywhere w.conns
      → Everywhere (write_reply_to w fd answers now).0.conns
  unfolding write_reply_to
  write_reply_to-Everywhere w (negsuc n) answers now kept inv = inv
  write_reply_to-Everywhere w (pos zero) answers now kept inv = inv
  write_reply_to-Everywhere w (pos (suc n)) answers now kept inv =
      elim (Option-cases (conn_at w.conns (suc n))) [
        | inl none_there ↦ rw (none_there, write_reply_to) inv
        | inr (c, there) ↦
            rw (there, write_reply_to)
              (set-Everywhere w.conns (suc n) (write_reply c answers now).1
                (conn_at-lt w.conns (suc n) c there)
                (kept (suc n) c answers now (inv (suc n) c there)) inv)
      ]

  pub close_conn-Everywhere :
      (w : SignalingWorker ev) (conn : TcpConnection ev)
      → Everywhere w.conns
      → Everywhere (close_conn w conn).0.conns
  unfolding close_conn
  close_conn-Everywhere w conn inv = clear-Everywhere w.conns conn.fd inv

  pub conn_timer_cb-Everywhere :
      (w : SignalingWorker ev) (conn : TcpConnection ev) (now : ℕ)
      → Everywhere w.conns
      → Everywhere (conn_timer_cb w conn now).conns
  unfolding conn_timer_cb process_timeout
  conn_timer_cb-Everywhere w conn now inv = elim (Bool-cases (is_timed_out w conn now)) [
    | inl e ↦ rw e (close_conn-Everywhere w conn inv)
    | inr e ↦ rw e inv
  ]

  module _ (json : Json) where
    -- It survives the reply that a message of the queue's front brings to a connection.
    abbrev pub Answers : SignalingWorker ev → Option Bytes → Type 0
    Answers w block =
        (msg : RtcMsg) (msgs : List RtcMsg) (fd : ℕ) (c : TcpConnection ev)
        → w.q_msg ≡ msg ∷ msgs
        → msg.fd ≡ pos fd
        → msg.conn ≡ some c.addr
        → conn_at w.conns fd ≡ some c
        → P fd c
        → P fd (respond json c msg block)

    offer-Everywhere :
        (w : SignalingWorker ev) (msg : RtcMsg) (msgs : List RtcMsg) (block : Option Bytes)
        → w.q_msg ≡ msg ∷ msgs
        → Answers w block
        → Everywhere w.conns
        → Everywhere (response_server_offer json (record w { q_msg = msgs }) msg block).conns
    offer-Everywhere w msg msgs block q laws inv =
        let v = record w { q_msg = msgs } in
        elim (response_server_offer_cases json v msg block) [
          | inl same ↦ subst (λ (u : SignalingWorker ev). Everywhere u.conns) (sym same) inv
          | inr (fd, c, to_fd, to_conn, taken, e) ↦
              subst (λ (u : SignalingWorker ev). Everywhere u.conns) (sym e)
                (set-Everywhere w.conns fd (respond json c msg block)
                  (conn_at-lt w.conns fd c taken)
                  (laws msg msgs fd c q to_fd to_conn taken (inv fd c taken)) inv)
        ]

    pub process_rtc_msg-Everywhere :
        (w : SignalingWorker ev) (block : Option Bytes)
        → Answers w block
        → Everywhere w.conns
        → Everywhere (process_rtc_msg json w block).conns
    unfolding process_rtc_msg pop_msg
    process_rtc_msg-Everywhere w block laws inv = elim (List-cases w.q_msg) [
      | inl e ↦ rw (e, process_rtc_msg) inv
      | inr (msg, msgs, e) ↦
          let r = process_rtc_msg-cons json w msg msgs block e in
          elim (Bool-cases (msg.cmdno ==ℤ pos cmdno_push)) [
            | inl push ↦ moved (sym r) (rw push (offer-Everywhere w msg msgs block e laws inv))
            | inr no_push ↦ moved (sym r) (rw no_push inv)
          ]
    ]
