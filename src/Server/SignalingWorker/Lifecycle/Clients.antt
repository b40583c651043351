-- ===== src/Server/SignalingWorker/Lifecycle/Clients.antt =====
-- signaling_worker.cpp: what the callbacks of the connections do to the worker's own fields.
use rtc_frameworker.Prelude.{
  ℕ, suc, ◌≡◌, refl, sym, subst, List, Option, some, Bool-cases, List-cases, inl, inr, Option-cases,
  none, zero, Bool, ◌∙◌, true, false,
}
use rtc_frameworker.Prelude.Int.{ℤ, pos, negsuc, ◌==ℤ◌}
use rtc_frameworker.Messages.{Bytes, RtcMsg, cmdno_push}
use rtc_frameworker.Platform.{Json}
use rtc_frameworker.Base.EventLoop.{Libev, has_read, has_write}
use rtc_frameworker.Base.Socket.{Answer, Address}
use rtc_frameworker.Server.Connection.{TcpConnection}
use rtc_frameworker.Server.Inbox.{Inbox}
use rtc_frameworker.Server.Receive.{read_data}
use rtc_frameworker.Server.SignalingWorker.Reachable.{first, wrote}
use rtc_frameworker.Server.SignalingWorker.{
  SignalingWorker, new_conn, process_rtc_msg, response_server_offer, conn_at, close_conn,
  conn_timer_cb, read_query, write_reply_to, is_timed_out, process_timeout, conn_io_cb,
}
use rtc_frameworker.Server.SignalingWorker.Replies.{
  process_rtc_msg-nil, process_rtc_msg-cons, response_server_offer_cases,
}

-- What the callbacks of the connections leave as it was.
pub record Same {ev : Libev} (w w' : SignalingWorker ev) : Type 0 where
  pub thread : w'.thread ≡ w.thread
  pub q_conn : w'.q_conn ≡ w.q_conn
  pub notify_pipe : w'.notify_pipe ≡ w.notify_pipe
  pub looping : w'.looping ≡ w.looping

module _ {ev : Libev} where
  pub same : (w : SignalingWorker ev) → Same w w
  same w = record { thread = refl; q_conn = refl; notify_pipe = refl; looping = refl }

  Same-trans : {a b c : SignalingWorker ev} → Same a b → Same b c → Same a c
  Same-trans p q = record {
    thread = q.thread ∙ p.thread;
    q_conn = q.q_conn ∙ p.q_conn;
    notify_pipe = q.notify_pipe ∙ p.notify_pipe;
    looping = q.looping ∙ p.looping;
  }

  pub new_conn-Same :
      (w : SignalingWorker ev) (fd : ℤ) (addr now : ℕ) (peer : Answer Address)
      → Same w (new_conn w fd addr now peer)
  unfolding new_conn
  new_conn-Same w (negsuc n) addr now peer = same w
  new_conn-Same w (pos fd) addr now peer = record {
    thread = refl;
    q_conn = refl;
    notify_pipe = refl;
    looping = refl;
  }

  pub conn_timer_cb-Same :
      (w : SignalingWorker ev) (conn : TcpConnection ev) (now : ℕ)
      → Same w (conn_timer_cb w conn now)
  unfolding conn_timer_cb process_timeout close_conn
  conn_timer_cb-Same w conn now = elim (Bool-cases (is_timed_out w conn now)) [
    | inl e ↦ rw e (record { thread = refl; q_conn = refl; notify_pipe = refl; looping = refl })
    | inr e ↦ rw e (same w)
  ]

  write_reply_to-Same :
      (w : SignalingWorker ev) (fd : ℤ) (answers : List (Answer ℕ)) (now : ℕ)
      → Same w (write_reply_to w fd answers now).0
  unfolding write_reply_to
  write_reply_to-Same w (negsuc n) answers now = same w
  write_reply_to-Same w (pos zero) answers now = same w
  write_reply_to-Same w (pos (suc n)) answers now = elim (Option-cases (conn_at w.conns (suc n))) [
    | inl free ↦ rw (free, write_reply_to) (same w)
    | inr (c, taken) ↦
        rw (taken, write_reply_to)
          (record { thread = refl; q_conn = refl; notify_pipe = refl; looping = refl })
  ]

  module _ (json : Json) where
    offer-Same :
        (w : SignalingWorker ev) (msg : RtcMsg) (block : Option Bytes)
        → Same w (response_server_offer json w msg block)
    offer-Same w msg block = elim (response_server_offer_cases json w msg block) [
      | inl e ↦ subst (Same w) (sym e) (same w)
      | inr (fd, conn, _, _, _, e) ↦
          subst (Same w) (sym e)
            (record { thread = refl; q_conn = refl; notify_pipe = refl; looping = refl })
    ]

    pub process_rtc_msg-Same :
        (w : SignalingWorker ev) (block : Option Bytes) → Same w (process_rtc_msg json w block)
    process_rtc_msg-Same w block = elim (List-cases w.q_msg) [
      | inl e ↦ subst (Same w) (sym (process_rtc_msg-nil json w block e)) (same w)
      | inr (msg, msgs, e) ↦
          let r = process_rtc_msg-cons json w msg msgs block e in
          elim (Bool-cases (msg.cmdno ==ℤ pos cmdno_push)) [
            | inl push ↦
                let s = offer-Same (record w { q_msg = msgs }) msg block in
                subst (Same w) (sym r) (
                  rw push (record {
                    thread = s.thread;
                    q_conn = s.q_conn;
                    notify_pipe = s.notify_pipe;
                    looping = s.looping;
                  }))
            | inr no_push ↦ subst (Same w) (sym r) (
                rw no_push
                  (record { thread = refl; q_conn = refl; notify_pipe = refl; looping = refl }))
          ]
    ]

    -- What a read, and a whole event, leave as it was if they return.
    abbrev pub KeepsRead : SignalingWorker ev → Option (SignalingWorker ev × Inbox) → Type 0
    KeepsRead w none = Unit
    KeepsRead w (some (w', rtc)) = Same w w'

    abbrev pub Keeps : SignalingWorker ev → Option (SignalingWorker ev × Inbox × Bytes) → Type 0
    Keeps w none = Unit
    Keeps w (some (w', rtc, sent)) = Same w w'

    read_query-Keeps :
        (w : SignalingWorker ev) (fd : ℤ) (answer : Answer Bytes) (now : ℕ) (rtc : Inbox)
        → KeepsRead w (read_query json w fd answer now rtc)
    unfolding read_query close_conn
    read_query-Keeps w (negsuc n) answer now rtc = same w
    read_query-Keeps w (pos fd) answer now rtc = elim (Option-cases (conn_at w.conns fd)) [
      | inl free ↦ rw (free, read_query) (same w)
      | inr (c, taken) ↦ elim (Option-cases (read_data json w.worker_id c answer now rtc)) [
        | inl runs_on ↦ rw (taken, runs_on, read_query) tt
        | inr ((c', r, closing), got) ↦ elim (Bool-cases closing) [
          | inl shut ↦
              rw (taken, got, shut, read_query)
                (record { thread = refl; q_conn = refl; notify_pipe = refl; looping = refl })
          | inr open_still ↦
              rw (taken, got, open_still, read_query)
                (record { thread = refl; q_conn = refl; notify_pipe = refl; looping = refl })
        ]
      ]
    ]

    -- The two halves of an event.
    first-Keeps :
        (events : Bool) (w : SignalingWorker ev) (fd : ℤ) (answer : Answer Bytes) (now : ℕ)
        (rtc : Inbox)
        → KeepsRead w (first json events w fd answer now rtc)
    first-Keeps true w fd answer now rtc = read_query-Keeps w fd answer now rtc
    first-Keeps false w fd answer now rtc = same w

    wrote-Keeps :
        (events : Bool) (w u : SignalingWorker ev) (fd : ℤ) (answers : List (Answer ℕ)) (now : ℕ)
        (rtc : Inbox)
        → Same w u
        → Keeps w (wrote events (write_reply_to u fd answers now) u rtc)
    wrote-Keeps true w u fd answers now rtc s = Same-trans s (write_reply_to-Same u fd answers now)
    wrote-Keeps false w u fd answers now rtc s = s

    pub conn_io_cb-Keeps :
        (w : SignalingWorker ev) (fd : ℤ) (events : ℕ) (answer : Answer Bytes)
        (answers : List (Answer ℕ)) (now : ℕ) (rtc : Inbox)
        → Keeps w (conn_io_cb json w fd events answer answers now rtc)
    unfolding conn_io_cb
    conn_io_cb-Keeps w fd events answer answers now rtc =
        elim (Option-cases (first json (has_read events) w fd answer now rtc)) [
          | inl runs_on ↦ rw (runs_on, conn_io_cb) tt
          | inr ((u, r), got) ↦
              let s : Same w u =
                subst (KeepsRead w) got (first-Keeps (has_read events) w fd answer now rtc) in
              rw (got, conn_io_cb) (wrote-Keeps (has_write events) w u fd answers now r s)
        ]
