-- ===== src/Server/Receive/Identity.antt =====
-- signaling_worker.cpp: the fields of a connection that handling what was read leaves alone.
use rtc_frameworker.Prelude.{
  ℕ, zero, suc, ◌≡◌, refl, ◌∙◌, Bool, true, false, Option, none, some, arith, Bool-cases,
  Option-cases, inl, inr, subst, ◌++◌,
}
use rtc_frameworker.Prelude.Int.{◌==ℤ◌}
use rtc_frameworker.Messages.{Bytes, Ret, done}
use rtc_frameworker.Platform.{Json}
use rtc_frameworker.Base.EventLoop.{Libev}
use rtc_frameworker.Base.Socket.{Answer, minus_one, sock_read_data}
use rtc_frameworker.Server.Connection.{TcpConnection, State, state_head, state_body}
use rtc_frameworker.Server.Inbox.{Inbox}
use rtc_frameworker.Server.Receive.{
  process_head, process_body, process_query_buffer, read_data, iteration, loop_test, loop_fuel,
}

-- The fields by which the worker knows a connection.
pub record Same {ev : Libev} (c d : TcpConnection ev) : Type 0 where
  pub fd : c.fd ≡ d.fd
  pub addr : c.addr ≡ d.addr
  pub io_watcher : c.io_watcher ≡ d.io_watcher
  pub timer_watcher : c.timer_watcher ≡ d.timer_watcher
  pub reply_list : c.reply_list ≡ d.reply_list
  pub cur_resp_pos : c.cur_resp_pos ≡ d.cur_resp_pos

module _ {ev : Libev} (json : Json) (worker : ℕ) where
  Same-trans : {c d e : TcpConnection ev} → Same c d → Same d e → Same c e
  Same-trans p q = record {
    fd = p.fd ∙ q.fd;
    addr = p.addr ∙ q.addr;
    io_watcher = p.io_watcher ∙ q.io_watcher;
    timer_watcher = p.timer_watcher ∙ q.timer_watcher;
    reply_list = p.reply_list ∙ q.reply_list;
    cur_resp_pos = p.cur_resp_pos ∙ q.cur_resp_pos;
  }

  head-Same :
      (conn : TcpConnection ev) (rtc : Inbox) → Same (process_head json worker conn rtc).0 conn
  unfolding process_head
  head-Same conn rtc = ground arith

  body-Same :
      (conn : TcpConnection ev) (rtc : Inbox) → Same (process_body json worker conn rtc).0 conn
  unfolding process_body
  body-Same conn rtc = ground arith

  iteration-Same :
      (conn : TcpConnection ev) (rtc : Inbox) (s : State)
      → Same (iteration json worker conn rtc s).0 conn
  iteration-Same conn rtc state_head = head-Same conn rtc
  iteration-Same conn rtc state_body = body-Same conn rtc

  returned :
      (a b : TcpConnection ev) (x y : Inbox) (p q : Ret)
      → ◌≡◌ {A = Option (TcpConnection ev × Inbox × Ret)} (some (a, x, p)) (some (b, y, q))
      → a ≡ b
  returned a b x y p q h = cc

  pub process_query_buffer-Same :
      (fuel : ℕ) (conn c : TcpConnection ev) (rtc r : Inbox) (ret : Ret)
      → process_query_buffer json worker fuel conn rtc ≡ some (c, r, ret)
      → Same c conn
  unfolding process_query_buffer
  process_query_buffer-Same zero conn c rtc r ret h = cc
  process_query_buffer-Same (suc fuel) conn c rtc r ret h =
      let step = iteration json worker conn rtc conn.current_state in
      let kept = iteration-Same conn rtc conn.current_state in
      elim (Bool-cases (loop_test json worker conn)) [
        | inr stop ↦
            let h' : ◌≡◌ {A = Option (TcpConnection ev × Inbox × Ret)} (some (conn, rtc, done))
                (some (c, r, ret)) =
              rw (stop, process_query_buffer) at h in
            ground arith
        | inl go ↦ elim (Option-cases step.2) [
          | inl more ↦
              let h' : process_query_buffer json worker fuel step.0 step.1 ≡ some (c, r, ret) =
                rw (go, more, process_query_buffer) at h in
              Same-trans (process_query_buffer-Same fuel step.0 c step.1 r ret h') kept
          | inr (out, left) ↦
              let h' : ◌≡◌ {A = Option (TcpConnection ev × Inbox × Ret)}
                  (some (step.0, step.1, out)) (some (c, r, ret)) =
                rw (go, left, process_query_buffer) at h in
              subst (λ (d : TcpConnection ev). Same d conn) (returned _ _ _ _ _ _ h') kept
        ]
      ]

  read_value :
      (a c : TcpConnection ev) (x r : Inbox) (p q : Bool)
      → ◌≡◌ {A = Option (TcpConnection ev × Inbox × Bool)} (some (a, x, p)) (some (c, r, q))
      → (a ≡ c) × (p ≡ q)
  read_value a c x r p q h = (cc, cc)

  read_none :
      (c : TcpConnection ev) (r : Inbox) (q : Bool)
      → ¬ (◌≡◌ {A = Option (TcpConnection ev × Inbox × Bool)} none (some (c, r, q)))
  read_none c r q h = cc

  pub read_data-Same :
      (conn c : TcpConnection ev) (answer : Answer Bytes) (now : ℕ) (rtc r : Inbox) (closing : Bool)
      → read_data json worker conn answer now rtc ≡ some (c, r, closing)
      → Same c conn
  unfolding read_data
  read_data-Same conn c answer now rtc r closing h =
      let (nread, bytes) = sock_read_data answer in
      let filled = record conn { querybuf = conn.querybuf ++ bytes; last_interaction_time = now } in
      let kept : Same filled conn = record {
        fd = refl;
        addr = refl;
        io_watcher = refl;
        timer_watcher = refl;
        reply_list = refl;
        cur_resp_pos = refl;
      } in
      elim (Bool-cases (nread ==ℤ minus_one)) [
        | inl e ↦
            subst (λ (d : TcpConnection ev). Same d conn)
              (read_value filled c rtc r true closing (rw (e, read_data) at h)).0 kept
        | inr e ↦ elim (Option-cases (process_query_buffer json worker loop_fuel filled rtc)) [
          | inl none_left ↦ absurd (read_none c r closing (rw (e, none_left, read_data) at h))
          | inr ((c', r', ret), left) ↦
              Same-trans
                (subst (λ (d : TcpConnection ev). Same d filled)
                  (read_value c' c r' r false closing (rw (e, left, read_data) at h)).0
                  (process_query_buffer-Same loop_fuel filled c' rtc r' ret left))
                kept
        ]
      ]
