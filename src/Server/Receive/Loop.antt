-- ===== src/Server/Receive/Loop.antt =====
-- signaling_worker.cpp, `process_query_buffer`: one iteration at a time, and the end of the loop.
use rtc_frameworker.Prelude.{
  ℕ, suc, ◌+◌, ◌≤◌, ◌<◌, ◌≡◌, ◌≢◌, true, false, some, arith, length, lt→leb_false, take, drop, ◌==◌,
  Bool-cases, none, refl, sym, ◌⊎◌, inl, leb, ◌∙◌, ap, inr, zero,
}
use rtc_frameworker.Messages.{Ret, done, failed}
use rtc_frameworker.Platform.{Json}
use rtc_frameworker.Base.EventLoop.{Libev}
use rtc_frameworker.Base.Xhead.{xhead_magic, view}
use rtc_frameworker.Server.Connection.{TcpConnection, state_head, state_body, State}
use rtc_frameworker.Server.Inbox.{Inbox}
use rtc_frameworker.Server.Receive.{
  process_request, process_head, process_body, process_query_buffer, loop_fuel,
}

pub Ret-cases : (r : Ret) → (r ≡ done) ⊎ (r ≡ failed)
Ret-cases done = inl refl
Ret-cases failed = inr refl

State-cases : (s : State) → (s ≡ state_head) ⊎ (s ≡ state_body)
State-cases state_head = inl refl
State-cases state_body = inr refl

module _ {ev : Libev} where
  abbrev announced_in : State → TcpConnection ev → ℕ
  announced_in state_head conn = (view conn.querybuf).body_len
  announced_in state_body conn = conn.bytes_expected

  -- The length of the body that the connection's header announces.
  abbrev pub announced : TcpConnection ev → ℕ
  announced conn = announced_in conn.current_state conn

  abbrev pub after_head : TcpConnection ev → TcpConnection ev
  after_head conn = record conn {
    bytes_processed = 36;
    bytes_expected = (view conn.querybuf).body_len;
    current_state = state_body;
  }

  abbrev pub after_body : TcpConnection ev → TcpConnection ev
  after_body conn = record conn { bytes_processed = 65535 }

  same_conn : (conn : TcpConnection ev) → conn.bytes_processed ≡ 65535 → after_body conn ≡ conn
  same_conn conn p = λ i. record conn { bytes_processed = (sym p) i }

module _ {ev : Libev} (json : Json) (worker : ℕ) where
  -- The request that the loop makes of a buffer.
  abbrev pub request : TcpConnection ev → Inbox → Inbox × Ret
  request conn rtc =
      process_request json worker conn (take 36 conn.querybuf)
        (take (view conn.querybuf).body_len (drop 36 conn.querybuf)) rtc

  pub loop_idle :
      (fuel : ℕ) (conn : TcpConnection ev) (rtc : Inbox)
      → length conn.querybuf < conn.bytes_expected + conn.bytes_processed
      → process_query_buffer json worker (suc fuel) conn rtc ≡ some (conn, rtc, done)
  unfolding process_query_buffer
  loop_idle fuel conn rtc h = rw (lt→leb_false _ _ h, process_query_buffer) refl

  pub loop_bad_magic :
      (fuel : ℕ) (conn : TcpConnection ev) (rtc : Inbox)
      → conn.current_state ≡ state_head
      → conn.bytes_expected + conn.bytes_processed ≤ length conn.querybuf
      → (view conn.querybuf).magic_num ≢ xhead_magic
      → process_query_buffer json worker (suc fuel) conn rtc ≡ some (conn, rtc, failed)
  unfolding process_query_buffer process_head
  loop_bad_magic fuel conn rtc s h m =
      let bad : ((view conn.querybuf).magic_num == xhead_magic) ≡ false = ground arith in
      ground arith

  pub loop_head :
      (fuel : ℕ) (conn : TcpConnection ev) (rtc : Inbox)
      → conn.current_state ≡ state_head
      → conn.bytes_expected + conn.bytes_processed ≤ length conn.querybuf
      → (view conn.querybuf).magic_num ≡ xhead_magic
      → process_query_buffer json worker (suc fuel) conn rtc
        ≡ process_query_buffer json worker fuel (after_head conn) rtc
  unfolding process_query_buffer process_head
  loop_head fuel conn rtc s h m =
      let good : ((view conn.querybuf).magic_num == xhead_magic) ≡ true = ground arith in
      ground arith

  pub loop_body_failed :
      (fuel : ℕ) (conn : TcpConnection ev) (rtc : Inbox)
      → conn.current_state ≡ state_body
      → conn.bytes_expected + conn.bytes_processed ≤ length conn.querybuf
      → (request conn rtc).1 ≡ failed
      → process_query_buffer json worker (suc fuel) conn rtc
        ≡ some (conn, (request conn rtc).0, failed)
  unfolding process_query_buffer process_body
  loop_body_failed fuel conn rtc s h m = ground arith

  pub loop_body_done :
      (fuel : ℕ) (conn : TcpConnection ev) (rtc : Inbox)
      → conn.current_state ≡ state_body
      → conn.bytes_expected + conn.bytes_processed ≤ length conn.querybuf
      → (request conn rtc).1 ≡ done
      → process_query_buffer json worker (suc fuel) conn rtc
        ≡ process_query_buffer json worker fuel (after_body conn) (request conn rtc).0
  unfolding process_query_buffer process_body
  loop_body_done fuel conn rtc s h m = ground arith

  loop_zero :
      (conn : TcpConnection ev) (rtc : Inbox) → process_query_buffer json worker 0 conn rtc ≡ none
  unfolding process_query_buffer
  loop_zero conn rtc = refl

  body_returns :
      (fuel : ℕ) (conn : TcpConnection ev) (rtc : Inbox)
      → conn.current_state ≡ state_body
      → length conn.querybuf < conn.bytes_expected + 65535
      → (r : TcpConnection ev × Inbox × Ret) × (process_query_buffer json worker
            (suc (suc fuel))
            conn
            rtc
          ≡ some r)
  body_returns fuel conn rtc s h =
      elim (Bool-cases (leb (conn.bytes_expected + conn.bytes_processed) (length conn.querybuf))) [
        | inr short ↦ ((conn, rtc, done), loop_idle (suc fuel) conn rtc (ground (arith)))
        | inl full ↦ elim (Ret-cases (request conn rtc).1) [
          | inr bad ↦ (_, loop_body_failed (suc fuel) conn rtc s (ground arith) bad)
          | inl good ↦ (
            _,
            loop_body_done (suc fuel) conn rtc s (ground arith) good
                ∙ loop_idle fuel (after_body conn) (request conn rtc).0 h,
          )
        ]
      ]

  -- Two iterations and the last test are enough: with `loop_fuel` the loop over a buffer that is
  -- shorter than the announced body and 65535 bytes always returns, in whatever state the
  -- connection is and whatever the request does.
  pub process_query_buffer-returns :
      (conn : TcpConnection ev) (rtc : Inbox)
      → length conn.querybuf < announced conn + 65535
      → (r : TcpConnection ev × Inbox × Ret) × (process_query_buffer json worker loop_fuel conn rtc
          ≡ some r)
  process_query_buffer-returns conn rtc h = elim (State-cases conn.current_state) [
    | inr body ↦ body_returns 1 conn rtc body (rw (body, announced) at h)
    | inl head ↦
        elim (Bool-cases
          (leb (conn.bytes_expected + conn.bytes_processed) (length conn.querybuf))) [
            | inr short ↦ ((conn, rtc, done), loop_idle 2 conn rtc (ground arith))
            | inl full ↦ elim (Bool-cases ((view conn.querybuf).magic_num == xhead_magic)) [
              | inr bad ↦ (_, loop_bad_magic 2 conn rtc head (ground arith) (ground arith))
              | inl good ↦
                  let (r, e) =
                    body_returns 0 (after_head conn) rtc refl (rw (head, announced) at h) in
                  (r, loop_head 2 conn rtc head (ground arith) (ground arith) ∙ e)
            ]
          ]
  ]

  -- A connection in the body state that has handled a request (65535 bytes are counted as
  -- processed) keeps the request in its buffer: with 65535 bytes more than the announced body in
  -- the buffer, and a request that succeeds whatever the RTC server holds, the loop handles it
  -- again and again and never returns.
  pub process_query_buffer-diverges :
      (conn : TcpConnection ev)
      → conn.current_state ≡ state_body
      → conn.bytes_processed ≡ 65535
      → conn.bytes_expected + 65535 ≤ length conn.querybuf
      → ((rtc : Inbox) → (request conn rtc).1 ≡ done)
      → (fuel : ℕ) (rtc : Inbox) → process_query_buffer json worker fuel conn rtc ≡ none
  process_query_buffer-diverges conn s p h ok zero rtc = loop_zero conn rtc
  process_query_buffer-diverges conn s p h ok (suc fuel) rtc =
      loop_body_done fuel conn rtc s (omega arith) (ok rtc)
      ∙ ap (λ c. process_query_buffer json worker fuel c (request conn rtc).0) (same_conn conn p)
      ∙ process_query_buffer-diverges conn s p h ok fuel (request conn rtc).0
