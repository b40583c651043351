-- ===== src/Server/SignalingWorker/Descriptors.antt =====
-- signaling_worker.cpp: an account of the descriptors that a worker was given and that it closed.
pub mod Closing
use rtc_frameworker.Server.SignalingWorker.Descriptors.Closing.{
  closings, total, Balances, AfterEvent, conn_timer_cb-Balances, conn_io_cb-Balances,
  process_rtc_msg-Balances, present,
}
use rtc_frameworker.Prelude.{
  ℕ, zero, suc, ◌+◌, ◌<◌, ◌≡◌, ◌≢◌, refl, sym, ap, ◌∙◌, List, [], ◌∷◌, Option, none, some, arith,
  inl, inr, if◌then◌else◌, ◌==◌, ==_iff, Bool, true, false, Bool-cases, Option-cases, List-cases,
  set, subst,
}
use rtc_frameworker.Prelude.Int.{ℤ, pos, negsuc, ◌==ℤ◌}
use rtc_frameworker.Messages.{Bytes, RtcMsg, cmdno_push}
use rtc_frameworker.Platform.{Json}
use rtc_frameworker.Base.EventLoop.{Libev, has_read, has_write}
use rtc_frameworker.Base.Socket.{Answer, Address}
use rtc_frameworker.Server.Connection.{TcpConnection}
use rtc_frameworker.Server.Inbox.{Inbox}
use rtc_frameworker.Server.Receive.{read_data}
use rtc_frameworker.Server.Receive.Identity.{read_data-Same}
use rtc_frameworker.Server.SignalingWorker.{
  SignalingWorker, conn_at, open_conn, new_conn, send_rtc_msg, close_conn, conn_timer_cb,
  process_timeout, is_timed_out, write_reply_to, read_query, conn_io_cb, response_server_offer,
  process_rtc_msg,
}
use rtc_frameworker.Server.SignalingWorker.Table.{
  grown, lt-length-grown, conn_at-grown, conn_at-lt, conn_at-set_self, conn_at-set_ne,
}
use rtc_frameworker.Server.SignalingWorker.Lifecycle as Lifecycle
use rtc_frameworker.Server.SignalingWorker.Replies.{
  process_rtc_msg-nil, process_rtc_msg-cons, response_server_offer_cases,
}
use rtc_frameworker.Server.SignalingWorker.Callbacks.{
  Step, Reach, accepted, io, timer, messaged, replied, initial, after,
}
use rtc_frameworker.Server.SignalingWorker.Reachable.{Indexed, Reach-Indexed, first, wrote}

module _ {ev : Libev} (json : Json) where
  abbrev given : {w w' : SignalingWorker ev} → Step json w w' → (ℕ → ℕ) → ℕ → ℕ
  given (accepted w fd addr now peer h) n j = if fd == j then suc (n j) else n j
  given (io w w' fd events answer answers now rtc rtc' sent h) n j = n j
  given (timer w i conn now h) n j = n j
  given (messaged w msg) n j = n j
  given (replied w block) n j = n j

  -- How often a worker was given a descriptor.
  abbrev pub accepts : {s w : SignalingWorker ev} → Reach json s w → ℕ → ℕ
  accepts initial = λ j. 0
  accepts (after v w r st) = given st (accepts r)

  -- accept(2) gives no descriptor that is open: each was closed as often as it was given.
  abbrev pub IsFree : {w w' : SignalingWorker ev} → Step json w w' → (ℕ → ℕ) → Type 0
  IsFree (accepted w fd addr now peer h) n = n fd ≡ closings w.closed fd
  IsFree (io w w' fd events answer answers now rtc rtc' sent h) n = Unit
  IsFree (timer w i conn now h) n = Unit
  IsFree (messaged w msg) n = Unit
  IsFree (replied w block) n = Unit

  abbrev pub AllFree : {s w : SignalingWorker ev} → Reach json s w → Type 0
  AllFree initial = Unit
  AllFree (after v w r st) = AllFree r × IsFree st (accepts r)

  new_conn-total :
      (w : SignalingWorker ev) (fd addr now : ℕ) (peer : Answer Address) (n : ℕ → ℕ)
      → 0 < fd
      → n fd ≡ closings w.closed fd
      → ((j : ℕ) → n j ≡ total w j)
      → (j : ℕ) → (if fd == j then suc (n j) else n j) ≡ total (new_conn w (pos fd) addr now peer) j
  unfolding new_conn
  new_conn-total w fd addr now peer n h free inv j = elim (Bool-cases (fd == j)) [
    | inl same ↦
        let here = (==_iff fd j).0 same in
        let there : conn_at (set (grown w.conns fd) fd (some (open_conn addr fd now peer))) fd
            ≡ some (open_conn addr fd now peer) =
          conn_at-set_self (grown w.conns fd) fd (some (open_conn addr fd now peer))
            (lt-length-grown w.conns fd h) in
        let at_j : present
              (conn_at (set (grown w.conns fd) fd (some (open_conn addr fd now peer))) j)
            ≡ 1 =
          ap
            (λ k.
              present (conn_at (set (grown w.conns fd) fd (some (open_conn addr fd now peer))) k))
            (sym here)
          ∙ ap present there in
        let free_j : n j ≡ closings w.closed j = subst (λ k. n k ≡ closings w.closed k) here free in
        rw same (omega (arith, at_j, free_j))
    | inr other ↦
        let apart : fd ≢ j = λ k. cc ((==_iff fd j).1 k) in
        let kept : conn_at (set (grown w.conns fd) fd (some (open_conn addr fd now peer))) j
            ≡ conn_at w.conns j =
          conn_at-set_ne (grown w.conns fd) fd j (some (open_conn addr fd now peer)) apart
          ∙ conn_at-grown w.conns fd j in
        rw other (inv j ∙ ap (λ n. closings w.closed j + present n) (sym kept))
  ]

  Step-total :
      (w w' : SignalingWorker ev) (st : Step json w w') (n : ℕ → ℕ)
      → IsFree st n
      → Indexed w.conns
      → ((j : ℕ) → n j ≡ total w j)
      → (j : ℕ) → given st n j ≡ total w' j
  unfolding send_rtc_msg
  Step-total _ _ (accepted w fd addr now peer h) n free indexed inv j =
      new_conn-total w fd addr now peer n h free inv j
  Step-total _ _ (io w w' fd events answer answers now rtc rtc' sent h) n free indexed inv j =
      let kept : Balances w w' =
        subst (AfterEvent json w) h
          (conn_io_cb-Balances json w fd events answer answers now rtc indexed) in
      inv j ∙ sym (kept j)
  Step-total _ _ (timer w i c now there) n free indexed inv j =
      inv j ∙ sym (conn_timer_cb-Balances w i c now there (indexed i c there) j)
  Step-total _ _ (messaged w msg) n free indexed inv j = inv j
  Step-total _ _ (replied w block) n free indexed inv j =
      inv j ∙ sym (process_rtc_msg-Balances json w block j)

  -- In every state that a new worker reaches, whatever its callbacks and their order, if no
  -- descriptor was given to it while it was open: each descriptor was given as often as it was
  -- closed, and once more exactly if there is a connection for it in the table. So none is closed
  -- twice or while its connection stays in the table, and none is lost without being closed.
  pub Reach-closings :
      (worker_id : ℕ) (timeout : ℤ) (w : SignalingWorker ev)
      (r : Reach json (Lifecycle.create worker_id timeout) w) (j : ℕ)
      → AllFree r
      → accepts r j ≡ closings w.closed j + present (conn_at w.conns j)
  unfolding Lifecycle.create closings
  Reach-closings worker_id timeout _ initial j free = omega arith
  Reach-closings worker_id timeout _ (after v w r st) j free =
      Step-total v w st (accepts r) free.1 (Reach-Indexed json worker_id timeout v r)
        (λ i. Reach-closings worker_id timeout v r i free.0) j
