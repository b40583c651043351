-- ===== src/Server/SignalingWorker/Lifecycle/Turns.antt =====
-- signaling_worker.cpp: what may happen at a worker that runs, and what it keeps of a notification
-- to stop.
use rtc_frameworker.Prelude.{
  ℕ, ◌+◌, ◌≤◌, ◌≡◌, refl, sym, ap, ◌∙◌, subst, List, [], ◌∷◌, ◌++◌, Option, some, length, true,
  false, Bool-cases, inl, inr, ◌⊎◌, append_assoc,
}
use rtc_frameworker.Prelude.Int.{ℤ}
use rtc_frameworker.Messages.{Bytes, Ret, RtcMsg}
use rtc_frameworker.Platform.{Json}
use rtc_frameworker.Base.EventLoop.{Libev}
use rtc_frameworker.Base.LockFreeQueue.{LockFreeQueue}
use rtc_frameworker.Base.LockFreeQueue.Invariant.{Inv}
use rtc_frameworker.Base.LockFreeQueue.Fifo.{produce-Inv}
use rtc_frameworker.Base.Pipe.{Pipe, send}
use rtc_frameworker.Base.Socket.{Answer}
use rtc_frameworker.Server.Connection.{TcpConnection}
use rtc_frameworker.Server.Inbox.{Inbox}
use rtc_frameworker.Server.Thread.{joinable}
use rtc_frameworker.Server.SignalingWorker.{
  SignalingWorker, quit, conn_timer_cb, conn_io_cb, send_rtc_msg, notify_new_conn, notify,
  new_connection,
}
use rtc_frameworker.Server.SignalingWorker.Lifecycle.{Supply, worker_recv_notify}
use rtc_frameworker.Server.SignalingWorker.Lifecycle.Clients.{Same, Keeps, conn_io_cb-Keeps}

module _ {ev : Libev} (json : Json) where
  -- What may happen at a worker that runs: an event or a timer of a connection, a notification that
  -- it reads while it is in its event loop, and what other threads send it meanwhile.
  pub data Turn : SignalingWorker ev → SignalingWorker ev → Type 1 where
    io :
        (w w' : SignalingWorker ev) (fd : ℤ) (events : ℕ) (answer : Answer Bytes)
        (answers : List (Answer ℕ)) (now : ℕ) (rtc rtc' : Inbox) (sent : Bytes)
        → conn_io_cb json w fd events answer answers now rtc ≡ some (w', rtc', sent)
        → Turn w w'
    timer :
        (w : SignalingWorker ev) (conn : TcpConnection ev) (now : ℕ)
        → Turn w (conn_timer_cb w conn now)
    notified :
        (w w' : SignalingWorker ev) (supply : Supply)
        → w.looping ≡ true
        → worker_recv_notify json w supply ≡ some w'
        → Turn w w'
    answered : (w : SignalingWorker ev) (msg : RtcMsg) → Turn w (send_rtc_msg w msg).0
    accepted :
        (w w' : SignalingWorker ev) (fd : ℤ) (ret : Ret)
        → notify_new_conn w fd ≡ some (w', ret)
        → Turn w w'

  pub data Turns (start : SignalingWorker ev) : SignalingWorker ev → Type 1 where
    initial : Turns start start
    after : (w w' : SignalingWorker ev) → Turns start w → Turn w w' → Turns start w'

  abbrev pub counted : {w w' : SignalingWorker ev} → Turn w w' → ℕ → ℕ
  counted (io w w' fd events answer answers now rtc rtc' sent h) k = k
  counted (timer w conn now) k = k
  counted (notified w w' supply on h) k = k + 1
  counted (answered w msg) k = k
  counted (accepted w w' fd ret h) k = k

  -- How many notifications the worker has read.
  abbrev pub reads : {s w : SignalingWorker ev} → Turns s w → ℕ
  reads initial = 0
  reads (after v w r t) = counted t (reads r)

  pub io-Same :
      (w w' : SignalingWorker ev) (fd : ℤ) (events : ℕ) (answer : Answer Bytes)
      (answers : List (Answer ℕ)) (now : ℕ) (rtc rtc' : Inbox) (sent : Bytes)
      → conn_io_cb json w fd events answer answers now rtc ≡ some (w', rtc', sent)
      → Same w w'
  io-Same w w' fd events answer answers now rtc rtc' sent h =
      subst (Keeps json w) h (conn_io_cb-Keeps json w fd events answer answers now rtc)

module _ {ev : Libev} where
  -- A thread that was started, with the descriptors that wait in its queue.
  pub record Started (w : SignalingWorker ev) : Type 0 where
    pub thread : w.thread ≡ joinable
    pub fds : List ℤ
    pub waits : Inv w.q_conn fds

  -- It has read so many notifications, and `quit` waits behind others.
  pub record Waiting (n k : ℕ) (w : SignalingWorker ev) : Type 0 where
    pub before : List ℤ
    pub later : List ℤ
    pub unread : w.notify_pipe.unread ≡ before ++ quit ∷ later
    pub short : length before + k ≤ n

  abbrev pub Ending : ℕ → ℕ → SignalingWorker ev → Type 0
  Ending n k w = (w.looping ≡ false) ⊎ Waiting n k w

  pub Started-Same : (w w' : SignalingWorker ev) → Same w w' → Started w → Started w'
  Started-Same w w' s h = record {
    thread = s.thread ∙ h.thread;
    fds = h.fds;
    waits = subst (λ q. Inv q h.fds) (sym s.q_conn) h.waits;
  }

  pub moved :
      (n k : ℕ) (w w' : SignalingWorker ev)
      → w'.looping ≡ w.looping
      → w'.notify_pipe ≡ w.notify_pipe
      → Ending n k w
      → Ending n k w'
  moved n k w w' l p (inl off) = inl (l ∙ off)
  moved n k w w' l p (inr h) = inr (record {
    before = h.before;
    later = h.later;
    unread = ap (λ (q : Pipe). q.unread) p ∙ h.unread;
    short = h.short;
  })

  -- What another thread sends comes behind `quit`.
  pub notify-Ending :
      (n k : ℕ) (w : SignalingWorker ev) (m : ℤ) → Ending n k w → Ending n k (notify w m).0
  unfolding notify send
  notify-Ending n k w m (inl l) = inl l
  notify-Ending n k w m (inr h) = elim (Bool-cases (w.notify_pipe.accepts w.notify_pipe.unread)) [
    | inr full ↦ inr (record {
      before = h.before;
      later = h.later;
      unread = rw (full, notify, send) h.unread;
      short = h.short;
    })
    | inl takes ↦ inr (record {
      before = h.before;
      later = h.later ++ m ∷ [];
      unread =
          rw (takes, notify, send)
            (ap (λ t. t ++ m ∷ []) h.unread ∙ append_assoc h.before (quit ∷ h.later) (m ∷ []));
      short = h.short;
    })
  ]

  pub accepted-cases :
      (w w' : SignalingWorker ev) (fd : ℤ) (ret : Ret) (s : Started w)
      → notify_new_conn w fd ≡ some (w', ret)
      → (q : LockFreeQueue ℤ) × Inv q (s.fds ++ fd ∷ [])
        × (w' ≡ (notify (record w { q_conn = q }) new_connection).0)
  unfolding notify_new_conn
  accepted-cases w w' fd ret s h =
      let (q, e, i, _) = produce-Inv w.q_conn s.fds fd s.waits in
      let f : notify_new_conn w fd ≡ some (notify (record w { q_conn = q }) new_connection) =
        rw (e, notify_new_conn) refl in
      let g : ◌≡◌ {A = Option (SignalingWorker ev × Ret)}
          (some (notify (record w { q_conn = q }) new_connection)) (some (w', ret)) =
        sym f ∙ h in
      let k : notify (record w { q_conn = q }) new_connection ≡ (w', ret) = cc g in
      (q, i, sym (ap (λ (p : SignalingWorker ev × Ret). p.0) k))
