-- ===== src/Server/SignalingWorker/Lifecycle/Stopping.antt =====
-- signaling_worker.cpp: the notifications in a worker's pipe up to the one to stop.
use rtc_frameworker.Prelude.{
  ℕ, suc, ◌+◌, ◌≤◌, ◌≡◌, refl, sym, ap, ◌∙◌, subst, List, [], ◌∷◌, ◌++◌, Option, some, length,
  length-append, arith, true, false, Bool-cases, inl, inr,
}
use rtc_frameworker.Prelude.Int.{ℤ, ◌==ℤ◌, ==ℤ_iff}
use rtc_frameworker.Platform.{Json}
use rtc_frameworker.Base.EventLoop.{Libev}
use rtc_frameworker.Base.LockFreeQueue.Invariant.{Inv}
use rtc_frameworker.Base.LockFreeQueue.Fifo.{consume-nil, consume-cons}
use rtc_frameworker.Base.Pipe.{Pipe, send}
use rtc_frameworker.Server.Receive.{◌>>=◌}
use rtc_frameworker.Server.Rounds.{rounds-End_within}
use rtc_frameworker.Server.Thread.{joinable}
use rtc_frameworker.Server.SignalingWorker.{
  SignalingWorker, quit, new_connection, rtc_msg, new_conn, process_rtc_msg, stop, notify,
}
use rtc_frameworker.Server.SignalingWorker.Lifecycle.Clients.{new_conn-Same, process_rtc_msg-Same}
use rtc_frameworker.Server.SignalingWorker.Lifecycle.{
  Supply, stop_loop, process_notify, worker_recv_notify, take_unread, next_notified, run_loop,
}

module _ {ev : Libev} where
  module _ (json : Json) where
    -- Between two notifications, and behind the loop.
    record Good (p : SignalingWorker ev × ℕ) : Type 0 where
      pub thread : p.0.thread ≡ joinable
      pub fds : List ℤ
      pub waits : Inv p.0.q_conn fds

    abbrev Ended : SignalingWorker ev × ℕ → Type 0
    Ended p = p.0.thread ≡ joinable

    abbrev pub behind : SignalingWorker ev → List ℤ → SignalingWorker ev
    behind w rest = record w { notify_pipe = record (w.notify_pipe) { unread = rest } }

    pub next_read :
        (w : SignalingWorker ev) (m : ℤ) (rest : List ℤ) (supply : Supply)
        → w.notify_pipe.unread ≡ m ∷ rest
        → worker_recv_notify json w supply ≡ process_notify json (behind w rest) m supply
    unfolding worker_recv_notify take_unread
    next_read w m rest supply u = rw (u, worker_recv_notify, take_unread) refl

    -- What a notification that does not stop the worker leaves behind.
    abbrev pub Handled : SignalingWorker ev → Option (SignalingWorker ev) → Type 0
    Handled w r =
        (w' : SignalingWorker ev) × (fds : List ℤ) × (r ≡ some w')
        × (w'.notify_pipe ≡ w.notify_pipe)
        × (w'.thread ≡ w.thread)
        × Inv w'.q_conn fds

    connection :
        (w : SignalingWorker ev) (fds : List ℤ) (supply : Supply)
        → Inv w.q_conn fds
        → Handled w (process_notify json w new_connection supply)
    unfolding process_notify
    connection w [] supply v =
        (w, [], rw (consume-nil w.q_conn v, process_notify) refl, refl, refl, v)
    connection w (fd ∷ fds) supply v =
        let (q, e, v') = consume-cons w.q_conn fd fds v in
        let w1 = record w { q_conn = q } in
        let w2 = new_conn w1 fd supply.addr supply.now supply.peer in
        let s = new_conn-Same w1 fd supply.addr supply.now supply.peer in
        (
          w2,
          fds,
          rw (e, process_notify) refl,
          s.notify_pipe,
          s.thread,
          subst (λ r. Inv r fds) (sym s.q_conn) v',
        )

    message :
        (w : SignalingWorker ev) (fds : List ℤ) (supply : Supply)
        → Inv w.q_conn fds
        → Handled w (process_notify json w rtc_msg supply)
    unfolding process_notify
    message w fds supply v =
        let s = process_rtc_msg-Same json w supply.block in
        (
          process_rtc_msg json w supply.block,
          fds,
          refl,
          s.notify_pipe,
          s.thread,
          subst (λ r. Inv r fds) (sym s.q_conn) v,
        )

    pub handled :
        (w : SignalingWorker ev) (fds : List ℤ) (m : ℤ) (supply : Supply)
        → Inv w.q_conn fds
        → (m ==ℤ quit) ≡ false
        → Handled w (process_notify json w m supply)
    unfolding process_notify
    handled w fds m supply v other = elim (Bool-cases (m ==ℤ new_connection)) [
      | inl is_new ↦
          subst (λ n. Handled w (process_notify json w n supply))
            (sym ((==ℤ_iff m new_connection).0 is_new)) (connection w fds supply v)
      | inr not_new ↦ elim (Bool-cases (m ==ℤ rtc_msg)) [
        | inl is_msg ↦
            subst (λ n. Handled w (process_notify json w n supply))
              (sym ((==ℤ_iff m rtc_msg).0 is_msg)) (message w fds supply v)
        | inr unknown ↦ (w, fds, rw (other, not_new, unknown, process_notify) refl, refl, refl, v)
      ]
    ]

    module _ (supplies : ℕ → Supply) where
      next_lem :
          (w w' : SignalingWorker ev) (i : ℕ)
          → worker_recv_notify json w (supplies i) ≡ some w'
          → next_notified json supplies (w, i) ≡ some (w', i + 1)
      next_lem w w' i e = rw (e, next_notified) refl

      goes :
          (p : SignalingWorker ev × ℕ) (m : ℤ) (rest : List ℤ)
          → Good p
          → p.0.notify_pipe.unread ≡ m ∷ rest
          → (m ==ℤ quit) ≡ false
          → (p' : SignalingWorker ev × ℕ) × (next_notified json supplies p ≡ some p')
            × (p'.0.notify_pipe.unread ≡ rest)
            × Good p'
      goes (w, i) m rest good u other =
          let (w', fds, e, pipe, thread, waits) =
            handled (behind w rest) good.fds m (supplies i) good.waits other in
          (
            (w', i + 1),
            next_lem w w' i (next_read w m rest (supplies i) u ∙ e),
            ap (λ (p : Pipe). p.unread) pipe,
            record { thread = thread ∙ good.thread; fds = fds; waits = waits },
          )

      quits :
          (p : SignalingWorker ev × ℕ) (m : ℤ) (rest : List ℤ)
          → Good p
          → p.0.notify_pipe.unread ≡ m ∷ rest
          → (m ==ℤ quit) ≡ true
          → (p' : SignalingWorker ev × ℕ) × (next_notified json supplies p ≡ some p')
            × (p'.0.looping ≡ false)
            × Ended p'
      unfolding process_notify stop_loop
      quits (w, i) m rest good u is_quit =
          let v = behind w rest in
          (
            (stop_loop v, i + 1),
            next_lem w (stop_loop v) i
                (next_read w m rest (supplies i) u ∙ rw (is_quit, process_notify) refl),
            rw (good.thread, stop_loop) refl,
            rw (good.thread, stop_loop) refl,
          )

      -- A started worker with the notification in its pipe leaves its loop within the rounds that
      -- bring it there.
      pub run_loop-Left :
          (n : ℕ) (w : SignalingWorker ev) (before later fds : List ℤ)
          → length before ≤ n
          → w.notify_pipe.unread ≡ before ++ quit ∷ later
          → Inv w.q_conn fds
          → w.thread ≡ joinable
          → (v : SignalingWorker ev) × (i : ℕ) × (run_loop json supplies (suc n) (w, 0)
              ≡ some (v, i))
            × (v.looping ≡ false)
            × (v.thread ≡ joinable)
      unfolding run_loop
      run_loop-Left n w before later fds h u waits t =
          let ((v, i), e, l, ended) =
            rounds-End_within (λ (p : SignalingWorker ev × ℕ). p.0.looping)
              (next_notified json supplies) (λ p. p.0.notify_pipe.unread) quit refl Good Ended goes
              quits (λ p good off. good.thread) n before later (w, 0) h u
              (record { thread = t; fds = fds; waits = waits }) in
          (v, i, e, l, ended)

      -- What the thread of a worker does with its notifications until it ends.
      abbrev pub drained : SignalingWorker ev → Option (SignalingWorker ev)
      drained w = run_loop json supplies (length w.notify_pipe.unread) (w, 0) >>= (λ p. some p.0)

      -- A worker whose thread was started, and whose pipe takes the notification, leaves its
      -- event loop when it is told to.
      pub stop-drained :
          (w : SignalingWorker ev) (fds : List ℤ)
          → Inv w.q_conn fds
          → w.thread ≡ joinable
          → w.notify_pipe.accepts w.notify_pipe.unread ≡ true
          → (v : SignalingWorker ev) × (drained (stop w) ≡ some v)
            × (v.looping ≡ false)
            × (v.thread ≡ joinable)
      unfolding run_loop stop notify send
      stop-drained w fds waits t takes =
          let told : (stop w).notify_pipe.unread ≡ w.notify_pipe.unread ++ quit ∷ [] =
            rw (takes, stop, notify, send) refl in
          let (w', i, e, l, ended) =
            run_loop-Left (length w.notify_pipe.unread) (stop w) w.notify_pipe.unread [] fds
              (omega arith) told waits t in
          let long : length (stop w).notify_pipe.unread ≡ suc (length w.notify_pipe.unread) =
            ap length told ∙ length-append w.notify_pipe.unread (quit ∷ []) ∙ omega arith in
          (
            w',
            ap (λ n. run_loop json supplies n (stop w, 0) >>= (λ p. some p.0)) long
                ∙ ap (λ o. o >>= (λ p. some p.0)) e,
            l,
            ended,
          )
