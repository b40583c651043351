-- ===== src/Server/SignalingWorker/Lifecycle/Amid.antt =====
-- signaling_worker.cpp: a notification to stop among the events of the clients and what other
-- threads send.
use rtc_frameworker.Prelude.{
  suc, ◌-◌, ℕ, ◌+◌, ◌≤◌, ◌≡◌, refl, sym, ap, ◌∙◌, subst, List, [], ◌∷◌, ◌++◌, some, length, arith,
  true, false, Bool-cases, inl, inr, ◌⊎◌,
}
use rtc_frameworker.Prelude.Int.{ℤ, ◌==ℤ◌}
use rtc_frameworker.Platform.{Json}
use rtc_frameworker.Base.EventLoop.{Libev}
use rtc_frameworker.Base.LockFreeQueue.Invariant.{Inv}
use rtc_frameworker.Base.Pipe.{Pipe, send}
use rtc_frameworker.Server.Thread.{joinable, joined, join_thread-left}
use rtc_frameworker.Server.SignalingWorker.{
  SignalingWorker, quit, send_rtc_msg, stop, notify, new_connection, push_msg, rtc_msg,
}
use rtc_frameworker.Server.SignalingWorker.Lifecycle.{
  run_loop, Supply, stop_loop, process_notify, worker_recv_notify, join,
}
use rtc_frameworker.Server.SignalingWorker.Lifecycle.Clients.{conn_timer_cb-Same}
use rtc_frameworker.Server.SignalingWorker.Lifecycle.Turns.{
  Turn, Turns, io, timer, notified, answered, accepted, initial, after, counted, reads, Started,
  Waiting, Ending, moved, io-Same, Started-Same, notify-Ending, accepted-cases,
}
use rtc_frameworker.Server.SignalingWorker.Lifecycle.Stopping.{
  behind, next_read, handled, run_loop-Left,
}

module _ {ev : Libev} where
  -- The thread has left its event loop, and `join` returns.
  abbrev pub Joins : SignalingWorker ev → Type 0
  Joins w = (w.looping ≡ false) × (join w ≡ some (record w { thread = joined }))

  ended-Joins : (w : SignalingWorker ev) → w.thread ≡ joinable → w.looping ≡ false → Joins w
  unfolding join
  ended-Joins w t off =
      let e = join_thread-left w.looping w.thread off t in (off, rw (e, join) refl)

module _ {ev : Libev} (json : Json) where
  quit_read :
      (w : SignalingWorker ev) (supply : Supply) (m : ℤ) (rest : List ℤ)
      → Started w
      → w.notify_pipe.unread ≡ m ∷ rest
      → (m ==ℤ quit) ≡ true
      → (v : SignalingWorker ev) × (worker_recv_notify json w supply ≡ some v)
        × Started v
        × (v.looping ≡ false)
  unfolding process_notify stop_loop
  quit_read w supply m rest s u is_quit = (
    stop_loop (behind json w rest),
    next_read json w m rest supply u ∙ rw (is_quit, process_notify) refl,
    record {
      thread = rw (s.thread, stop_loop) refl;
      fds = s.fds;
      waits = rw (s.thread, stop_loop) s.waits;
    },
    rw (s.thread, stop_loop) refl,
  )

  -- The next notification: the worker leaves its loop, or `quit` is one place nearer.
  read-Ending :
      (n k : ℕ) (w : SignalingWorker ev) (supply : Supply) (before later : List ℤ)
      → Started w
      → w.notify_pipe.unread ≡ before ++ quit ∷ later
      → length before + k ≤ n
      → (v : SignalingWorker ev) × (worker_recv_notify json w supply ≡ some v)
        × Started v
        × Ending n (k + 1) v
  read-Ending n k w supply [] later s u short =
      let (v, e, s', l) = quit_read w supply quit later s u refl in (v, e, s', inl l)
  read-Ending n k w supply (m ∷ before) later s u short = elim (Bool-cases (m ==ℤ quit)) [
    | inl is_quit ↦
        let (v, e, s', l) = quit_read w supply m (before ++ quit ∷ later) s u is_quit in
        (v, e, s', inl l)
    | inr other ↦
        let rest = before ++ quit ∷ later in
        let (v, fds, e, pipe, thread, waits) =
          handled json (behind json w rest) s.fds m supply s.waits other in
        (
          v,
          next_read json w m rest supply u ∙ e,
          record { thread = thread ∙ s.thread; fds = fds; waits = waits },
          inr (record {
            before = before;
            later = later;
            unread = ap (λ (p : Pipe). p.unread) pipe;
            short = omega (arith, short);
          }),
        )
  ]

  notified-Ending :
      (n k : ℕ) (w w' : SignalingWorker ev) (supply : Supply)
      → w.looping ≡ true
      → worker_recv_notify json w supply ≡ some w'
      → Started w
      → Ending n k w
      → Started w' × Ending n (k + 1) w'
  notified-Ending n k w w' supply on h s (inl off) = cc
  notified-Ending n k w w' supply on h s (inr q) =
      let (v, e, s', t) = read-Ending n k w supply q.before q.later s q.unread q.short in
      let same : v ≡ w' = cc (e, h) in subst (λ u. Started u × Ending n (k + 1) u) same (s', t)

  Turn-Ending :
      (n k : ℕ) (w w' : SignalingWorker ev) (t : Turn json w w')
      → Started w
      → Ending n k w
      → Started w' × Ending n (counted json t k) w'
  unfolding send_rtc_msg push_msg notify
  Turn-Ending n k _ _ (io w w' fd events answer answers now rtc rtc' sent h) s e =
      let same = io-Same json w w' fd events answer answers now rtc rtc' sent h in
      (Started-Same w w' same s, moved n k w w' same.looping same.notify_pipe e)
  Turn-Ending n k _ _ (timer w conn now) s e =
      let same = conn_timer_cb-Same w conn now in
      (Started-Same w _ same s, moved n k w _ same.looping same.notify_pipe e)
  Turn-Ending n k _ _ (notified w w' supply on h) s e = notified-Ending n k w w' supply on h s e
  Turn-Ending n k _ _ (answered w msg) s e = (
    record { thread = s.thread; fds = s.fds; waits = s.waits },
    notify-Ending n k (push_msg w msg) rtc_msg (moved n k w (push_msg w msg) refl refl e),
  )
  Turn-Ending n k _ _ (accepted w w' fd ret h) s e =
      let (q, waits, same) = accepted-cases w w' fd ret s h in
      let v = record w { q_conn = q } in
      subst (λ u. Started u × Ending n k u) (sym same)
        (
          record { thread = s.thread; fds = s.fds ++ fd ∷ []; waits = waits },
          notify-Ending n k v new_connection (moved n k w v refl refl e),
        )

  Turns-Ending :
      (n : ℕ) (s w : SignalingWorker ev) (r : Turns json s w)
      → Started s
      → Ending n 0 s
      → Started w × Ending n (reads json r) w
  Turns-Ending n s _ initial a e = (a, e)
  Turns-Ending n s _ (after v w r t) a e =
      let (a', e') = Turns-Ending n s v r a e in Turn-Ending n (reads json r) v w t a' e'

  -- A worker whose thread was started, with a well-formed queue of connections, is told to
  -- stop, and its pipe takes that. Whatever happens behind this, in any order (events and
  -- timers of its clients whose callbacks return, replies and new connections from other
  -- threads, notifications that it reads): either it has left its event loop, and `join`
  -- returns, or it has read no more notifications than its pipe held before, and the
  -- notifications alone, read without a fault, one for each that its pipe held before and that
  -- it has not read, and one more, then bring it out of its event loop, so that `join` returns.
  -- That its thread gets to read them is not stated.
  pub stop-amid :
      (w w' : SignalingWorker ev) (fds : List ℤ) (supplies : ℕ → Supply)
      (r : Turns json (stop w) w')
      → Inv w.q_conn fds
      → w.thread ≡ joinable
      → w.notify_pipe.accepts w.notify_pipe.unread ≡ true
      → let n = length w.notify_pipe.unread in
        Joins w'
        ⊎ ((reads json r ≤ n)
            × (v : SignalingWorker ev) × (i : ℕ) × (run_loop json supplies
                  (suc (n - reads json r))
                  (w', 0)
                ≡ some (v, i))
            × Joins v)
  unfolding stop notify send
  stop-amid w w' fds supplies r waits started takes =
      let n = length w.notify_pipe.unread in
      let begun : Waiting n 0 (stop w) = record {
        before = w.notify_pipe.unread;
        later = [];
        unread = rw (takes, stop, notify, send) refl;
        short = omega arith;
      } in
      let (s, e) =
        Turns-Ending n (stop w) w' r (record { thread = started; fds = fds; waits = waits })
          (inr begun) in
      elim e [
        | inl off ↦ inl (ended-Joins w' s.thread off)
        | inr q ↦
            let (v, i, h, l, t) =
              run_loop-Left json supplies (n - reads json r) w' q.before q.later s.fds
                (omega (arith, q.short)) q.unread s.waits s.thread in
            inr (omega (arith, q.short), v, i, h, ended-Joins v t l)
      ]
