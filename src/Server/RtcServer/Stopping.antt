-- ===== src/Server/RtcServer/Stopping.antt =====
-- rtc_server.cpp: the notification to stop, from `stop` to the `join` calls of the workers.
use rtc_frameworker.Prelude.{
  ℕ, suc, ◌<◌, ◌≡◌, refl, sym, ap, ◌∙◌, List, [], ◌∷◌, ◌++◌, Option, none, some, length, true,
  false, Bool-cases, length-set, List-cases, inl, inr,
}
use rtc_frameworker.Prelude.Int.{ℤ, pos, ◌==ℤ◌}
use rtc_frameworker.Messages.{RtcMsg}
use rtc_frameworker.Platform.{Crc}
use rtc_frameworker.Base.Pipe.{Pipe, send}
use rtc_frameworker.Server.Inbox.{Inbox, quit, rtc_msg, notify, pop_msg}
use rtc_frameworker.Server.Rounds.{rounds-End}
use rtc_frameworker.Server.Shares.{AllHave, snoc_at}
use rtc_frameworker.Server.Thread.{Thread, joinable, joined, join_thread-left}
use rtc_frameworker.Server.RtcWorker.{RtcWorker}
use rtc_frameworker.Server.RtcWorker.Handling.{Running, send_rtc_msg-Running}
use rtc_frameworker.Server.RtcWorker.Stopping.{drained}
use rtc_frameworker.Server.RtcWorker.Dismissed.{IsJoined, all-Each, dismissed}
use rtc_frameworker.Server.Dismissing.{Each}
use rtc_frameworker.Server.Receive.{◌>>=◌}
use rtc_frameworker.Server.RtcServer.{
  RtcServer, stop, stop_loop, join, run_loop, process_notify, process_rtc_msg, hand_popped,
  server_recv_notify, take_unread,
}
use rtc_frameworker.Server.RtcServer.Routing.{route, process_rtc_msg-handed}

module _ (crc : Crc) (n : ℕ) where
  -- Between two events: all `n` workers are there, with what waits in their queues.
  record Good (s : RtcServer) : Type 0 where
    pub looping : s.looping ≡ true
    pub thread : s.thread ≡ joinable
    pub all_there : length s.workers ≡ n
    pub configured : s.worker_num ≡ pos n
    pub shares : ℕ → List RtcMsg
    pub waits : AllHave Running s.workers shares

  abbrev behind : RtcServer → List ℤ → RtcServer
  behind s rest = record s {
    inbox = record (s.inbox) { notify_pipe = record (s.inbox.notify_pipe) { unread = rest } };
  }

  next_read :
      (s : RtcServer) (m : ℤ) (rest : List ℤ)
      → s.inbox.notify_pipe.unread ≡ m ∷ rest
      → server_recv_notify crc drained s ≡ process_notify crc drained (behind s rest) m
  unfolding server_recv_notify take_unread
  next_read s m rest u = rw (u, server_recv_notify, take_unread) refl

  pop_msg-empty : (i : Inbox) → i.q_msg ≡ [] → ◌≡◌ {A = Option RtcMsg × Inbox} (pop_msg i) (none, i)
  unfolding pop_msg
  pop_msg-empty i e =
      ap
        (λ (q : List RtcMsg). elim q [
          | [] ↦ (none, i)
          | m ∷ ms ↦ (some m, record i { q_msg = ms })
        ])
        e

  -- A notification of a message, with messages or without.
  handled :
      (s : RtcServer)
      → 0 < n
      → Good s
      → (s' : RtcServer) × (process_rtc_msg crc s ≡ some s')
        × (s'.inbox.notify_pipe ≡ s.inbox.notify_pipe)
        × Good s'
  unfolding process_rtc_msg hand_popped
  handled s h good = elim (List-cases s.inbox.q_msg) [
    | inl e ↦ (
      s,
      ap (λ (x : Option RtcMsg × Inbox). hand_popped crc (record s { inbox = x.1 }) x.0)
          (pop_msg-empty s.inbox e),
      refl,
      good,
    )
    | inr (msg, msgs, e) ↦
        let (w, f, all) =
          process_rtc_msg-handed crc Running send_rtc_msg-Running s n msg msgs good.shares h
            good.all_there good.configured e good.waits in
        (
          _,
          f,
          refl,
          record {
            looping = good.looping;
            thread = good.thread;
            all_there = length-set s.workers (route crc n msg) w ∙ good.all_there;
            configured = good.configured;
            shares = snoc_at good.shares (route crc n msg) msg;
            waits = all;
          },
        )
  ]

  kept : (s : RtcServer) (rest : List ℤ) → Good s → Good (behind s rest)
  kept s rest good = record {
    looping = good.looping;
    thread = good.thread;
    all_there = good.all_there;
    configured = good.configured;
    shares = good.shares;
    waits = good.waits;
  }

  goes :
      (s : RtcServer) (m : ℤ) (rest : List ℤ)
      → 0 < n
      → Good s
      → s.inbox.notify_pipe.unread ≡ m ∷ rest
      → (m ==ℤ quit) ≡ false
      → (s' : RtcServer) × (server_recv_notify crc drained s ≡ some s')
        × (s'.inbox.notify_pipe.unread ≡ rest)
        × Good s'
  unfolding process_notify
  goes s m rest h good u other =
      let still = kept s rest good in
      elim (Bool-cases (m ==ℤ rtc_msg)) [
        | inl request ↦
            let (s', e, pipe, good') = handled (behind s rest) h still in
            (
              s',
              next_read s m rest u ∙ rw (other, request, process_notify) e,
              ap (λ (p : Pipe). p.unread) pipe,
              good',
            )
        | inr unknown ↦ (
          behind s rest,
          next_read s m rest u ∙ rw (other, unknown, process_notify) refl,
          refl,
          still,
        )
      ]

  -- Behind the loop: every worker was stopped and joined.
  abbrev Ended : RtcServer → Type 0
  Ended s = (s.thread ≡ joinable) × (length s.workers ≡ n) × Each IsJoined s.workers

  abbrev after_stop : RtcServer → List RtcWorker → RtcServer
  after_stop s ws = record s {
    pipe_watched = false;
    looping = false;
    closed = s.notify_send_fd ∷ s.notify_recv_fd ∷ s.closed;
    workers = ws;
  }

  stop_loop-joins :
      (s : RtcServer)
      → Good s
      → (vs : List RtcWorker) × (stop_loop drained s ≡ some (after_stop s vs))
        × (length vs ≡ n)
        × Each IsJoined vs
  unfolding stop_loop
  stop_loop-joins s good =
      let (vs, e, l, each) = dismissed s.workers (all-Each s.workers good.shares good.waits) in
      (vs, ap (λ o. o >>= (λ ws. some (after_stop s ws))) e, l ∙ good.all_there, each)

  quits :
      (s : RtcServer) (m : ℤ) (rest : List ℤ)
      → Good s
      → s.inbox.notify_pipe.unread ≡ m ∷ rest
      → (m ==ℤ quit) ≡ true
      → (s' : RtcServer) × (server_recv_notify crc drained s ≡ some s')
        × (s'.looping ≡ false)
        × Ended s'
  unfolding process_notify
  quits s m rest good u is_quit =
      let (vs, e, l, each) = stop_loop-joins (behind s rest) (kept s rest good) in
      (
        after_stop (behind s rest) vs,
        next_read s m rest u ∙ rw (is_quit, process_notify) e,
        refl,
        (good.thread, l, each),
      )

  server_join-left :
      (s : RtcServer)
      → s.looping ≡ false
      → s.thread ≡ joinable
      → join s ≡ some (record s { thread = joined })
  unfolding join
  server_join-left s l t =
      ap (λ (o : Option Thread). elim o [ none ↦ none | some t ↦ some (record s { thread = t }) ])
        (join_thread-left s.looping s.thread l t)

  stopped :
      (s : RtcServer)
      → s.inbox.notify_pipe.accepts s.inbox.notify_pipe.unread ≡ true
      → (stop s).inbox.notify_pipe.unread ≡ s.inbox.notify_pipe.unread ++ quit ∷ []
  unfolding stop notify send
  stopped s takes = rw (takes, stop, notify, send) refl

  stop-Good : (s : RtcServer) → Good s → Good (stop s)
  unfolding stop notify send
  stop-Good s good = record {
    looping = good.looping;
    thread = good.thread;
    all_there = good.all_there;
    configured = good.configured;
    shares = good.shares;
    waits = good.waits;
  }

  -- A running server whose pipe takes the notification stops when it is told to, if its `n` workers
  -- run too and their pipes take every notification: after at most one event for each notification
  -- before it and one more, none of which faults, its event loop is left, all `n` workers are joined,
  -- and `join` returns.
  pub server-stops :
      (s : RtcServer) (shares : ℕ → List RtcMsg)
      → 0 < n
      → s.looping ≡ true
      → s.thread ≡ joinable
      → length s.workers ≡ n
      → s.worker_num ≡ pos n
      → AllHave Running s.workers shares
      → s.inbox.notify_pipe.accepts s.inbox.notify_pipe.unread ≡ true
      → (s' : RtcServer) × (run_loop crc drained (suc (length s.inbox.notify_pipe.unread)) (stop s)
          ≡ some s')
        × (s'.looping ≡ false)
        × (join s' ≡ some (record s' { thread = joined }))
        × (length s'.workers ≡ n)
        × Each IsJoined s'.workers
  unfolding run_loop
  server-stops s shares h l t len num all takes =
      let good : Good s = record {
        looping = l;
        thread = t;
        all_there = len;
        configured = num;
        shares = shares;
        waits = all;
      } in
      let (s', e, off, (t', many, each)) =
        rounds-End (λ (s : RtcServer). s.looping) (server_recv_notify crc drained)
          (λ s. s.inbox.notify_pipe.unread) quit refl Good Ended (λ s m rest. goes s m rest h) quits
          (λ s good off. absurd (never (sym good.looping ∙ off))) s.inbox.notify_pipe.unread
          (stop s) (stopped s takes) (stop-Good s good) in
      (s', e, off, server_join-left s' off t', many, each)
    where
      never : ¬ (true ≡ false)
      never e = cc e
