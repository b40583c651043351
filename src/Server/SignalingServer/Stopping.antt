-- ===== src/Server/SignalingServer/Stopping.antt =====
-- signaling_server.cpp: the notification to stop, from `stop` to the `join` calls of the workers.
use rtc_frameworker.Prelude.{
  if◌then◌else◌, not, suc, ◌≡◌, refl, sym, ap, ◌∙◌, List, [], ◌∷◌, ◌++◌, Option, none, some, length,
  true, false,
}
use rtc_frameworker.Prelude.Int.{ℤ, ◌==ℤ◌}
use rtc_frameworker.Base.EventLoop.{Libev}
use rtc_frameworker.Base.Pipe.{send}
use rtc_frameworker.Server.Dismissing.{dismiss, dismiss-Each, Each}
use rtc_frameworker.Server.SignalingWorker.Lifecycle as Lifecycle
use rtc_frameworker.Server.Receive.{◌>>=◌}
use rtc_frameworker.Server.Rounds.{rounds-End}
use rtc_frameworker.Server.Thread.{Thread, has_thread, joinable, joined, join_thread-left}
use rtc_frameworker.Server.SignalingWorker as SignalingWorker
use rtc_frameworker.Server.SignalingServer.{
  SignalingServer, quit, notify, stop, stop_loop, join, run_loop, process_notify,
  server_recv_notify, take_unread,
}

-- A worker whose thread was joined: the destructor does not terminate the program.
abbrev pub IsJoined : {ev : Libev} → SignalingWorker.SignalingWorker ev → Type 0
IsJoined {ev} w = (w.looping ≡ false) × (w.thread ≡ joined)

-- A worker whose thread leaves its event loop when it is told to.
abbrev pub Leaves :
    {ev : Libev}
    → (SignalingWorker.SignalingWorker ev → Option (SignalingWorker.SignalingWorker ev))
    → SignalingWorker.SignalingWorker ev
    → Type 0
Leaves {ev} run w =
    (v : SignalingWorker.SignalingWorker ev) × (run (SignalingWorker.stop w) ≡ some v)
    × (v.looping ≡ false)
    × (v.thread ≡ joinable)

module _ {ev : Libev}
    (run : SignalingWorker.SignalingWorker ev → Option (SignalingWorker.SignalingWorker ev))
    (workers : List (SignalingWorker.SignalingWorker ev))
    (ends : Each
      (λ w.
        (v : SignalingWorker.SignalingWorker ev) × (run (SignalingWorker.stop w) ≡ some v)
        × (v.looping ≡ false)
        × (v.thread ≡ joinable))
      workers) where
  -- Between two notifications.
  record Good (s : SignalingServer ev) : Type 0 where
    pub looping : s.looping ≡ true
    pub thread : s.thread ≡ joinable
    pub same_workers : s.workers ≡ workers

  abbrev behind : SignalingServer ev → List ℤ → SignalingServer ev
  behind s rest = record s { notify_pipe = record (s.notify_pipe) { unread = rest } }

  next_read :
      (s : SignalingServer ev) (m : ℤ) (rest : List ℤ)
      → s.notify_pipe.unread ≡ m ∷ rest
      → server_recv_notify run s ≡ process_notify run (behind s rest) m
  unfolding server_recv_notify take_unread
  next_read s m rest u = rw (u, server_recv_notify, take_unread) refl

  goes :
      (s : SignalingServer ev) (m : ℤ) (rest : List ℤ)
      → Good s
      → s.notify_pipe.unread ≡ m ∷ rest
      → (m ==ℤ quit) ≡ false
      → (s' : SignalingServer ev) × (server_recv_notify run s ≡ some s')
        × (s'.notify_pipe.unread ≡ rest)
        × Good s'
  unfolding process_notify
  goes s m rest good u other = (
    behind s rest,
    next_read s m rest u ∙ rw (other, process_notify) refl,
    refl,
    record { looping = good.looping; thread = good.thread; same_workers = good.same_workers },
  )

  -- Behind the loop: every worker was stopped and joined.
  abbrev Ended : SignalingServer ev → Type 0
  Ended s = (s.thread ≡ joinable) × (length s.workers ≡ length workers) × Each IsJoined s.workers

  joins :
      (v : SignalingWorker.SignalingWorker ev)
      → v.looping ≡ false
      → v.thread ≡ joinable
      → Lifecycle.join v ≡ some (record v { thread = joined })
  unfolding Lifecycle.join
  joins v l t =
      ap (λ (o : Option Thread). elim o [ none ↦ none | some t ↦ some (record v { thread = t }) ])
        (join_thread-left v.looping v.thread l t)

  dismissed :
      (vs : List (SignalingWorker.SignalingWorker ev)) × (dismiss SignalingWorker.stop run
          Lifecycle.join workers
        ≡ some vs)
      × (length vs ≡ length workers)
      × Each IsJoined vs
  dismissed =
      dismiss-Each SignalingWorker.stop run Lifecycle.join (Leaves run) IsJoined
        (λ w (v, e, l, t). (v, record v { thread = joined }, e, joins v l t, (l, refl))) workers
        ends

  abbrev after_stop :
      SignalingServer ev → List (SignalingWorker.SignalingWorker ev) → SignalingServer ev
  after_stop s ws = record s {
    pipe_watched = false;
    conn_watched = false;
    looping = false;
    closed = s.listen_fd ∷ s.notify_send_fd ∷ s.notify_recv_fd ∷ s.closed;
    workers = ws;
  }

  stop_loop-joins :
      (s : SignalingServer ev)
      → Good s
      → (vs : List (SignalingWorker.SignalingWorker ev)) × (stop_loop run s
          ≡ some (after_stop s vs))
        × (length vs ≡ length workers)
        × Each IsJoined vs
  unfolding stop_loop
  stop_loop-joins s good =
      let (vs, e, l, each) = dismissed in
      let e' = ap (dismiss SignalingWorker.stop run Lifecycle.join) good.same_workers ∙ e in
      (
        vs,
        ap
              (λ (t : Thread).
                if not (has_thread t)
                then some s
                else (dismiss SignalingWorker.stop run Lifecycle.join s.workers
                    >>= (λ ws. some (after_stop s ws))))
              good.thread
            ∙ ap (λ o. o >>= (λ ws. some (after_stop s ws))) e',
        l,
        each,
      )

  quits :
      (s : SignalingServer ev) (m : ℤ) (rest : List ℤ)
      → Good s
      → s.notify_pipe.unread ≡ m ∷ rest
      → (m ==ℤ quit) ≡ true
      → (s' : SignalingServer ev) × (server_recv_notify run s ≡ some s')
        × (s'.looping ≡ false)
        × Ended s'
  unfolding process_notify
  quits s m rest good u is_quit =
      let still : Good (behind s rest) = record {
        looping = good.looping;
        thread = good.thread;
        same_workers = good.same_workers;
      } in
      let (vs, e, l, each) = stop_loop-joins (behind s rest) still in
      (
        after_stop (behind s rest) vs,
        next_read s m rest u ∙ rw (is_quit, process_notify) e,
        refl,
        (good.thread, l, each),
      )

  join-left :
      (s : SignalingServer ev)
      → s.looping ≡ false
      → s.thread ≡ joinable
      → join s ≡ some (record s { thread = joined })
  unfolding join
  join-left s l t =
      ap (λ (o : Option Thread). elim o [ none ↦ none | some t ↦ some (record s { thread = t }) ])
        (join_thread-left s.looping s.thread l t)

  told :
      (s : SignalingServer ev)
      → Good s
      → s.notify_pipe.accepts s.notify_pipe.unread ≡ true
      → ((stop s).notify_pipe.unread ≡ s.notify_pipe.unread ++ quit ∷ []) × Good (stop s)
  unfolding stop notify send
  told s good takes = (
    rw (takes, stop, notify, send) refl,
    record { looping = good.looping; thread = good.thread; same_workers = good.same_workers },
  )

-- A running server whose pipe takes the notification, and whose workers each leave their event loop
-- when they are told to, stops when it is told to: after at most one event for each notification
-- before it and one more, its event loop is left, every worker was stopped and joined, and `join`
-- returns.
pub signaling_server-stops :
    {ev : Libev}
    (run : SignalingWorker.SignalingWorker ev → Option (SignalingWorker.SignalingWorker ev))
    (s : SignalingServer ev)
    → Each
        (λ w.
          (v : SignalingWorker.SignalingWorker ev) × (run (SignalingWorker.stop w) ≡ some v)
          × (v.looping ≡ false)
          × (v.thread ≡ joinable))
        s.workers
    → s.looping ≡ true
    → s.thread ≡ joinable
    → s.notify_pipe.accepts s.notify_pipe.unread ≡ true
    → (s' : SignalingServer ev) × (run_loop run (suc (length s.notify_pipe.unread)) (stop s)
        ≡ some s')
      × (s'.looping ≡ false)
      × (join s' ≡ some (record s' { thread = joined }))
      × (length s'.workers ≡ length s.workers)
      × Each IsJoined s'.workers
unfolding run_loop
signaling_server-stops {ev} run s ends l t takes =
    let ws = s.workers in
    let good : Good run ws ends s = record { looping = l; thread = t; same_workers = refl } in
    let (unread, good') = told run ws ends s good takes in
    let (s', e, off, (t', many, each)) =
      rounds-End (λ (s : SignalingServer ev). s.looping) (server_recv_notify run)
        (λ s. s.notify_pipe.unread) quit refl (Good run ws ends) (Ended run ws ends)
        (goes run ws ends) (quits run ws ends)
        (λ s good off. absurd (never (sym good.looping ∙ off))) s.notify_pipe.unread (stop s) unread
        good' in
    (s', e, off, join-left run ws ends s' off t', many, each)
  where
    never : ¬ (true ≡ false)
    never e = cc e
