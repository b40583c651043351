-- ===== src/Server/RtcServer/Setup.antt =====
-- rtc_server.cpp, `Init`: the workers behind it, and the messages that they are then handed.
use rtc_frameworker.Prelude.{
  ℕ, ◌<◌, ◌≡◌, refl, sym, ap, ◌∙◌, ◌==◌, true, List, [], ◌∷◌, ◌++◌, some, append_assoc, append-nil,
  subst, length,
}
use rtc_frameworker.Prelude.Int.{ℤ, pos}
use rtc_frameworker.Server.Thread.{joinable}
use rtc_frameworker.Messages.{Bytes, RtcMsg, Ret, done, failed}
use rtc_frameworker.Platform.{Crc}
use rtc_frameworker.Base.Conf.{Yaml, try_all}
use rtc_frameworker.Base.LockFreeQueue.Invariant.{create-Inv}
use rtc_frameworker.Base.Pipe.{Pipe}
use rtc_frameworker.Base.Socket.{Errno, value, error}
use rtc_frameworker.Server.Hiring.{
  Pipes, proceed, rounds_of, first_error, hired, outcome, hire-hired, outcome-done, length-hired,
  hired-worker,
}
use rtc_frameworker.Server.Shares.{AllHave, keep}
use rtc_frameworker.Server.RtcWorker as Worker
use rtc_frameworker.Server.RtcWorker.{RtcWorker}
use rtc_frameworker.Server.RtcWorker.Handling.{Waits}
use rtc_frameworker.Server.RtcServer.{
  RtcServer, create, create_worker, create_workers, init_pipes, option_steps, init,
}
use rtc_frameworker.Server.RtcServer.Routing.{process_all, route, process_all-routes}

-- The worker that `create_worker` makes from a pipe: it watches the pipe, and its thread runs.
abbrev pub started : ℕ → ℤ × ℤ × Pipe → RtcWorker
started id (recv, send, pipe) = record (Worker.create id) {
  notify_recv_fd = recv;
  notify_send_fd = send;
  notify_pipe = pipe;
  pipe_watched = true;
  thread = joinable;
  looping = true;
}

abbrev pub with_workers : RtcServer → List RtcWorker → RtcServer
with_workers s ws = record s { workers = s.workers ++ ws }

create_worker-value :
    (s : RtcServer) (i : ℕ) (p : ℤ × ℤ × Pipe)
    → ◌≡◌ {A = Ret × RtcServer}
        (create_worker s i (value p))
        (done, with_workers s (started i p ∷ []))
unfolding create_worker Worker.create Worker.init Worker.start
create_worker-value s i (recv, send, pipe) = refl

create_worker-error :
    (s : RtcServer) (i : ℕ) (e : Errno)
    → ◌≡◌ {A = Ret × RtcServer} (create_worker s i (error e)) (failed, s)
unfolding create_worker Worker.create Worker.init Worker.start
create_worker-error s i e = refl

create_workers-hired :
    (n : ℕ) (pipes : ℕ → Pipes) (s : RtcServer)
    → create_workers n 0 pipes s
      ≡ (outcome (first_error n 0 pipes), with_workers s (hired started n 0 pipes))
unfolding create_workers
create_workers-hired n pipes s =
    hire-hired create_worker (λ t. started) with_workers
      (λ t xs ys. ap (λ ws. record t { workers = ws }) (append_assoc t.workers xs ys))
      (λ t. ap (λ ws. record t { workers = ws }) (append-nil t.workers)) (λ t xs. refl)
      create_worker-value create_worker-error n 0 pipes s

module _ (yaml : Yaml) where
  -- What a new server is when its configuration was loaded, its own pipe made and `ws` hired.
  abbrev pub ready : ℤ → ℤ × ℤ × Pipe → List RtcWorker → RtcServer
  ready n (recv, send, pipe) ws = record create {
    worker_num = n;
    notify_recv_fd = recv;
    notify_send_fd = send;
    inbox = record { q_msg = []; notify_pipe = pipe };
    pipe_watched = true;
    workers = ws;
  }

  loaded :
      (node : yaml.Node) (n : ℤ)
      → yaml.as_int node ("worker_num" ∷ []) ≡ some n
      → ◌≡◌ {A = Ret × RtcServer}
          (try_all (option_steps yaml node) create)
          (done, record create { worker_num = n })
  unfolding option_steps
  loaded node n o = rw o refl

  -- With a configuration that gives `worker_num`, and a pipe of its own, `Init` makes one started
  -- worker for each index in order, up to the first whose pipe(2) fails: it returns 0 exactly if
  -- none does, and else -1 with the workers before it still there.
  pub init-hired :
      (file : Bytes) (node : yaml.Node) (n : ℤ) (own : ℤ × ℤ × Pipe) (pipes : ℕ → Pipes)
      → yaml.load_file file ≡ some node
      → yaml.as_int node ("worker_num" ∷ []) ≡ some n
      → init yaml create file (value own) pipes ≡ (
        outcome (first_error (rounds_of n) 0 pipes),
        ready n own (hired started (rounds_of n) 0 pipes),
      )
  unfolding init init_pipes option_steps create
  init-hired file node n (recv, send, pipe) pipes l o =
      rw (l, init)
        (ap
            (λ (x : Ret × RtcServer).
              proceed x (λ t. init_pipes t (value (recv, send, pipe)) pipes))
            (loaded node n o)
          ∙ create_workers-hired (rounds_of n) pipes (ready n (recv, send, pipe) []))

  -- A server whose `Init` returned 0 with a configured number of at least one worker hands every
  -- message of any queue over without a fault: it has that number of workers, and each of them gets
  -- exactly the messages of the streams that hash to it, in their order.
  pub init-routes :
      (crc : Crc) (file : Bytes) (node : yaml.Node) (n : ℕ) (own : ℤ × ℤ × Pipe) (pipes : ℕ → Pipes)
      (s : RtcServer) (msgs : List RtcMsg)
      → yaml.load_file file ≡ some node
      → yaml.as_int node ("worker_num" ∷ []) ≡ some (pos n)
      → 0 < n
      → init yaml create file (value own) pipes ≡ (done, s)
      → let queued = record s { inbox = record (s.inbox) { q_msg = msgs } } in
        (s' : RtcServer) × (process_all crc msgs queued ≡ some s')
        × AllHave Waits s'.workers (λ i. keep (λ m. route crc n m == i) msgs)
        × (s'.inbox.q_msg ≡ [])
        × (length s'.workers ≡ n)
  unfolding create Worker.create
  init-routes crc file node n own pipes s msgs l o h e =
      let ws = hired started n 0 pipes in
      let r = sym (init-hired file node (pos n) own pipes l o) ∙ e in
      let none_failed =
        outcome-done (first_error n 0 pipes) (ap (λ (p : Ret × RtcServer). p.0) r) in
      let it : ready (pos n) own ws ≡ s = ap (λ (p : Ret × RtcServer). p.1) r in
      let all : AllHave Waits ws (λ i. []) = λ i w g.
        let (p, _, w_is) = hired-worker started n 0 pipes i w g in
        subst (λ v. Waits v []) (sym w_is) (create-Inv Worker.default_msg) in
      subst
        (λ t.
          (s' : RtcServer) × (process_all crc msgs
              (record t { inbox = record (t.inbox) { q_msg = msgs } })
            ≡ some s')
          × AllHave Waits s'.workers (λ i. keep (λ m. route crc n m == i) msgs)
          × (s'.inbox.q_msg ≡ [])
          × (length s'.workers ≡ n))
        it
        (process_all-routes crc
          (record (ready (pos n) own ws) {
            inbox = record ((ready (pos n) own ws).inbox) { q_msg = msgs };
          })
          n (λ i. []) h (length-hired started n 0 pipes none_failed) refl all)
