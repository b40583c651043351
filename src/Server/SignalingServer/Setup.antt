-- ===== src/Server/SignalingServer/Setup.antt =====
-- signaling_server.cpp, `Init`: the workers behind it, and the connections that they are then dealt.
use rtc_frameworker.Prelude.{
  ℕ, ◌%◌, ◌<◌, ◌≡◌, refl, sym, ap, ◌∙◌, true, List, [], ◌∷◌, ◌++◌, some, arith, length,
  append_assoc, append-nil, subst,
}
use rtc_frameworker.Prelude.Int.{ℤ, pos}
use rtc_frameworker.Server.Thread.{joinable}
use rtc_frameworker.Messages.{Bytes, Ret, done, failed}
use rtc_frameworker.Base.Conf.{Yaml, try_all}
use rtc_frameworker.Base.EventLoop.{Libev, read, creat_io_event, start_io_event}
use rtc_frameworker.Base.LockFreeQueue.Invariant.{create-Inv}
use rtc_frameworker.Base.Pipe.{Pipe}
use rtc_frameworker.Base.Socket.{Errno, ServerCalls, value, error, create_tcp_server}
use rtc_frameworker.Server.Connection.{recv_notify}
use rtc_frameworker.Server.Hiring.{
  Pipes, proceed, rounds_of, first_error, hired, outcome, hire-hired, outcome-done, length-hired,
  hired-worker,
}
use rtc_frameworker.Server.Shares.{AllHave}
use rtc_frameworker.Server.SignalingWorker.{SignalingWorker}
use rtc_frameworker.Server.SignalingWorker.Lifecycle as Lifecycle
use rtc_frameworker.Server.SignalingServer.{
  SignalingServer, create, create_worker, create_workers, init_listen, init_pipes, option_steps,
  init,
}
use rtc_frameworker.Server.SignalingServer.Dispatch.{Waits, dispatch_all, deal, dispatch_from}

module _ {ev : Libev} where
  -- The worker that `create_worker` makes from a pipe: it watches the pipe, and its thread runs.
  abbrev pub started : ℤ → ℕ → ℤ × ℤ × Pipe → SignalingWorker ev
  started timeout id (recv, send, pipe) = record (Lifecycle.create id timeout) {
    notify_recv_fd = recv;
    notify_send_fd = send;
    notify_pipe = pipe;
    pipe_watcher = some (start_io_event ev (creat_io_event ev recv_notify) recv read);
    thread = joinable;
    looping = true;
  }

  abbrev with_workers : SignalingServer ev → List (SignalingWorker ev) → SignalingServer ev
  with_workers s ws = record s { workers = s.workers ++ ws }

  create_worker-value :
      (s : SignalingServer ev) (i : ℕ) (p : ℤ × ℤ × Pipe)
      → ◌≡◌ {A = Ret × SignalingServer ev}
          (create_worker s i (value p))
          (done, with_workers s (started s.connection_timeout i p ∷ []))
  unfolding create_worker Lifecycle.create Lifecycle.init Lifecycle.start
  create_worker-value s i (recv, send, pipe) = refl

  create_worker-error :
      (s : SignalingServer ev) (i : ℕ) (e : Errno)
      → ◌≡◌ {A = Ret × SignalingServer ev} (create_worker s i (error e)) (failed, s)
  unfolding create_worker Lifecycle.create Lifecycle.init Lifecycle.start
  create_worker-error s i e = refl

  create_workers-hired :
      (n : ℕ) (pipes : ℕ → Pipes) (s : SignalingServer ev)
      → create_workers n 0 pipes s ≡ (
        outcome (first_error n 0 pipes),
        with_workers s (hired (started s.connection_timeout) n 0 pipes),
      )
  unfolding create_workers
  create_workers-hired n pipes s =
      hire-hired create_worker (λ (t : SignalingServer ev). started t.connection_timeout)
        with_workers
        (λ t xs ys. ap (λ ws. record t { workers = ws }) (append_assoc t.workers xs ys))
        (λ t. ap (λ ws. record t { workers = ws }) (append-nil t.workers)) (λ t xs. refl)
        create_worker-value create_worker-error n 0 pipes s

-- The options of a configuration.
pub record Options : Type 0 where
  pub host : Bytes
  pub port : ℤ
  pub worker_num : ℤ
  pub connection_timeout : ℤ

module _ (yaml : Yaml) where
  abbrev pub Gives : yaml.Node → Options → Type 0
  Gives node o =
      (yaml.as_string node ("host" ∷ []) ≡ some o.host)
      × (yaml.as_int node ("port" ∷ []) ≡ some o.port)
      × (yaml.as_int node ("worker_num" ∷ []) ≡ some o.worker_num)
      × (yaml.as_int node ("connection_timeout" ∷ []) ≡ some o.connection_timeout)

module _ {ev : Libev} (yaml : Yaml) where
  abbrev before : Options → ℤ × ℤ × Pipe → SignalingServer ev
  before o (recv, send, pipe) = record (create ev o.host o.port o.worker_num o.connection_timeout) {
    notify_recv_fd = recv;
    notify_send_fd = send;
    notify_pipe = pipe;
    pipe_watched = true;
  }

  -- What a new server is when its configuration was loaded, its own pipe made, `fd` listens and
  -- `ws` were hired.
  abbrev pub ready : Options → ℤ × ℤ × Pipe → ℕ → List (SignalingWorker ev) → SignalingServer ev
  ready o (recv, send, pipe) fd ws =
      record (create ev o.host o.port o.worker_num o.connection_timeout) {
        notify_recv_fd = recv;
        notify_send_fd = send;
        notify_pipe = pipe;
        pipe_watched = true;
        listen_fd = pos fd;
        conn_watched = true;
        workers = ws;
      }

  loaded :
      (node : yaml.Node) (o : Options) (host : Bytes) (port num timeout : ℤ)
      → Gives yaml node o
      → ◌≡◌ {A = Ret × SignalingServer ev}
          (try_all (option_steps {ev = ev} yaml node) (create ev host port num timeout))
          (done, create ev o.host o.port o.worker_num o.connection_timeout)
  unfolding option_steps create
  loaded node o host port num timeout (h, p, n, t) = rw (h, p, n, t) refl

  init_listen-listens :
      (s : SignalingServer ev) (calls : ServerCalls) (fd : ℕ) (pipes : ℕ → Pipes)
      → (create_tcp_server s.host calls).0 ≡ pos fd
      → init_listen s calls pipes
        ≡ create_workers
            (rounds_of s.worker_num)
            0
            pipes
            (record s { listen_fd = pos fd; conn_watched = true })
  unfolding init_listen
  init_listen-listens s calls fd pipes listens = rw (listens, init_listen) refl

  -- With a configuration that gives every option, a pipe of its own and a socket that listens,
  -- `Init` makes one started worker for each index in order, up to the first whose pipe(2) fails:
  -- it returns 0 exactly if none does, and else -1 with the workers before it still there. What
  -- the options held before is of no effect.
  pub init-hires :
      (b : ℕ) (bs : Bytes) (node : yaml.Node) (o : Options) (host : Bytes) (port num timeout : ℤ)
      (own : ℤ × ℤ × Pipe) (calls : ServerCalls) (fd : ℕ) (pipes : ℕ → Pipes)
      → yaml.load_file (b ∷ bs) ≡ some node
      → Gives yaml node o
      → (create_tcp_server o.host calls).0 ≡ pos fd
      → init yaml (create ev host port num timeout) (b ∷ bs) (value own) calls pipes ≡ (
        outcome (first_error (rounds_of o.worker_num) 0 pipes),
        ready o own fd (hired (started o.connection_timeout) (rounds_of o.worker_num) 0 pipes),
      )
  unfolding init init_pipes init_listen create
  init-hires b bs node o host port num timeout (recv, send, pipe) calls fd pipes l g listens =
      rw (l, init)
        (ap
            (λ (x : Ret × SignalingServer ev).
              proceed x (λ t. init_pipes t (value (recv, send, pipe)) calls pipes))
            (loaded node o host port num timeout g)
          ∙ init_listen-listens (before o (recv, send, pipe)) calls fd pipes listens
          ∙ create_workers-hired (rounds_of o.worker_num) pipes (ready o (recv, send, pipe) fd []))

  -- A server whose `Init` returned 0 with at least one worker deals any number of descriptors out
  -- without a fault, to its workers in turn from the first, in their order.
  pub init-deals :
      (b : ℕ) (bs : Bytes) (node : yaml.Node) (o : Options) (host : Bytes) (port num timeout : ℤ)
      (own : ℤ × ℤ × Pipe) (calls : ServerCalls) (fd n : ℕ) (pipes : ℕ → Pipes)
      (s : SignalingServer ev) (fds : List ℤ)
      → yaml.load_file (b ∷ bs) ≡ some node
      → Gives yaml node o
      → (create_tcp_server o.host calls).0 ≡ pos fd
      → o.worker_num ≡ pos n
      → 0 < n
      → init yaml (create ev host port num timeout) (b ∷ bs) (value own) calls pipes ≡ (done, s)
      → (s' : SignalingServer ev) × (dispatch_all fds s ≡ some s')
        × AllHave Waits s'.workers (deal n 0 fds (λ i. []))
        × (s'.next_worker ≡ length fds % n)
  unfolding create Lifecycle.create
  init-deals b bs node o host port num timeout own calls fd n pipes s fds l g listens num_is h e =
      let ws = hired (started {ev = ev} o.connection_timeout) n 0 pipes in
      let r =
        sym (init-hires b bs node o host port num timeout own calls fd pipes l g listens) ∙ e in
      let rounds : rounds_of o.worker_num ≡ n = ap rounds_of num_is in
      let none_failed = outcome-done (first_error n 0 pipes) (
        subst (λ k. outcome (first_error k 0 pipes) ≡ done) rounds
          (ap (λ (p : Ret × SignalingServer ev). p.0) r)) in
      let it : ready o own fd ws ≡ s =
        subst (λ k. ready o own fd (hired (started o.connection_timeout) k 0 pipes) ≡ s) rounds
          (ap (λ (p : Ret × SignalingServer ev). p.1) r) in
      let all : AllHave Waits ws (λ i. []) = λ i w f.
        let (p, _, w_is) = hired-worker (started {ev = ev} o.connection_timeout) n 0 pipes i w f in
        subst (λ v. Waits v []) (sym w_is) (create-Inv (pos 0)) in
      let many : length ws ≡ n =
        length-hired (started {ev = ev} o.connection_timeout) n 0 pipes none_failed in
      subst
        (λ (t : SignalingServer ev).
          (s' : SignalingServer ev) × (dispatch_all fds t ≡ some s')
          × AllHave Waits s'.workers (deal n 0 fds (λ i. []))
          × (s'.next_worker ≡ length fds % n))
        it
        (let (s', d, all', next, _) =
            dispatch_from n 0 (ready o own fd ws) fds (λ i. []) many refl h all in
          (s', d, all', next ∙ ap (λ k. k % n) (omega arith)))
