-- ===== src/Server/SignalingServer.antt =====
-- xrtcserver/rtcserver/src/server/signaling_server.hpp and signaling_server.cpp: the server that
-- accepts connections and deals them out to its workers.
pub mod Dispatch
pub mod Setup
pub mod Stopping
use rtc_frameworker.Prelude.{
  ℕ, zero, suc, ◌+◌, ◌==◌, leb, Bool, true, false, not, List, [], ◌∷◌, ◌++◌, length, get_elem?, set,
  map, Option, none, some, if◌then◌else◌,
}
use rtc_frameworker.Prelude.Int.{ℤ, pos, negsuc, ◌==ℤ◌}
use rtc_frameworker.Server.Dismissing.{dismiss}
use rtc_frameworker.Server.Receive.{◌>>=◌}
use rtc_frameworker.Server.Rounds.{run_rounds}
use rtc_frameworker.Server.Thread.{
  Thread, no_thread, joinable, has_thread, join_thread, delete_thread,
}
use rtc_frameworker.Messages.{Bytes, Ret, done, failed}
use rtc_frameworker.Server.Hiring.{hire, proceed, rounds_of}
use rtc_frameworker.Base.Conf.{Yaml, try_all, assign}
use rtc_frameworker.Base.EventLoop.{Libev}
use rtc_frameworker.Base.Pipe.{Pipe, roomy, send}
use rtc_frameworker.Base.Socket.{
  Answer, Address, ServerCalls, value, error, minus_one, create_tcp_server, tcp_accept,
}
use rtc_frameworker.Server.SignalingWorker
use rtc_frameworker.Server.SignalingWorker.{SignalingWorker, notify_new_conn}
use rtc_frameworker.Server.SignalingWorker.Lifecycle

abbrev pub quit : ℤ
quit = pos 0

-- `watched` says whether the watchers of the pipe and of the listening socket exist.
pub record SignalingServer (ev : Libev) : Type 0 where
  pub host : Bytes
  pub port : ℤ
  pub worker_num : ℤ
  pub connection_timeout : ℤ
  pub notify_recv_fd : ℤ
  pub notify_send_fd : ℤ
  pub notify_pipe : Pipe
  pub listen_fd : ℤ
  pub pipe_watched : Bool
  pub conn_watched : Bool
  pub thread : Thread
  pub looping : Bool
  pub workers : List (SignalingWorker ev)
  pub next_worker : ℕ
  pub closed : List ℤ

module _ (ev : Libev) where
  -- The options are uninitialised: an argument gives what they hold.
  unfoldable pub create :
      (host : Bytes) (port worker_num connection_timeout : ℤ) → SignalingServer ev
  create host port worker_num connection_timeout = record {
    host = host;
    port = port;
    worker_num = worker_num;
    connection_timeout = connection_timeout;
    notify_recv_fd = minus_one;
    notify_send_fd = minus_one;
    notify_pipe = roomy;
    listen_fd = minus_one;
    pipe_watched = false;
    conn_watched = false;
    thread = no_thread;
    looping = false;
    workers = [];
    next_worker = 0;
    closed = [];
  }

module _ {ev : Libev} where
  -- A worker is kept if its pipe was made and its thread started.
  unfoldable pub create_worker :
      SignalingServer ev → ℕ → Answer (ℤ × ℤ × Pipe) → Ret × SignalingServer ev
  create_worker s id answer =
      let (made, w) = Lifecycle.init (Lifecycle.create id s.connection_timeout) answer in
      let (started, w') = Lifecycle.start w in
      elim made [
        | failed ↦ (failed, s)
        | done ↦ elim started [
          | failed ↦ (failed, s)
          | done ↦ (done, record s { workers = s.workers ++ w' ∷ [] })
        ]
      ]

  -- The loop of `Init`: the rounds, the first index, and the answers of pipe(2) by index.
  unfoldable pub create_workers :
      ℕ → ℕ → (ℕ → Answer (ℤ × ℤ × Pipe)) → SignalingServer ev → Ret × SignalingServer ev
  create_workers = hire create_worker

  -- `Init` behind the pipe: the listening socket and the workers.
  unfoldable pub init_listen :
      SignalingServer ev → ServerCalls → (ℕ → Answer (ℤ × ℤ × Pipe)) → Ret × SignalingServer ev
  init_listen s calls pipes = elim (create_tcp_server s.host calls).0 [
    | negsuc n ↦ (failed, record s { listen_fd = negsuc n })
    | pos fd ↦
        create_workers (rounds_of s.worker_num) 0 pipes
          (record s { listen_fd = pos fd; conn_watched = true })
  ]

  -- `Init` behind the configuration, from the answer of the server's own pipe(2).
  unfoldable pub init_pipes :
      SignalingServer ev
      → Answer (ℤ × ℤ × Pipe)
      → ServerCalls
      → (ℕ → Answer (ℤ × ℤ × Pipe))
      → Ret × SignalingServer ev
  init_pipes s (error e) calls pipes = (failed, s)
  init_pipes s (value (recv, send, pipe)) calls pipes =
      init_listen
        (record s {
          notify_recv_fd = recv;
          notify_send_fd = send;
          notify_pipe = pipe;
          pipe_watched = true;
        })
        calls pipes

  module _ (yaml : Yaml) where
    pub option_steps : yaml.Node → List (SignalingServer ev → Option (SignalingServer ev))
    option_steps n =
        assign (yaml.as_string n ("host" ∷ [])) (λ s v. record s { host = v })
        ∷ assign (yaml.as_int n ("port" ∷ [])) (λ s v. record s { port = v })
        ∷ assign (yaml.as_int n ("worker_num" ∷ [])) (λ s v. record s { worker_num = v })
        ∷ assign (yaml.as_int n ("connection_timeout" ∷ []))
            (λ s v. record s { connection_timeout = v })
        ∷ []

    unfoldable pub init :
        SignalingServer ev
        → Bytes
        → Answer (ℤ × ℤ × Pipe)
        → ServerCalls
        → (ℕ → Answer (ℤ × ℤ × Pipe))
        → Ret × SignalingServer ev
    init s [] own calls pipes = (failed, s)
    init s (b ∷ bs) own calls pipes = elim (yaml.load_file (b ∷ bs)) [
      | none ↦ (failed, s)
      | some n ↦ proceed (try_all (option_steps n) s) (λ s'. init_pipes s' own calls pipes)
    ]

  unfoldable pub start : SignalingServer ev → Ret × SignalingServer ev
  start s =
      if has_thread s.thread
      then (failed, s)
      else (done, record s { thread = joinable; looping = true })

  unfoldable pub notify : SignalingServer ev → ℤ → SignalingServer ev × Ret
  unfolding send
  notify s msg = let (p, r) = send s.notify_pipe msg in (record s { notify_pipe = p }, r)

  unfoldable pub stop : SignalingServer ev → SignalingServer ev
  unfolding notify
  stop s = (notify s quit).0

  -- `_stop`: what a worker's thread does once it was told to stop is an argument. `none` is a
  -- worker that does not end.
  unfoldable pub stop_loop :
      (SignalingWorker ev → Option (SignalingWorker ev))
      → SignalingServer ev
      → Option (SignalingServer ev)
  unfolding dismiss
  stop_loop run s =
      let dismissed = dismiss SignalingWorker.stop run Lifecycle.join s.workers in
      if not (has_thread s.thread)
      then some s
      else dismissed >>= (λ ws. some (record s {
        pipe_watched = false;
        conn_watched = false;
        looping = false;
        closed = s.listen_fd ∷ s.notify_send_fd ∷ s.notify_recv_fd ∷ s.closed;
        workers = ws;
      }))

  -- `none` is a call that waits for the thread.
  unfoldable pub join : SignalingServer ev → Option (SignalingServer ev)
  unfolding join_thread
  join s = elim (join_thread s.looping s.thread) [
    | none ↦ none
    | some t ↦ some (record s { thread = t })
  ]

  -- `delete worker` for each of them.
  delete_workers : List (SignalingWorker ev) → Option (List (SignalingWorker ev))
  delete_workers [] = some []
  delete_workers (w ∷ ws) = elim (Lifecycle.destroy w) [ none ↦ none | some w' ↦ delete_workers ws ]

  -- The destructor, with the destructors of the workers: `none` is std::terminate.
  unfoldable pub destroy : SignalingServer ev → Option (SignalingServer ev)
  unfolding delete_thread delete_workers
  destroy s = elim (delete_thread s.thread) [
    | none ↦ none
    | some t ↦ elim (delete_workers s.workers) [
      | none ↦ none
      | some ws ↦ some (record s { thread = t; workers = [] })
    ]
  ]

  module _ (run : SignalingWorker ev → Option (SignalingWorker ev)) where
    unfoldable pub process_notify : SignalingServer ev → ℤ → Option (SignalingServer ev)
    unfolding stop_loop
    process_notify s msg = if msg ==ℤ quit then stop_loop run s else some s

    take_unread : SignalingServer ev → List ℤ → Option (SignalingServer ev)
    take_unread s [] = some s
    take_unread s (msg ∷ rest) =
        process_notify (record s { notify_pipe = record (s.notify_pipe) { unread = rest } }) msg

    -- One int is read from the pipe; a read that gets none changes nothing.
    unfoldable pub server_recv_notify : SignalingServer ev → Option (SignalingServer ev)
    unfolding take_unread
    server_recv_notify s = take_unread s s.notify_pipe.unread

    -- The notifications that the thread's event loop handles, at most so many.
    unfoldable pub run_loop : ℕ → SignalingServer ev → Option (SignalingServer ev)
    run_loop = run_rounds (λ (s : SignalingServer ev). s.looping) server_recv_notify

  -- `none` is a fault: the index is out of the vector's range, or the worker's queue faults.
  unfoldable pub dispatch_conn : SignalingServer ev → ℤ → Option (SignalingServer ev)
  dispatch_conn s fd =
      let index = s.next_worker in
      let next = if leb (length s.workers) (index + 1) then 0 else index + 1 in
      elim (get_elem? s.workers index) [
        | none ↦ none
        | some w ↦ elim (notify_new_conn w fd) [
          | none ↦ none
          | some (w', _) ↦ some (record s { workers = set s.workers index w'; next_worker = next })
        ]
      ]

  -- The callback of the listening socket, from accept's answers and the client's address.
  unfoldable pub accept_new_conn :
      SignalingServer ev → List (Answer ℕ) → Address → Option (SignalingServer ev)
  accept_new_conn s answers client = elim (tcp_accept answers client).0 [
    | negsuc n ↦ some s
    | pos cfd ↦ dispatch_conn s (pos cfd)
  ]
