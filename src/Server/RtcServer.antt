-- ===== src/Server/RtcServer.antt =====
-- xrtcserver/rtcserver/src/server/rtc_server.hpp and rtc_server.cpp: the server that hands each
-- message of its queue to the worker of the message's stream.
pub mod Routing
pub mod Setup
pub mod Stopping
use rtc_frameworker.Prelude.{
  ℕ, zero, suc, ◌+◌, ◌%◌, ◌==◌, Bool, true, false, not, ◌||◌, List, [], ◌∷◌, ◌++◌, length,
  get_elem?, set, map, Option, none, some, if◌then◌else◌,
}
use rtc_frameworker.Prelude.Int.{ℤ, pos, negsuc, size_of_int, ◌==ℤ◌}
use rtc_frameworker.Server.Dismissing.{dismiss}
use rtc_frameworker.Server.Receive.{◌>>=◌}
use rtc_frameworker.Server.Rounds.{run_rounds}
use rtc_frameworker.Server.Thread.{
  Thread, no_thread, joinable, has_thread, join_thread, delete_thread,
}
use rtc_frameworker.Messages.{Bytes, RtcMsg, Ret, done, failed}
use rtc_frameworker.Platform.{Crc}
use rtc_frameworker.Server.Hiring.{hire, proceed, rounds_of}
use rtc_frameworker.Base.Conf.{Yaml, try_all, assign}
use rtc_frameworker.Base.Pipe.{Pipe, roomy}
use rtc_frameworker.Base.Socket.{Answer, value, error, minus_one}
use rtc_frameworker.Server.Inbox.{Inbox, quit, rtc_msg, notify, pop_msg, send_rtc_msg}
use rtc_frameworker.Server.RtcWorker
use rtc_frameworker.Server.RtcWorker.{RtcWorker}

-- `pipe_watched` says whether the pipe's watcher exists.
pub record RtcServer : Type 0 where
  pub worker_num : ℤ
  pub inbox : Inbox
  pub notify_recv_fd : ℤ
  pub notify_send_fd : ℤ
  pub pipe_watched : Bool
  pub thread : Thread
  pub looping : Bool
  pub workers : List RtcWorker
  pub closed : List ℤ

unfoldable pub create : RtcServer
create = record {
  worker_num = pos 0;
  inbox = record { q_msg = []; notify_pipe = roomy };
  notify_recv_fd = minus_one;
  notify_send_fd = minus_one;
  pipe_watched = false;
  thread = no_thread;
  looping = false;
  workers = [];
  closed = [];
}

-- A worker is kept if its pipe was made and its thread started.
unfoldable pub create_worker : RtcServer → ℕ → Answer (ℤ × ℤ × Pipe) → Ret × RtcServer
create_worker s id answer =
    let (made, w) = RtcWorker.init (RtcWorker.create id) answer in
    let (started, w') = RtcWorker.start w in
    elim made [
      | failed ↦ (failed, s)
      | done ↦ elim started [
        | failed ↦ (failed, s)
        | done ↦ (done, record s { workers = s.workers ++ w' ∷ [] })
      ]
    ]

-- The loop of `Init`: the rounds, the first index, and the answers of pipe(2) by index.
unfoldable pub create_workers : ℕ → ℕ → (ℕ → Answer (ℤ × ℤ × Pipe)) → RtcServer → Ret × RtcServer
create_workers = hire create_worker

-- `Init` behind the configuration, from the answer of the server's own pipe(2).
unfoldable pub init_pipes :
    RtcServer → Answer (ℤ × ℤ × Pipe) → (ℕ → Answer (ℤ × ℤ × Pipe)) → Ret × RtcServer
init_pipes s (error e) pipes = (failed, s)
init_pipes s (value (recv, send, pipe)) pipes =
    create_workers (rounds_of s.worker_num) 0 pipes (record s {
      notify_recv_fd = recv;
      notify_send_fd = send;
      inbox = record (s.inbox) { notify_pipe = pipe };
      pipe_watched = true;
    })

module _ (yaml : Yaml) where
  pub option_steps : yaml.Node → List (RtcServer → Option RtcServer)
  option_steps n =
      assign (yaml.as_int n ("worker_num" ∷ [])) (λ s v. record s { worker_num = v }) ∷ []

  -- An empty file name is only logged: the file is loaded all the same.
  unfoldable pub init :
      RtcServer → Bytes → Answer (ℤ × ℤ × Pipe) → (ℕ → Answer (ℤ × ℤ × Pipe)) → Ret × RtcServer
  init s conf_file own pipes = elim (yaml.load_file conf_file) [
    | none ↦ (failed, s)
    | some n ↦ proceed (try_all (option_steps n) s) (λ s'. init_pipes s' own pipes)
  ]

unfoldable pub start : RtcServer → Ret × RtcServer
start s =
    if has_thread s.thread
    then (failed, s)
    else (done, record s { thread = joinable; looping = true })

unfoldable pub stop : RtcServer → RtcServer
stop s = record s { inbox = (notify s.inbox quit).0 }

-- `_stop`: what a worker's thread does once it was told to stop is an argument. `none` is a worker
-- that does not end.
unfoldable pub stop_loop : (RtcWorker → Option RtcWorker) → RtcServer → Option RtcServer
unfolding dismiss
stop_loop run s = dismiss RtcWorker.stop run RtcWorker.join s.workers >>= (λ ws. some (record s {
  pipe_watched = false;
  looping = false;
  closed = s.notify_send_fd ∷ s.notify_recv_fd ∷ s.closed;
  workers = ws;
}))

-- `none` is a call that waits for the thread.
unfoldable pub join : RtcServer → Option RtcServer
unfolding join_thread
join s = elim (join_thread s.looping s.thread) [
  | none ↦ none
  | some t ↦ some (record s { thread = t })
]

-- The destructor. `none` is std::terminate, or the loop over the workers, which goes on with an
-- iterator that its `clear` made invalid.
unfoldable pub destroy : RtcServer → Option RtcServer
unfolding delete_thread
destroy s = elim (delete_thread s.thread) [
  | none ↦ none
  | some t ↦ elim s.workers [ [] ↦ some (record s { thread = t }) | w ∷ ws ↦ none ]
]

module _ (crc : Crc) where
  -- The index of the worker that `get_worker` returns; `none` is a null pointer.
  unfoldable pub get_worker : RtcServer → Bytes → Option ℕ
  get_worker s stream_name =
      if length s.workers == 0 || not (length s.workers == size_of_int s.worker_num)
      then none
      else some (crc.compute stream_name % size_of_int s.worker_num)

  -- `worker->send_rtc_msg(msg)` for the worker at an index. `none` is a fault: an index out of
  -- range or a fault of the worker's queue.
  unfoldable pub hand_to : RtcServer → ℕ → RtcMsg → Option RtcServer
  hand_to s i msg = elim (get_elem? s.workers i) [
    | none ↦ none
    | some w ↦ elim (RtcWorker.send_rtc_msg w msg) [
      | none ↦ none
      | some (w', _) ↦ some (record s { workers = set s.workers i w' })
    ]
  ]

  -- What is done with the message that was popped.
  unfoldable pub hand_popped : RtcServer → Option RtcMsg → Option RtcServer
  hand_popped s none = some s
  hand_popped s (some msg) = elim (get_worker s msg.stream_name) [
    | none ↦ some s
    | some i ↦ hand_to s i msg
  ]

  unfoldable pub process_rtc_msg : RtcServer → Option RtcServer
  process_rtc_msg s = let (m, inbox) = pop_msg s.inbox in hand_popped (record s { inbox = inbox }) m

  module _ (run : RtcWorker → Option RtcWorker) where
    unfoldable pub process_notify : RtcServer → ℤ → Option RtcServer
    unfolding stop_loop
    process_notify s msg =
        if msg ==ℤ quit
        then stop_loop run s
        else if msg ==ℤ rtc_msg
        then process_rtc_msg s
        else some s

    take_unread : RtcServer → List ℤ → Option RtcServer
    take_unread s [] = some s
    take_unread s (msg ∷ rest) =
        process_notify
          (record s {
            inbox = record (s.inbox) {
              notify_pipe = record (s.inbox.notify_pipe) { unread = rest };
            };
          })
          msg

    -- One int is read from the pipe; a read that gets none changes nothing.
    unfoldable pub server_recv_notify : RtcServer → Option RtcServer
    unfolding take_unread
    server_recv_notify s = take_unread s s.inbox.notify_pipe.unread

    -- The thread's event loop, for at most so many events: it has its pipe only.
    unfoldable pub run_loop : ℕ → RtcServer → Option RtcServer
    run_loop = run_rounds (λ (s : RtcServer). s.looping) server_recv_notify
