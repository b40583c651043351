-- ===== src/Server/SignalingWorker/Lifecycle.antt =====
-- signaling_worker.cpp: construction, the thread, and the notifications that drive a worker.
pub mod Clients
pub mod Stopping
pub mod Turns
pub mod Amid
use rtc_frameworker.Prelude.{
  ℕ, ◌+◌, true, false, not, List, [], ◌∷◌, Option, none, some, if◌then◌else◌,
}
use rtc_frameworker.Prelude.Int.{ℤ, pos, ◌==ℤ◌}
use rtc_frameworker.Server.Rounds.{run_rounds}
use rtc_frameworker.Server.Thread.{no_thread, joinable, has_thread, join_thread, delete_thread}
use rtc_frameworker.Messages.{Bytes, Ret, done, failed}
use rtc_frameworker.Platform.{Json}
use rtc_frameworker.Base.EventLoop.{Libev, read, creat_io_event, start_io_event, delete_io_event}
use rtc_frameworker.Base.LockFreeQueue.{LockFreeQueue, consume}
use rtc_frameworker.Base.LockFreeQueue as Queue
use rtc_frameworker.Base.Pipe.{Pipe, roomy}
use rtc_frameworker.Base.Socket.{Answer, Address, value, error, minus_one}
use rtc_frameworker.Server.Connection.{TcpConnection, recv_notify}
use rtc_frameworker.Server.Reply.{on_watcher}
use rtc_frameworker.Server.SignalingWorker.{
  SignalingWorker, quit, new_connection, rtc_msg, new_conn, close_conn, process_rtc_msg,
}

-- What a notification may need: the allocator's next address, the time, the answer of getpeername
-- and the block of zmalloc.
pub record Supply : Type 0 where
  pub addr : ℕ
  pub now : ℕ
  pub peer : Answer Address
  pub block : Option Bytes

module _ {ev : Libev} where
  unfoldable pub create : (worker_id : ℕ) (timeout : ℤ) → SignalingWorker ev
  create worker_id timeout = record {
    worker_id = worker_id;
    connection_timeout = timeout;
    pipe_watcher = none;
    notify_recv_fd = minus_one;
    notify_send_fd = minus_one;
    notify_pipe = roomy;
    thread = no_thread;
    looping = false;
    q_conn = Queue.create (pos 0);
    conns = [];
    q_msg = [];
    closed = [];
  }

  -- From the answer of pipe(2): the two descriptors with the pipe between them.
  unfoldable pub init : SignalingWorker ev → Answer (ℤ × ℤ × Pipe) → Ret × SignalingWorker ev
  init w (error e) = (failed, w)
  init w (value (recv, send, pipe)) = (
    done,
    record w {
      notify_recv_fd = recv;
      notify_send_fd = send;
      notify_pipe = pipe;
      pipe_watcher = some (start_io_event ev (creat_io_event ev recv_notify) recv read);
    },
  )

  -- The new thread runs the event loop.
  unfoldable pub start : SignalingWorker ev → Ret × SignalingWorker ev
  start w =
      if has_thread w.thread
      then (failed, w)
      else (done, record w { thread = joinable; looping = true })

  unfoldable pub stop_loop : SignalingWorker ev → SignalingWorker ev
  stop_loop w = if not (has_thread w.thread) then w else record w {
    pipe_watcher = on_watcher (delete_io_event ev) w.pipe_watcher;
    looping = false;
    closed = w.notify_send_fd ∷ w.notify_recv_fd ∷ w.closed;
  }

  -- The destructor's loop: every connection that is left is closed.
  pub close_all : List (Option (TcpConnection ev)) → SignalingWorker ev → SignalingWorker ev
  close_all [] w = w
  close_all (none ∷ conns) w = close_all conns w
  close_all (some conn ∷ conns) w = close_all conns (close_conn w conn).0

  -- `none` is a call that waits for the thread.
  unfoldable pub join : SignalingWorker ev → Option (SignalingWorker ev)
  unfolding join_thread
  join w = elim (join_thread w.looping w.thread) [
    | none ↦ none
    | some t ↦ some (record w { thread = t })
  ]

  -- `none` is std::terminate.
  unfoldable pub destroy : SignalingWorker ev → Option (SignalingWorker ev)
  unfolding close_all delete_thread
  destroy w = elim (delete_thread w.thread) [
    | none ↦ none
    | some t ↦ some (record (close_all w.conns w) { conns = []; thread = t })
  ]

  module _ (json : Json) where
    -- `none` is a fault of the queue of new connections.
    unfoldable pub process_notify : SignalingWorker ev → ℤ → Supply → Option (SignalingWorker ev)
    unfolding stop_loop
    process_notify w msg supply =
        if msg ==ℤ quit
        then some (stop_loop w)
        else if msg ==ℤ new_connection
        then elim (consume w.q_conn) [
          | none ↦ none
          | some (none, q) ↦ some (record w { q_conn = q })
          | some (some fd, q) ↦
              some (new_conn (record w { q_conn = q }) fd supply.addr supply.now supply.peer)
        ]
        else if msg ==ℤ rtc_msg
        then some (process_rtc_msg json w supply.block)
        else some w

    take_unread : SignalingWorker ev → List ℤ → Supply → Option (SignalingWorker ev)
    unfolding process_notify
    take_unread w [] supply = some w
    take_unread w (msg ∷ rest) supply =
        process_notify (record w { notify_pipe = record (w.notify_pipe) { unread = rest } }) msg
          supply

    -- One int is read from the pipe; a read that gets none changes nothing.
    unfoldable pub worker_recv_notify : SignalingWorker ev → Supply → Option (SignalingWorker ev)
    unfolding take_unread
    worker_recv_notify w supply = take_unread w w.notify_pipe.unread supply

    -- The notifications that the thread's event loop handles, at most so many, with what the `i`-th
    -- of them may need. `none` is a fault.
    abbrev pub next_notified :
        (ℕ → Supply) → SignalingWorker ev × ℕ → Option (SignalingWorker ev × ℕ)
    next_notified supplies (w, i) = elim (worker_recv_notify w (supplies i)) [
      | none ↦ none
      | some w' ↦ some (w', i + 1)
    ]

    unfoldable pub run_loop :
        (ℕ → Supply) → ℕ → SignalingWorker ev × ℕ → Option (SignalingWorker ev × ℕ)
    run_loop supplies =
        run_rounds (λ (p : SignalingWorker ev × ℕ). p.0.looping) (next_notified supplies)
