-- ===== src/Server/SignalingWorker.antt =====
-- xrtcserver/rtcserver/src/server/signaling_worker.hpp and signaling_worker.cpp: one worker thread
-- with its connections. Each function is a callback or call as a whole; the two queues that other
-- threads fill are stepped one operation at a time. Requests are in Receive, replies in Reply.
pub mod Lifecycle
pub mod Table
pub mod Replies
pub mod Invariant
pub mod Callbacks
pub mod Reachable
pub mod Serving
pub mod Accounts
pub mod Owed
pub mod Streams
pub mod Descriptors
use rtc_frameworker.Prelude.{
  ℕ, zero, suc, ◌+◌, ◌-◌, ◌*◌, ◌%◌, ◌==◌, leb, ltb, Bool, true, false, not, ◌&&◌, ◌||◌, List, [],
  ◌∷◌, ◌++◌, length, replicate, get_or, set, Option, none, some, if◌then◌else◌, ◌^◌,
}
use rtc_frameworker.Prelude.Int.{ℤ, pos, negsuc, size_of_int, ◌==ℤ◌}
use rtc_frameworker.Server.Thread.{
  Thread, no_thread, joinable, has_thread, join_thread, delete_thread,
}
use rtc_frameworker.Messages.{Bytes, RtcMsg, Ret, done, failed, cmdno_push}
use rtc_frameworker.Platform.{Json}
use rtc_frameworker.Base.EventLoop.{
  Libev, IoWatcher, read, has_read, has_write, creat_io_event, start_io_event, delete_io_event,
  creat_timer, start_timer, delete_timer,
}
use rtc_frameworker.Base.LockFreeQueue.{LockFreeQueue, produce, consume}
use rtc_frameworker.Base.Pipe.{Pipe, send}
use rtc_frameworker.Base.Socket.{Answer, Address, sock_peer_to_str}
use rtc_frameworker.Server.Connection as Connection
use rtc_frameworker.Server.Connection.{
  TcpConnection, Callback, conn_io, conn_timer, recv_notify, create,
}
use rtc_frameworker.Server.Inbox.{Inbox}
use rtc_frameworker.Server.Receive.{read_data}
use rtc_frameworker.Server.Reply.{End, write_reply, respond, on_watcher}

abbrev pub quit : ℤ
quit = pos 0

abbrev pub new_connection : ℤ
new_connection = pos 1

abbrev pub rtc_msg : ℤ
rtc_msg = pos 2

-- `closed` lists the descriptors that the worker has closed, the last first.
pub record SignalingWorker (ev : Libev) : Type 0 where
  pub worker_id : ℕ
  pub connection_timeout : ℤ
  pub pipe_watcher : Option (IoWatcher ev Callback)
  pub notify_recv_fd : ℤ
  pub notify_send_fd : ℤ
  pub notify_pipe : Pipe
  pub thread : Thread
  pub looping : Bool
  pub q_conn : LockFreeQueue ℤ
  pub conns : List (Option (TcpConnection ev))
  pub q_msg : List RtcMsg
  pub closed : List ℤ

-- The entry at an index; out of range there is none.
abbrev pub conn_at : {ev : Libev} → List (Option (TcpConnection ev)) → ℕ → Option (TcpConnection ev)
conn_at conns fd = get_or conns fd none

-- `conns_.resize(n, nullptr)` to a size that is not smaller.
abbrev pub resize :
    {ev : Libev} → List (Option (TcpConnection ev)) → ℕ → List (Option (TcpConnection ev))
resize conns n = conns ++ replicate (n - length conns) none

module _ {ev : Libev} where
  -- The calls of other threads.
  unfoldable pub notify : SignalingWorker ev → ℤ → SignalingWorker ev × Ret
  unfolding send
  notify w msg = let (p, r) = send w.notify_pipe msg in (record w { notify_pipe = p }, r)

  unfoldable pub stop : SignalingWorker ev → SignalingWorker ev
  unfolding notify
  stop w = (notify w quit).0

  unfoldable pub push_msg : SignalingWorker ev → RtcMsg → SignalingWorker ev
  push_msg w msg = record w { q_msg = w.q_msg ++ msg ∷ [] }

  unfoldable pub pop_msg : SignalingWorker ev → Option RtcMsg × SignalingWorker ev
  pop_msg w = elim w.q_msg [ [] ↦ (none, w) | m ∷ ms ↦ (some m, record w { q_msg = ms }) ]

  unfoldable pub send_rtc_msg : SignalingWorker ev → RtcMsg → SignalingWorker ev × Ret
  unfolding push_msg notify
  send_rtc_msg w msg = notify (push_msg w msg) rtc_msg

  -- `none` is a fault of the queue.
  unfoldable pub notify_new_conn : SignalingWorker ev → ℤ → Option (SignalingWorker ev × Ret)
  unfolding notify
  notify_new_conn w fd = elim (produce w.q_conn fd) [
    | none ↦ none
    | some q ↦ some (notify (record w { q_conn = q }) new_connection)
  ]

  -- The object that `new TcpConnection` and the calls after it make of a descriptor.
  unfoldable pub open_conn : (addr fd now : ℕ) → Answer Address → TcpConnection ev
  unfolding create sock_peer_to_str
  open_conn addr fd now peer =
      let (host, port, _) = sock_peer_to_str peer [] 0 in
      record (create ev addr fd port now) {
        host = host;
        io_watcher = some (start_io_event ev (creat_io_event ev conn_io) (pos fd) read);
        timer_watcher = some (start_timer ev (creat_timer ev (conn_timer addr) true) 100000);
      }

  -- `addr` is what the allocator returns and `peer` what getpeername answers. The results of making
  -- the socket non-blocking and without delay are not looked at.
  unfoldable pub new_conn :
      SignalingWorker ev → ℤ → (addr now : ℕ) → Answer Address → SignalingWorker ev
  unfolding open_conn
  new_conn w (negsuc n) addr now peer = w
  new_conn w (pos fd) addr now peer =
      let conns = if leb (length w.conns) fd then resize w.conns (fd * 2) else w.conns in
      record w { conns = set conns fd (some (open_conn addr fd now peer)) }

  -- The worker, and the connection as it is when it is deleted: its watchers are stopped
  -- and its buffer is freed.
  unfoldable pub close_conn :
      SignalingWorker ev → TcpConnection ev → SignalingWorker ev × TcpConnection ev
  unfolding Connection.destroy
  close_conn w conn = (
    record w { conns = set w.conns conn.fd none; closed = pos conn.fd ∷ w.closed },
    Connection.destroy (record conn {
      timer_watcher = on_watcher (delete_timer ev) conn.timer_watcher;
      io_watcher = on_watcher (delete_io_event ev) conn.io_watcher;
    }),
  )

  -- `now() - last >= (unsigned long)timeout`, in 64 bits.
  unfoldable pub is_timed_out : SignalingWorker ev → TcpConnection ev → ℕ → Bool
  is_timed_out w conn now =
      leb (size_of_int w.connection_timeout) ((now + 2 ^ 64 - conn.last_interaction_time) % 2 ^ 64)

  unfoldable pub process_timeout : SignalingWorker ev → TcpConnection ev → ℕ → SignalingWorker ev
  unfolding is_timed_out close_conn
  process_timeout w conn now = if is_timed_out w conn now then (close_conn w conn).0 else w

  -- The timer's `data` is the connection.
  unfoldable pub conn_timer_cb : SignalingWorker ev → TcpConnection ev → ℕ → SignalingWorker ev
  unfolding process_timeout
  conn_timer_cb w conn now = process_timeout w conn now

  -- `answers` are the kernel's to the writes of the loop.
  unfoldable pub write_reply_to :
      SignalingWorker ev → ℤ → List (Answer ℕ) → ℕ → SignalingWorker ev × Bytes
  unfolding write_reply
  write_reply_to w (negsuc n) answers now = (w, [])
  write_reply_to w (pos zero) answers now = (w, [])
  write_reply_to w (pos (suc n)) answers now = elim (conn_at w.conns (suc n)) [
    | none ↦ (w, [])
    | some conn ↦
        let (_, conn', sent) = write_reply conn answers now in
        (record w { conns = set w.conns (suc n) (some conn') }, sent)
  ]

  module _ (json : Json) where
    -- `none` is a loop over the query buffer that runs on.
    unfoldable pub read_query :
        SignalingWorker ev → ℤ → Answer Bytes → ℕ → Inbox → Option (SignalingWorker ev × Inbox)
    unfolding close_conn
    read_query w (negsuc n) answer now rtc = some (w, rtc)
    read_query w (pos fd) answer now rtc = elim (conn_at w.conns fd) [
      | none ↦ some (w, rtc)
      | some conn ↦ elim (read_data json w.worker_id conn answer now rtc) [
        | none ↦ none
        | some (conn', rtc', closing) ↦
            if closing
            then some ((close_conn w conn').0, rtc')
            else some (record w { conns = set w.conns fd (some conn') }, rtc')
      ]
    ]

    -- What the kernel answers to one connection event: the read, and the writes behind it.
    unfoldable pub conn_io_cb :
        SignalingWorker ev
        → ℤ
        → ℕ
        → Answer Bytes
        → List (Answer ℕ)
        → ℕ
        → Inbox
        → Option (SignalingWorker ev × Inbox × Bytes)
    unfolding read_query write_reply_to
    conn_io_cb w fd events answer answers now rtc =
        elim (if has_read events then read_query w fd answer now rtc else some (w, rtc)) [
          | none ↦ none
          | some (w', rtc') ↦
              let (w'', sent) = write_reply_to w' fd answers now in
              if has_write events then some (w'', rtc', sent) else some (w', rtc', [])
        ]

    unfoldable pub response_server_offer :
        SignalingWorker ev → RtcMsg → Option Bytes → SignalingWorker ev
    unfolding respond
    response_server_offer w msg block = elim msg.conn [
      | none ↦ w
      | some addr ↦ elim msg.fd [
        | negsuc n ↦ w
        | pos fd ↦ elim (conn_at w.conns fd) [
          | none ↦ w
          | some conn ↦
              if conn.addr == addr
              then record w { conns = set w.conns fd (some (respond json conn msg block)) }
              else w
        ]
      ]
    ]

    unfoldable pub process_rtc_msg : SignalingWorker ev → Option Bytes → SignalingWorker ev
    unfolding pop_msg response_server_offer
    process_rtc_msg w block = elim (pop_msg w).0 [
      | none ↦ w
      | some msg ↦
          if msg.cmdno ==ℤ pos cmdno_push
          then response_server_offer (pop_msg w).1 msg block
          else (pop_msg w).1
    ]
