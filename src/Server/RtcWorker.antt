-- ===== src/Server/RtcWorker.antt =====
-- xrtcserver/rtcserver/src/server/rtc_worker.hpp and rtc_worker.cpp: a thread that handles the
-- requests of the streams that hash to it. What it sends back to a signaling worker is returned:
-- the worker's index with the message.
pub mod Handling
pub mod Stopping
pub mod Dismissed
use rtc_frameworker.Prelude.{
  ℕ, zero, suc, ◌==◌, Bool, true, false, not, List, [], ◌∷◌, ◌++◌, Option, none, some,
  if◌then◌else◌, codes,
}
use rtc_frameworker.Prelude.Int.{ℤ, pos, negsuc, ◌==ℤ◌}
use rtc_frameworker.Server.Rounds.{run_rounds}
use rtc_frameworker.Server.Thread.{
  Thread, no_thread, joinable, has_thread, join_thread, delete_thread,
}
use rtc_frameworker.Messages.{Bytes, RtcMsg, Ret, done, failed, cmdno_push}
use rtc_frameworker.Base.LockFreeQueue.{LockFreeQueue, produce, consume}
use rtc_frameworker.Base.LockFreeQueue as Queue
use rtc_frameworker.Base.Pipe.{Pipe, roomy, send}
use rtc_frameworker.Base.Socket.{Answer, value, error, minus_one}

abbrev pub quit : ℤ
quit = pos 0

abbrev pub rtc_msg : ℤ
rtc_msg = pos 1

-- `pipe_watched` says whether the pipe's watcher exists.
pub record RtcWorker : Type 0 where
  pub worker_id : ℕ
  pub notify_recv_fd : ℤ
  pub notify_send_fd : ℤ
  pub notify_pipe : Pipe
  pub pipe_watched : Bool
  pub thread : Thread
  pub looping : Bool
  pub q_msg : LockFreeQueue RtcMsg
  pub closed : List ℤ

-- `RtcMsg{}`, as xrtcserver_def.hpp initialises it.
abbrev pub default_msg : RtcMsg
default_msg = record {
  cmdno = minus_one;
  uid = 0;
  stream_name = [];
  audio = pos 0;
  video = pos 0;
  log_id = 0;
  worker = none;
  conn = none;
  sdp = [];
  err_no = pos 0;
  fd = pos 0;
}

unfoldable pub create : ℕ → RtcWorker
create worker_id = record {
  worker_id = worker_id;
  notify_recv_fd = minus_one;
  notify_send_fd = minus_one;
  notify_pipe = roomy;
  pipe_watched = false;
  thread = no_thread;
  looping = false;
  q_msg = Queue.create default_msg;
  closed = [];
}

unfoldable pub init : RtcWorker → Answer (ℤ × ℤ × Pipe) → Ret × RtcWorker
init w (error e) = (failed, w)
init w (value (recv, send, pipe)) = (
  done,
  record w {
    notify_recv_fd = recv;
    notify_send_fd = send;
    notify_pipe = pipe;
    pipe_watched = true;
  },
)

unfoldable pub start : RtcWorker → Ret × RtcWorker
start w =
    if has_thread w.thread
    then (failed, w)
    else (done, record w { thread = joinable; looping = true })

unfoldable pub notify : RtcWorker → ℤ → RtcWorker × Ret
unfolding send
notify w msg = let (p, r) = send w.notify_pipe msg in (record w { notify_pipe = p }, r)

unfoldable pub stop : RtcWorker → RtcWorker
unfolding notify
stop w = (notify w quit).0

unfoldable pub stop_loop : RtcWorker → RtcWorker
stop_loop w = if not (has_thread w.thread) then w else record w {
  pipe_watched = false;
  looping = false;
  closed = w.notify_send_fd ∷ w.notify_recv_fd ∷ w.closed;
}

-- `none` is a fault of the queue.
unfoldable pub push_msg : RtcWorker → RtcMsg → Option RtcWorker
push_msg w msg = elim (produce w.q_msg msg) [ none ↦ none | some q ↦ some (record w { q_msg = q }) ]

unfoldable pub pop_msg : RtcWorker → Option (Option RtcMsg × RtcWorker)
pop_msg w = elim (consume w.q_msg) [ none ↦ none | some (m, q) ↦ some (m, record w { q_msg = q }) ]

unfoldable pub send_rtc_msg : RtcWorker → RtcMsg → Option (RtcWorker × Ret)
unfolding notify
send_rtc_msg w msg = elim (push_msg w msg) [ none ↦ none | some w' ↦ some (notify w' rtc_msg) ]

abbrev pub offer : Bytes
offer = codes "offer"

abbrev addressed : Option ℕ → RtcMsg → Option (ℕ × RtcMsg)
addressed none msg = none
addressed (some worker) msg = some (worker, msg)

unfoldable pub process_push : RtcMsg → Option (ℕ × RtcMsg)
process_push msg = addressed msg.worker (record msg { sdp = offer })

unfoldable pub process_rtc_msg : RtcWorker → Option (RtcWorker × Option (ℕ × RtcMsg))
unfolding process_push
process_rtc_msg w = elim (pop_msg w) [
  | none ↦ none
  | some (m, w') ↦ elim m [
    | none ↦ some (w', none)
    | some msg ↦ some (w', if msg.cmdno ==ℤ pos cmdno_push then process_push msg else none)
  ]
]

unfoldable pub process_notify : RtcWorker → ℤ → Option (RtcWorker × Option (ℕ × RtcMsg))
unfolding stop_loop
process_notify w msg =
    if msg ==ℤ quit
    then some (stop_loop w, none)
    else if msg ==ℤ rtc_msg
    then process_rtc_msg w
    else some (w, none)

take_unread : RtcWorker → List ℤ → Option (RtcWorker × Option (ℕ × RtcMsg))
take_unread w [] = some (w, none)
take_unread w (msg ∷ rest) =
    process_notify (record w { notify_pipe = record (w.notify_pipe) { unread = rest } }) msg

-- One int is read from the pipe; a read that gets none changes nothing.
unfoldable pub worker_recv_notify : RtcWorker → Option (RtcWorker × Option (ℕ × RtcMsg))
unfolding take_unread
worker_recv_notify w = take_unread w w.notify_pipe.unread

-- `none` is a call that waits for the thread.
unfoldable pub join : RtcWorker → Option RtcWorker
unfolding join_thread
join w = elim (join_thread w.looping w.thread) [
  | none ↦ none
  | some t ↦ some (record w { thread = t })
]

-- The destructor: `none` is std::terminate.
unfoldable pub destroy : RtcWorker → Option RtcWorker
unfolding delete_thread
destroy w = elim (delete_thread w.thread) [ none ↦ none | some t ↦ some (record w { thread = t }) ]

-- A worker with what it has sent to the signaling workers so far.
abbrev pub Sending : Type 0
Sending = RtcWorker × List (ℕ × RtcMsg)

abbrev listed : Option (ℕ × RtcMsg) → List (ℕ × RtcMsg)
listed none = []
listed (some m) = m ∷ []

abbrev pub sent_by : List (ℕ × RtcMsg) → RtcWorker × Option (ℕ × RtcMsg) → Sending
sent_by sent (w, m) = (w, sent ++ listed m)

-- One event of the thread's loop: it reads its pipe. `none` is a fault.
abbrev pub next_event : Sending → Option Sending
next_event (w, sent) = elim (worker_recv_notify w) [ none ↦ none | some r ↦ some (sent_by sent r) ]

-- The thread's event loop, for at most so many events.
unfoldable pub run_loop : ℕ → Sending → Option Sending
run_loop = run_rounds (λ (p : Sending). p.0.looping) next_event
