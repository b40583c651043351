-- ===== src/Server/Journey.antt =====
-- The way of one push request through signaling_worker.cpp, rtc_server.cpp and rtc_worker.cpp and
-- of its answer back to the client, with each thread's part of it in turn.
pub mod Reading
pub mod Request
pub mod Answering
pub mod Arrival
use rtc_frameworker.Prelude.{ℕ, List, [], Option, none, some, ◌==◌, get_elem?, if◌then◌else◌, ◌∷◌}
use rtc_frameworker.Prelude.Int.{ℤ, pos}
use rtc_frameworker.Messages.{Bytes, RtcMsg}
use rtc_frameworker.Platform.{Json, Crc}
use rtc_frameworker.Base.EventLoop.{Libev, read, write}
use rtc_frameworker.Base.Socket.{Answer, value}
use rtc_frameworker.Server.Inbox.{Inbox}
use rtc_frameworker.Server.Receive.{◌>>=◌}
use rtc_frameworker.Server.Receive.Reads.{Read, chunk}
use rtc_frameworker.Server.SignalingWorker.{
  SignalingWorker, conn_io_cb, send_rtc_msg, process_rtc_msg,
}
use rtc_frameworker.Server.RtcServer as Rtc
use rtc_frameworker.Server.RtcServer.{RtcServer}
use rtc_frameworker.Server.RtcWorker as RtcWorker

module _ {ev : Libev} (json : Json) where
  -- The read events of one connection in turn.
  pub read_each : List Read → SignalingWorker ev → ℕ → Inbox → Option (SignalingWorker ev × Inbox)
  read_each [] w fd rtc = some (w, rtc)
  read_each (r ∷ reads) w fd rtc =
      conn_io_cb json w (pos fd) read (value (chunk r)) [] r.now rtc
      >>= (λ t. read_each reads t.0 fd t.1)

  -- The signaling worker gets the reply: it handles its notification, and then the connection's
  -- write event.
  abbrev pub reply_back :
      SignalingWorker ev → ℕ → Inbox → Bytes → List (Answer ℕ) → ℕ → ℕ × RtcMsg → Option Bytes
  reply_back w fd rtc block answers now (worker, reply) =
      if worker == w.worker_id
      then conn_io_cb json (process_rtc_msg json (send_rtc_msg w reply).0 (some block)) (pos fd)
          write (value []) answers now rtc
        >>= (λ t. some t.2)
      else none

  -- The reads of a connection, the RTC server's turn, the turn of its worker at an index, and the
  -- signaling worker's: the bytes that the client gets. `none` is a fault, or an answer that is not
  -- for this worker.
  unfoldable pub journey :
      Crc
      → SignalingWorker ev
      → RtcServer
      → ℕ
      → List Read
      → (index : ℕ) → (block : Bytes) → List (Answer ℕ)
      → (now : ℕ) → Option Bytes
  unfolding read_each
  journey crc w s fd reads index block answers now = read_each reads w fd s.inbox >>= (λ t.
      Rtc.process_rtc_msg crc (record s { inbox = t.1 }) >>= (λ s'.
        get_elem? s'.workers index >>= (λ worker.
          RtcWorker.process_rtc_msg worker
          >>= (λ r. r.1 >>= reply_back t.0 fd t.1 block answers now))))
