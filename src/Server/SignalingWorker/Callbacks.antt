-- ===== src/Server/SignalingWorker/Callbacks.antt =====
-- signaling_worker.cpp: the worker's thread as a sequence of callbacks, in any order that the event
-- loop may call them.
use rtc_frameworker.Prelude.{ℕ, ◌<◌, ◌≡◌, Option, some, List}
use rtc_frameworker.Prelude.Int.{ℤ, pos}
use rtc_frameworker.Messages.{Bytes, RtcMsg}
use rtc_frameworker.Platform.{Json}
use rtc_frameworker.Base.EventLoop.{Libev}
use rtc_frameworker.Base.Socket.{Answer, Address}
use rtc_frameworker.Server.Connection.{TcpConnection}
use rtc_frameworker.Server.Inbox.{Inbox}
use rtc_frameworker.Server.SignalingWorker.{
  SignalingWorker, conn_at, send_rtc_msg, new_conn, conn_timer_cb, conn_io_cb, process_rtc_msg,
}

module _ {ev : Libev} (json : Json) where
  -- One callback of the worker's thread, or a message that another thread sends it. A timer fires
  -- for a connection of the table; a new connection has a descriptor other than 0.
  pub data Step : SignalingWorker ev → SignalingWorker ev → Type 1 where
    accepted :
        (w : SignalingWorker ev) (fd addr now : ℕ) (peer : Answer Address)
        → 0 < fd
        → Step w (new_conn w (pos fd) addr now peer)
    io :
        (w w' : SignalingWorker ev) (fd : ℤ) (events : ℕ) (answer : Answer Bytes)
        (answers : List (Answer ℕ)) (now : ℕ) (rtc rtc' : Inbox) (sent : Bytes)
        → conn_io_cb json w fd events answer answers now rtc ≡ some (w', rtc', sent)
        → Step w w'
    timer :
        (w : SignalingWorker ev) (j : ℕ) (conn : TcpConnection ev) (now : ℕ)
        → conn_at w.conns j ≡ some conn
        → Step w (conn_timer_cb w conn now)
    messaged : (w : SignalingWorker ev) (msg : RtcMsg) → Step w (send_rtc_msg w msg).0
    replied :
        (w : SignalingWorker ev) (block : Option Bytes) → Step w (process_rtc_msg json w block)

  pub data Reach (start : SignalingWorker ev) : SignalingWorker ev → Type 1 where
    initial : Reach start start
    after : (w w' : SignalingWorker ev) → Reach start w → Step w w' → Reach start w'

  -- What a reply on the way meets, at each of them.
  abbrev pub AtReply :
      (SignalingWorker ev → Option Bytes → Type 0)
      → {w w' : SignalingWorker ev} → Step w w'
      → Type 0
  AtReply Q (accepted w fd addr now peer h) = Unit
  AtReply Q (io w w' fd events answer answers now rtc rtc' sent h) = Unit
  AtReply Q (timer w j conn now h) = Unit
  AtReply Q (messaged w msg) = Unit
  AtReply Q (replied w block) = Q w block

  abbrev pub AtReplies :
      (SignalingWorker ev → Option Bytes → Type 0) → {s w : SignalingWorker ev} → Reach s w → Type 0
  AtReplies Q initial = Unit
  AtReplies Q (after v w r st) = AtReplies Q r × AtReply Q st

  AtReply-map :
      (Q R : SignalingWorker ev → Option Bytes → Type 0)
      → ((w : SignalingWorker ev) (block : Option Bytes) → Q w block → R w block)
      → {w w' : SignalingWorker ev} (st : Step w w') → AtReply Q st
      → AtReply R st
  AtReply-map Q R f (accepted w fd addr now peer h) a = tt
  AtReply-map Q R f (io w w' fd events answer answers now rtc rtc' sent h) a = tt
  AtReply-map Q R f (timer w j conn now h) a = tt
  AtReply-map Q R f (messaged w msg) a = tt
  AtReply-map Q R f (replied w block) a = f w block a

  pub AtReplies-map :
      (Q R : SignalingWorker ev → Option Bytes → Type 0)
      → ((w : SignalingWorker ev) (block : Option Bytes) → Q w block → R w block)
      → {s w : SignalingWorker ev} (r : Reach s w) → AtReplies Q r
      → AtReplies R r
  AtReplies-map Q R f initial a = tt
  AtReplies-map Q R f (after v w r st) a = (AtReplies-map Q R f r a.0, AtReply-map Q R f st a.1)

  pub AtReplies-all :
      (R : SignalingWorker ev → Option Bytes → Type 0)
      → ((w : SignalingWorker ev) (block : Option Bytes) → R w block)
      → {s w : SignalingWorker ev} (r : Reach s w) → AtReplies R r
  AtReplies-all R f initial = tt
  AtReplies-all R f (after v w r (accepted _ _ _ _ _ _)) = (AtReplies-all R f r, tt)
  AtReplies-all R f (after v w r (io _ _ _ _ _ _ _ _ _ _ _)) = (AtReplies-all R f r, tt)
  AtReplies-all R f (after v w r (timer _ _ _ _ _)) = (AtReplies-all R f r, tt)
  AtReplies-all R f (after v w r (messaged _ _)) = (AtReplies-all R f r, tt)
  AtReplies-all R f (after v w r (replied u block)) = (AtReplies-all R f r, f u block)
