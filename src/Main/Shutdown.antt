-- ===== src/Main/Shutdown.antt =====
-- main.cpp: what a signal starts, up to the two `join` calls of `main`.
use rtc_frameworker.Prelude.{◌≡◌, true, List}
use rtc_frameworker.Prelude.Int.{ℤ}
use rtc_frameworker.Base.EventLoop.{Libev}
use rtc_frameworker.Server.Thread.{joinable}
use rtc_frameworker.Server.SignalingWorker.Lifecycle.Stopping as Lifecycle
use rtc_frameworker.Base.LockFreeQueue.Invariant.{Inv}
use rtc_frameworker.Server.RtcServer as Rtc
use rtc_frameworker.Server.RtcServer.{RtcServer}
use rtc_frameworker.Server.SignalingWorker.{SignalingWorker}
use rtc_frameworker.Server.SignalingServer as Signaling
use rtc_frameworker.Server.SignalingServer.{SignalingServer}
use rtc_frameworker.Server.SignalingServer.Stopping

-- A worker whose thread was started, with a sound queue and a pipe that takes the notification.
abbrev pub IsStarted : {ev : Libev} → SignalingWorker ev → Type 0
IsStarted w =
    (fds : List ℤ) × Inv w.q_conn fds
    × (w.thread ≡ joinable)
    × (w.notify_pipe.accepts w.notify_pipe.unread ≡ true)
