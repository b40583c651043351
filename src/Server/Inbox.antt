-- ===== src/Server/Inbox.antt =====
-- xrtcserver/rtcserver/src/server/rtc_server.hpp and rtc_server.cpp, the part that the signaling
-- workers reach: the queue of messages and the notification.
use rtc_frameworker.Prelude.{List, [], ◌∷◌, ◌++◌, Option, none, some}
use rtc_frameworker.Prelude.Int.{ℤ, pos}
use rtc_frameworker.Messages.{RtcMsg, Ret}
use rtc_frameworker.Base.Pipe.{Pipe, send}

abbrev pub quit : ℤ
quit = pos 0

abbrev pub rtc_msg : ℤ
rtc_msg = pos 1

-- The part of `RtcServer` that the signaling workers reach: the queue behind its mutex (each
-- locked section is one step) and the pipe.
pub record Inbox : Type 0 where
  pub q_msg : List RtcMsg
  pub notify_pipe : Pipe

unfoldable pub notify : Inbox → ℤ → Inbox × Ret
unfolding send
notify s msg = let (p, r) = send s.notify_pipe msg in (record s { notify_pipe = p }, r)

unfoldable pub push_msg : Inbox → RtcMsg → Inbox
push_msg s msg = record s { q_msg = s.q_msg ++ msg ∷ [] }

unfoldable pub pop_msg : Inbox → Option RtcMsg × Inbox
pop_msg s = elim s.q_msg [ [] ↦ (none, s) | m ∷ ms ↦ (some m, record s { q_msg = ms }) ]

unfoldable pub send_rtc_msg : Inbox → RtcMsg → Inbox × Ret
unfolding push_msg notify
send_rtc_msg s msg = notify (push_msg s msg) rtc_msg
