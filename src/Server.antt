-- ===== src/Server.antt =====
-- xrtcserver/rtcserver/src/server: the signaling server with its workers, and the RTC server with
-- its workers.
pub mod Connection
pub mod Shares
pub mod Hiring
pub mod Dismissing
pub mod Rounds
pub mod Journey
pub mod Thread
pub mod Inbox
pub mod RtcWorker
pub mod RtcServer
pub mod SignalingServer
pub mod Receive
pub mod Reply
pub mod SignalingWorker
