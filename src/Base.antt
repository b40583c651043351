-- ===== src/Base.antt =====
-- xrtcserver/rtcserver/src/base: the parts that the servers are built on.
pub mod LockFreeQueue
pub mod Xhead
pub mod EventLoop
pub mod Socket
pub mod Pipe
pub mod Conf
pub mod Log
