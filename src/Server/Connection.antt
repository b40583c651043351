-- ===== src/Server/Connection.antt =====
-- xrtcserver/rtcserver/src/server/tcp_connection.hpp and tcp_connection.cpp: what a signaling
-- worker keeps of one client. An sds string is the list of its bytes, and a slice is the memory
-- that it points at with its size.
use rtc_frameworker.Prelude.{ℕ, List, [], Option, none}
use rtc_frameworker.Messages.{Bytes}
use rtc_frameworker.Base.EventLoop.{Libev, IoWatcher, TimeWatcher}
use rtc_frameworker.Base.Xhead.{xhead_size}

pub data State : Type 0 where
  state_head state_body : State

-- The functions that a worker hands to the event loop, with their `data`.
pub data Callback : Type 0 where
  recv_notify conn_io : Callback
  conn_timer : (conn : ℕ) → Callback

pub record Slice : Type 0 where
  pub memory : Bytes
  pub size : ℕ

-- `addr` is the address of the object. A watcher that was not created yet is `none`.
pub record TcpConnection (ev : Libev) : Type 0 where
  pub addr : ℕ
  pub fd : ℕ
  pub host : Bytes
  pub port : ℕ
  pub io_watcher : Option (IoWatcher ev Callback)
  pub timer_watcher : Option (TimeWatcher ev Callback)
  pub querybuf : Bytes
  pub bytes_expected : ℕ
  pub bytes_processed : ℕ
  pub current_state : State
  pub last_interaction_time : ℕ
  pub reply_list : List Slice
  pub cur_resp_pos : ℕ

-- The constructor. The fields that it leaves uninitialised (port, time) are arguments.
unfoldable pub create : (ev : Libev) (addr fd port time : ℕ) → TcpConnection ev
create ev addr fd port time = record {
  addr = addr;
  fd = fd;
  host = [];
  port = port;
  io_watcher = none;
  timer_watcher = none;
  querybuf = [];
  bytes_expected = xhead_size;
  bytes_processed = 0;
  current_state = state_head;
  last_interaction_time = time;
  reply_list = [];
  cur_resp_pos = 0;
}

-- The destructor frees the buffer, and not the blocks of replies that still wait.
unfoldable pub destroy : {ev : Libev} → TcpConnection ev → TcpConnection ev
destroy conn = record conn { querybuf = [] }
