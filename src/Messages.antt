-- ===== src/Messages.antt =====
-- xrtcserver/rtcserver/src/xrtcserver_def.hpp: the message that travels between the two servers.
use rtc_frameworker.Prelude.{ℕ, List, Option}
use rtc_frameworker.Prelude.Int.{ℤ}

abbrev pub Bytes : Type 0
Bytes = List ℕ

abbrev pub cmdno_push : ℕ
cmdno_push = 1

abbrev pub max_res_buf : ℕ
max_res_buf = 4096

-- The C return values 0 and -1 (or true and false).
pub data Ret : Type 0 where
  done failed : Ret

-- `worker` and `conn` are pointers: an index of a signaling worker and an address; `none` is null.
pub record RtcMsg : Type 0 where
  pub cmdno : ℤ
  pub uid : ℕ
  pub stream_name : Bytes
  pub audio : ℤ
  pub video : ℤ
  pub log_id : ℕ
  pub worker : Option ℕ
  pub conn : Option ℕ
  pub sdp : Bytes
  pub err_no : ℤ
  pub fd : ℤ
