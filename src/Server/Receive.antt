-- ===== src/Server/Receive.antt =====
-- xrtcserver/rtcserver/src/server/signaling_worker.cpp, the way of a request: a connection's bytes
-- become messages for the RTC server. Sums of lengths do not wrap: a header holds 32 bits and
-- size_t 64. `worker` is the index of the worker that runs the code.
pub mod Loop
pub mod Reads
pub mod Framing
pub mod Later
pub mod Identity
use rtc_frameworker.Prelude.{
  ℕ, zero, suc, ◌+◌, ◌==◌, leb, Bool, true, false, not, List, [], ◌∷◌, ◌++◌, length, take, drop,
  Option, none, some, if◌then◌else◌, ◌%◌, ◌^◌, ltb, ◌-◌, ◌≡◌, refl,
}
use rtc_frameworker.Prelude.Int.{ℤ, pos, negsuc, ◌==ℤ◌}
use rtc_frameworker.Messages.{Bytes, RtcMsg, Ret, done, failed, cmdno_push}
use rtc_frameworker.Platform.{Json}
use rtc_frameworker.Base.EventLoop.{Libev}
use rtc_frameworker.Base.Socket.{Answer, minus_one, sock_read_data}
use rtc_frameworker.Base.Xhead.{Xhead, xhead_size, xhead_magic, view}
use rtc_frameworker.Server.Connection.{TcpConnection, State, state_head, state_body}
use rtc_frameworker.Server.Inbox.{Inbox, send_rtc_msg}

infixl 5 ◌>>=◌
abbrev pub ◌>>=◌ : {A B : Type 0} → Option A → (A → Option B) → Option B
none >>= f = none
some a >>= f = f a

-- Three iterations are enough for a buffer that one request fills (Receive/Loop).
abbrev pub loop_fuel : ℕ
loop_fuel = 3

module _ {ev : Libev} (json : Json) (worker : ℕ) where
  open json use {Value, parse, as_int, as_uint64, as_string}

  -- The message that `process_push_` builds; `none` where a getter throws.
  unfoldable pub push_request : ℤ → TcpConnection ev → Value → ℕ → Option RtcMsg
  push_request cmdno conn root log_id = do
    uid ← as_uint64 root "uid"
    stream_name ← as_string root "streamName"
    audio ← as_int root "audio"
    video ← as_int root "video"
    some record {
      cmdno = cmdno;
      uid = uid;
      stream_name = stream_name;
      audio = audio;
      video = video;
      log_id = log_id;
      worker = some worker;
      conn = some conn.addr;
      sdp = [];
      err_no = pos 0;
      fd = pos conn.fd;
    }

  unfoldable pub process_push : ℤ → TcpConnection ev → Value → ℕ → Inbox → Inbox × Ret
  process_push cmdno conn root log_id rtc = elim (push_request cmdno conn root log_id) [
    | none ↦ (rtc, failed)
    | some msg ↦ send_rtc_msg rtc msg
  ]

  unfoldable pub process_request : TcpConnection ev → Bytes → Bytes → Inbox → Inbox × Ret
  process_request conn header body rtc = elim (parse body) [
    | none ↦ (rtc, failed)
    | some root ↦ elim (as_int root "cmdno") [
      | none ↦ (rtc, failed)
      | some cmdno ↦
          if cmdno ==ℤ pos cmdno_push
          then process_push cmdno conn root (view header).log_id rtc
          else (rtc, done)
    ]
  ]

  -- One iteration of the loop, for each state: the connection, the RTC server and the value that
  -- the loop returns, if it returns.
  unfoldable pub process_head : TcpConnection ev → Inbox → TcpConnection ev × Inbox × Option Ret
  process_head conn rtc =
      let head = view conn.querybuf in
      if not (head.magic_num == xhead_magic) then (conn, rtc, some failed) else (
        record conn {
          bytes_processed = xhead_size;
          bytes_expected = head.body_len;
          current_state = state_body;
        },
        rtc,
        none,
      )

  unfoldable pub process_body : TcpConnection ev → Inbox → TcpConnection ev × Inbox × Option Ret
  process_body conn rtc =
      let head = view conn.querybuf in
      let header = take xhead_size conn.querybuf in
      let body = take head.body_len (drop xhead_size conn.querybuf) in
      let (rtc', ret) = process_request conn header body rtc in
      elim ret [
        | failed ↦ (conn, rtc', some failed)
        | done ↦ (record conn { bytes_processed = 65535 }, rtc', none)
      ]

  abbrev iteration : TcpConnection ev → Inbox → State → TcpConnection ev × Inbox × Option Ret
  iteration conn rtc state_head = process_head conn rtc
  iteration conn rtc state_body = process_body conn rtc

  abbrev loop_test : TcpConnection ev → Bool
  loop_test conn = leb (conn.bytes_expected + conn.bytes_processed) (length conn.querybuf)

  -- `none` is a loop that has not ended when the fuel is used up.
  unfoldable pub process_query_buffer :
      ℕ → TcpConnection ev → Inbox → Option (TcpConnection ev × Inbox × Ret)
  process_query_buffer zero conn rtc = none
  process_query_buffer (suc fuel) conn rtc = elim (loop_test conn) [
    | false ↦ some (conn, rtc, done)
    | true ↦
        let (conn', rtc', r) = iteration conn rtc conn.current_state in
        elim r [ some ret ↦ some (conn', rtc', ret) | none ↦ process_query_buffer fuel conn' rtc' ]
  ]

  -- `(int)conn->bytes_expected`.
  abbrev pub read_len : TcpConnection ev → ℤ
  read_len conn =
      let n = conn.bytes_expected % 2 ^ 32 in
      if ltb n (2 ^ 31) then pos n else negsuc (2 ^ 32 - 1 - n)

  -- What `read_query` does behind its guard, from the answer of read(2): the connection, the RTC
  -- server, and whether the connection is closed. `none` is a loop that runs on.
  unfoldable pub read_data :
      TcpConnection ev → Answer Bytes → ℕ → Inbox → Option (TcpConnection ev × Inbox × Bool)
  unfolding sock_read_data
  read_data conn answer now rtc =
      let (nread, bytes) = sock_read_data answer in
      let conn' = record conn { querybuf = conn.querybuf ++ bytes; last_interaction_time = now } in
      let go = process_query_buffer loop_fuel conn' rtc in
      if nread ==ℤ minus_one
      then some (conn', rtc, true)
      else elim go [ none ↦ none | some (c, r, ret) ↦ some (c, r, false) ]
