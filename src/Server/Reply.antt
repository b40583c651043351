-- ===== src/Server/Reply.antt =====
-- xrtcserver/rtcserver/src/server/signaling_worker.cpp, the way of a reply:
-- `_response_server_offer` builds it, `_add_reply` queues it and `_write_reply` writes it.
pub mod Pending
pub mod Stream
pub mod Buffer
pub mod Watching
use rtc_frameworker.Prelude.{
  ℕ, zero, suc, ◌+◌, ◌-◌, ◌==◌, leb, Bool, true, false, List, [], ◌∷◌, ◌++◌, length, take, drop,
  Option, none, some, if◌then◌else◌, ◌%◌, ◌^◌, codes,
}
use rtc_frameworker.Prelude.Int.{ℤ, pos, negsuc, ◌==ℤ◌}
use rtc_frameworker.Messages.{Bytes, RtcMsg, max_res_buf}
use rtc_frameworker.Platform.{Json, c_string}
use rtc_frameworker.Base.EventLoop.{Libev, IoWatcher, start_io_event, stop_io_event, write}
use rtc_frameworker.Base.Socket.{Answer, value, error, sock_write_data}
use rtc_frameworker.Base.Xhead.{xhead_size, set_body_len}
use rtc_frameworker.Server.Connection.{TcpConnection, Slice, Callback}

-- A call on the connection's watcher. Behind `new_conn` there always is one.
abbrev pub on_watcher : {A : Type 0} → (A → A) → Option A → Option A
on_watcher f none = none
on_watcher f (some w) = some (f w)

-- How `while (!reply_list.empty())` ends: the list is empty, a write failed, or it goes on while
-- the kernel gives no further answer.
pub data End : Type 0 where
  emptied gave_up goes_on : End

-- write(2) of the bytes from `data() + cur_resp_pos` to the slice's end: a value in the kernel's
-- answer is what there is room for, so that it never takes more than it is given.
abbrev nwritten : Answer ℕ → ℕ → ℤ
nwritten (value room) len = sock_write_data (value (if leb len room then len else room))
nwritten (error e) len = sock_write_data (error e)

abbrev written : ℕ → ℕ → Slice → Bytes
written n cur reply = take n (drop cur reply.memory)

-- The loop over the reply list and the position in its first slice: how it ends, the list and the
-- position then, and the bytes that went to the socket.
unfoldable pub write_loop : List (Answer ℕ) → List Slice → ℕ → Bytes → End × List Slice × ℕ × Bytes
unfolding sock_write_data
write_loop answers [] cur sent = (emptied, [], cur, sent)
write_loop [] (reply ∷ replies) cur sent = (goes_on, reply ∷ replies, cur, sent)
write_loop (a ∷ answers) (reply ∷ replies) cur sent = elim (nwritten a (reply.size - cur)) [
  | negsuc n ↦ (gave_up, reply ∷ replies, cur, sent)
  | pos zero ↦ write_loop answers (reply ∷ replies) cur sent
  | pos (suc n) ↦
      let whole = write_loop answers replies 0 (sent ++ written (suc n) cur reply) in
      let part =
        write_loop answers (reply ∷ replies) (cur + suc n) (sent ++ written (suc n) cur reply) in
      if leb reply.size (suc n + cur) then whole else part
]

module _ {ev : Libev} where
  -- `_write_reply` behind its guards: the connection and the bytes that were sent.
  unfoldable pub write_reply :
      TcpConnection ev → List (Answer ℕ) → ℕ → End × TcpConnection ev × Bytes
  write_reply conn answers now =
      let (end, replies, cur, sent) = write_loop answers conn.reply_list conn.cur_resp_pos [] in
      let conn' = record conn { reply_list = replies; cur_resp_pos = cur } in
      elim end [
        | emptied ↦ (
          emptied,
          record conn' {
            last_interaction_time = now;
            io_watcher = on_watcher (λ w. stop_io_event ev w (pos conn.fd) write) conn.io_watcher;
          },
          sent,
        )
        | gave_up ↦ (gave_up, conn', sent)
        | goes_on ↦ (goes_on, conn', sent)
      ]

  unfoldable pub add_reply : TcpConnection ev → Slice → TcpConnection ev
  add_reply conn reply = record conn {
    reply_list = conn.reply_list ++ reply ∷ [];
    io_watcher = on_watcher (λ w. start_io_event ev w (pos conn.fd) write) conn.io_watcher;
  }

-- The text of the reply's body.
abbrev pub reply_text : Json → RtcMsg → Bytes
reply_text json msg =
    if msg.err_no ==ℤ pos 0
    then json.write msg.err_no (codes "process success") msg.sdp
    else json.write msg.err_no (codes "process error") []

-- `snprintf(buf + XHEAD_SIZE, MAX_RES_BUF, "%s", text.c_str())`: at most 4095 bytes, those in
-- front of the first NUL, and a NUL.
unfoldable pub print_body : Bytes → Bytes → Bytes
print_body text buf =
    let shown = take (max_res_buf - 1) (c_string text) in
    take xhead_size buf ++ (shown ++ (0 ∷ drop (xhead_size + length shown + 1) buf))

-- The slice that `_response_server_offer` builds in the block that zmalloc returned, from the
-- header of the request.
unfoldable pub build_reply : Bytes → Bytes → Bytes → Slice
unfolding print_body
build_reply querybuf text block =
    let copied = take xhead_size querybuf ++ drop xhead_size block in
    let body_len = length text % 2 ^ 32 in
    record {
      memory = print_body text (set_body_len body_len copied);
      size = (xhead_size + body_len) % 2 ^ 32;
    }

module _ {ev : Libev} (json : Json) where
  -- The end of `_response_server_offer`, for the connection that was found. `none` is a failed
  -- zmalloc.
  unfoldable pub respond : TcpConnection ev → RtcMsg → Option Bytes → TcpConnection ev
  respond conn msg none = conn
  respond conn msg (some block) =
      add_reply conn (build_reply conn.querybuf (reply_text json msg) block)
