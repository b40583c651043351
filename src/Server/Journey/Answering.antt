-- ===== src/Server/Journey/Answering.antt =====
-- signaling_worker.cpp: a reply from the notification to the bytes that the client gets.
use rtc_frameworker.Prelude.{
  ℕ, suc, ◌+◌, ◌≤◌, ◌<◌, ◌≡◌, refl, ap, ◌∙◌, List, [], ◌∷◌, ◌++◌, some, length, arith, drop, set,
  append-nil, length-take, ap₂, true,
}
use rtc_frameworker.Prelude.Int.{pos, ◌==ℤ◌}
use rtc_frameworker.Messages.{Bytes, RtcMsg, cmdno_push, max_res_buf}
use rtc_frameworker.Platform.{Json}
use rtc_frameworker.Base.EventLoop.{Libev, write}
use rtc_frameworker.Base.Socket.{Answer, value}
use rtc_frameworker.Base.Xhead.{view}
use rtc_frameworker.Server.Connection.{TcpConnection, Slice}
use rtc_frameworker.Server.Inbox.{Inbox}
use rtc_frameworker.Server.Reply.{
  End, respond, add_reply, build_reply, reply_text, write_reply, write_loop,
}
use rtc_frameworker.Server.Reply.Pending.{bytes_of}
use rtc_frameworker.Server.Reply.Stream.{write_reply-sent, AllProgress, write_loop-emptied}
use rtc_frameworker.Server.Reply.Buffer.{
  block_size, build_reply-text, size-build_reply, reply_text-escapes,
}
use rtc_frameworker.Server.SignalingWorker.{
  SignalingWorker, conn_at, conn_io_cb, write_reply_to, send_rtc_msg, push_msg, notify,
  process_rtc_msg,
}
use rtc_frameworker.Server.SignalingWorker.Table.{conn_at-set_self, conn_at-lt}
use rtc_frameworker.Server.SignalingWorker.Replies.{process_rtc_msg-cons, offer_found}

module _ {ev : Libev} where
  -- A connection with one reply that lies within its memory sends it whole.
  write_reply-one :
      (c : TcpConnection ev) (s : Slice) (answers : List (Answer ℕ)) (now : ℕ)
      → c.reply_list ≡ s ∷ []
      → c.cur_resp_pos ≡ 0
      → 0 < s.size
      → s.size ≤ length s.memory
      → AllProgress answers
      → s.size ≤ length answers
      → (write_reply c answers now).2 ≡ bytes_of s
  write_reply-one c s answers now one at h l progress many =
      let e =
        write_loop-emptied answers (s ∷ []) 0 [] (h, l, tt) h progress
          (omega (arith, many, ap length (append-nil (bytes_of s)), length-take s.size s.memory)) in
      write_reply-sent c answers now
      ∙ ap₂ (λ ss k. (write_loop answers ss k []).3) one at
      ∙ ap (λ (t : End × List Slice × ℕ × Bytes). t.3) e
      ∙ append-nil (bytes_of s)

  write_event :
      (json : Json) (w : SignalingWorker ev) (fd : ℕ) (c : TcpConnection ev)
      (answers : List (Answer ℕ)) (now : ℕ) (rtc : Inbox)
      → conn_at w.conns (suc fd) ≡ some c
      → (w' : SignalingWorker ev) × (conn_io_cb json w
            (pos (suc fd))
            write
            (value [])
            answers
            now
            rtc
          ≡ some (w', rtc, (write_reply c answers now).2))
  unfolding conn_io_cb write_reply_to
  write_event json w fd c answers now rtc there = (
    record w { conns = set w.conns (suc fd) (some (write_reply c answers now).1) },
    rw (there, write_reply_to) refl,
  )

-- A connection that has nothing to send and holds its request.
pub record Quiet {ev : Libev} (c : TcpConnection ev) : Type 0 where
  pub no_reply : c.reply_list ≡ []
  pub at_start : c.cur_resp_pos ≡ 0
  pub headed : 36 ≤ length c.querybuf

module _ {ev : Libev} (json : Json) where
  answered :
      (w : SignalingWorker ev) (fd : ℕ) (c : TcpConnection ev) (reply : RtcMsg) (block : Bytes)
      → w.q_msg ≡ []
      → conn_at w.conns fd ≡ some c
      → reply.cmdno ≡ pos cmdno_push
      → reply.conn ≡ some c.addr
      → reply.fd ≡ pos fd
      → conn_at (process_rtc_msg json (send_rtc_msg w reply).0 (some block)).conns fd
        ≡ some (respond json c reply (some block))
  unfolding send_rtc_msg push_msg notify
  answered w fd c reply block idle there push back to_fd =
      let w1 = (send_rtc_msg w reply).0 in
      let taken =
        process_rtc_msg-cons json w1 reply [] (some block) (ap (λ q. q ++ reply ∷ []) idle) in
      let w2 = record w1 { q_msg = [] } in
      let is_push : (reply.cmdno ==ℤ pos cmdno_push) ≡ true = rw push refl in
      let replied : process_rtc_msg json w1 (some block)
          ≡ record w2 { conns = set w.conns fd (some (respond json c reply (some block))) } =
        taken
        ∙ rw is_push (offer_found json w2 reply (some block) fd c.addr c back to_fd there refl) in
      ap (λ (v : SignalingWorker ev). conn_at v.conns fd) replied
      ∙ conn_at-set_self w.conns fd _ (conn_at-lt w.conns fd c there)

  -- A reply to a connection that has nothing else to send is written whole at the connection's next
  -- write event: the bytes that go out are 36 of a header, which is the request's with the length of
  -- the text, and the text.
  pub deliver :
      (w : SignalingWorker ev) (fd : ℕ) (c : TcpConnection ev) (reply : RtcMsg) (block : Bytes)
      (answers : List (Answer ℕ)) (now : ℕ) (rtc : Inbox)
      → w.q_msg ≡ []
      → conn_at w.conns (suc fd) ≡ some c
      → Quiet c
      → reply.cmdno ≡ pos cmdno_push
      → reply.conn ≡ some c.addr
      → reply.fd ≡ pos (suc fd)
      → length block ≡ block_size
      → length (reply_text json reply) < max_res_buf
      → AllProgress answers
      → 36 + length (reply_text json reply) ≤ length answers
      → (w' : SignalingWorker ev) × (sent : Bytes) × (conn_io_cb json
            (process_rtc_msg json (send_rtc_msg w reply).0 (some block))
            (pos (suc fd))
            write
            (value [])
            answers
            now
            rtc
          ≡ some (w', rtc, sent))
        × (length sent ≡ 36 + length (reply_text json reply))
        × (view sent ≡ record (view c.querybuf) { body_len = length (reply_text json reply) })
        × (drop 36 sent ≡ reply_text json reply)
  unfolding respond add_reply
  deliver w fd c reply block answers now rtc idle there quiet push back to_fd whole short progress
        many =
      let text = reply_text json reply in
      let s = build_reply c.querybuf text block in
      let (inside, header, body) =
        build_reply-text c.querybuf text block quiet.headed whole short
          (reply_text-escapes json reply) in
      let size : s.size ≡ 36 + length text =
        omega (arith, size-build_reply c.querybuf text block quiet.headed whole) in
      let w1 = process_rtc_msg json (send_rtc_msg w reply).0 (some block) in
      let c1 = respond json c reply (some block) in
      let (w', e) =
        write_event json w1 fd c1 answers now rtc
          (answered w (suc fd) c reply block idle there push back to_fd) in
      let sent =
        write_reply-one c1 s answers now (ap (λ ss. ss ++ s ∷ []) quiet.no_reply) quiet.at_start
          (omega (arith, size)) inside progress (omega (arith, size, many)) in
      let all : length (bytes_of s) ≡ 36 + length text =
        omega (arith, length-take s.size s.memory, size, inside) in
      (w', bytes_of s, e ∙ ap (λ bs. some (w', rtc, bs)) sent, all, header, body)
