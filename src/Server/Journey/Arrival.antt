-- ===== src/Server/Journey/Arrival.antt =====
-- The two servers together: a push request comes in on a new connection, and its answer goes out.
use rtc_frameworker.Prelude.{
  ℕ, suc, ◌+◌, ◌≤◌, ◌<◌, ◌≡◌, refl, ap, ◌∙◌, List, [], ◌∷◌, ◌++◌, some, length, arith, drop, true,
  length-append, codes,
}
use rtc_frameworker.Prelude.Int.{pos}
use rtc_frameworker.Messages.{Bytes, Ret, done, max_res_buf}
use rtc_frameworker.Platform.{Json, Crc}
use rtc_frameworker.Base.EventLoop.{Libev}
use rtc_frameworker.Base.Socket.{Answer, Address}
use rtc_frameworker.Base.Xhead.{Xhead, xhead_magic, view, layout}
use rtc_frameworker.Base.Xhead.Layout.{Fits, view-layout, length-layout}
use rtc_frameworker.Server.Connection.{create}
use rtc_frameworker.Server.Inbox.{Inbox}
use rtc_frameworker.Server.Receive.Reads.{Read, received, last_time, read_all, finished}
use rtc_frameworker.Server.Receive.Framing.{read_all_from}
use rtc_frameworker.Server.Reply.Stream.{AllProgress}
use rtc_frameworker.Server.Reply.Buffer.{block_size}
use rtc_frameworker.Server.Shares.{AllHave}
use rtc_frameworker.Server.RtcServer.{RtcServer}
use rtc_frameworker.Server.RtcServer.Routing.{route}
use rtc_frameworker.Server.RtcWorker.{offer}
use rtc_frameworker.Server.RtcWorker.Handling.{Waits}
use rtc_frameworker.Server.SignalingWorker.{SignalingWorker, conn_at, open_conn}
use rtc_frameworker.Server.Journey.{journey}
use rtc_frameworker.Server.Journey.Reading.{journey-turns, read_each-read_all}
use rtc_frameworker.Server.Journey.Request.{
  Push, Says, message, process_request-push, send_rtc_msg-first, hand-answer,
}
use rtc_frameworker.Server.Journey.Answering.{Quiet, deliver}

-- An RTC server that has all its `n` workers, with nothing to do.
pub record Idle (s : RtcServer) (n : ℕ) : Type 0 where
  pub some_worker : 0 < n
  pub all_there : length s.workers ≡ n
  pub configured : s.worker_num ≡ pos n
  pub empty : s.inbox.q_msg ≡ []
  pub takes : s.inbox.notify_pipe.accepts s.inbox.notify_pipe.unread ≡ true
  pub waits : AllHave Waits s.workers (λ i. [])

-- The bytes that come in are a request: a header with the magic number and a body of the length
-- that it says.
pub record IsRequest (reads : List Read) (h : Xhead) (body : Bytes) : Type 0 where
  pub fits : Fits h
  pub magic : h.magic_num ≡ xhead_magic
  pub whole : length body ≡ h.body_len
  pub arrives : received reads ≡ layout h ++ body

-- The body of the answer to a push request.
abbrev pub answer_text : Json → Bytes
answer_text json = json.write (pos 0) (codes "process success") offer

module _ {ev : Libev} (json : Json) (crc : Crc) where
  handled :
      (worker addr fd opened : ℕ) (peer : Answer Address) (h : Xhead) (body : Bytes)
      (reads : List Read) (root : json.Value) (p : Push) (rtc : Inbox)
      → IsRequest reads h body
      → json.parse body ≡ some root
      → Says json root p
      → rtc.q_msg ≡ []
      → rtc.notify_pipe.accepts rtc.notify_pipe.unread ≡ true
      → (rtc' : Inbox) × (read_all json worker reads (open_conn {ev = ev} addr fd opened peer) rtc
          ≡ some (
            finished
                (open_conn addr fd opened peer)
                h
                (last_time opened reads)
                (layout h ++ body)
                done,
            rtc',
          ))
        × (rtc'.q_msg ≡ message p worker addr fd h.log_id ∷ [])
  unfolding open_conn create
  handled worker addr fd opened peer h body reads root p rtc req parsed says empty takes =
      let conn = open_conn {ev = ev} addr fd opened peer in
      let msg = message p worker addr fd h.log_id in
      let (rtc', sent, first) = send_rtc_msg-first rtc msg empty takes in
      let e = process_request-push json worker conn h body root p rtc req.fits parsed says ∙ sent in
      (
        rtc',
        read_all_from json worker conn h body refl refl refl req.fits req.magic req.whole opened []
              reads rtc req.arrives
              (omega (arith, length-append (layout h) body, length-layout h req.fits))
            ∙ ap
                (λ (x : Inbox × Ret).
                  some (finished conn h (last_time opened reads) (layout h ++ body) x.1, x.0))
                e,
        first,
      )

  finished-Quiet :
      (addr fd opened now : ℕ) (peer : Answer Address) (h : Xhead) (body : Bytes)
      → Fits h
      → Quiet (finished (open_conn {ev = ev} addr fd opened peer) h now (layout h ++ body) done)
  unfolding open_conn create
  finished-Quiet addr fd opened now peer h body fits = record {
    no_reply = refl;
    at_start = refl;
    headed = omega (arith, length-append (layout h) body, length-layout h fits);
  }

  -- A push request on a new connection is answered, however the network cuts its bytes. The
  -- worker has no other reply to send, the RTC server and its workers have nothing else to do,
  -- the block of zmalloc has the size that was asked for, the text of the answer fits it, and
  -- each write takes at least one byte. Then the worker of the stream answers, and what the
  -- client gets is 36 bytes of a header, which is its own with the length of the text, and the text with
  -- the offer.
  pub push-answered :
      (w : SignalingWorker ev) (s : RtcServer) (n fd addr opened now : ℕ) (peer : Answer Address)
      (h : Xhead) (body : Bytes) (reads : List Read) (root : json.Value) (p : Push) (block : Bytes)
      (answers : List (Answer ℕ))
      → w.q_msg ≡ []
      → conn_at w.conns (suc fd) ≡ some (open_conn addr (suc fd) opened peer)
      → Idle s n
      → IsRequest reads h body
      → json.parse body ≡ some root
      → Says json root p
      → length block ≡ block_size
      → length (answer_text json) < max_res_buf
      → AllProgress answers
      → 36 + length (answer_text json) ≤ length answers
      → let index = route crc n (message p w.worker_id addr (suc fd) h.log_id) in
        (sent : Bytes) × (journey json crc w s (suc fd) reads index block answers now ≡ some sent)
        × (length sent ≡ 36 + length (answer_text json))
        × (view sent ≡ record h { body_len = length (answer_text json) })
        × (drop 36 sent ≡ answer_text json)
  unfolding open_conn create
  push-answered w s n fd addr opened now peer h body reads root p block answers quiet there idle req
        parsed says whole short progress many =
      let conn = open_conn {ev = ev} addr (suc fd) opened peer in
      let msg = message p w.worker_id addr (suc fd) h.log_id in
      let c = finished conn h (last_time opened reads) (layout h ++ body) done in
      let (rtc, got, first) =
        handled w.worker_id addr (suc fd) opened peer h body reads root p s.inbox req parsed says
          idle.empty idle.takes in
      let (conns, e, here) =
        read_each-read_all json reads w (suc fd) conn c s.inbox rtc there got in
      let w1 = record w { conns = conns } in
      let (s', wk, wk', f, at, g) =
        hand-answer crc (record s { inbox = rtc }) n w.worker_id addr (suc fd) h.log_id p
          idle.some_worker idle.all_there idle.configured first idle.waits in
      let reply = record msg { sdp = offer } in
      let (w2, sent, wrote, all, header, text) =
        deliver json w1 fd c reply block answers now rtc quiet here
          (finished-Quiet addr (suc fd) opened (last_time opened reads) peer h body req.fits) refl
          refl refl whole short progress many in
      (
        sent,
        journey-turns json crc w w1 w2 s s' (suc fd) reads (route crc n msg) block answers now rtc
            wk wk' reply sent e f at g wrote,
        all,
        header
            ∙ ap (λ (x : Xhead). record x { body_len = length (answer_text json) })
                (view-layout h body req.fits),
        text,
      )
