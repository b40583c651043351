-- ===== src/Server/Journey/Request.antt =====
-- signaling_worker.cpp, rtc_server.cpp and rtc_worker.cpp: a push request from its text to the
-- answer of an RTC worker.
use native.Mathlib.Nat.{mod-lt}
use rtc_frameworker.Prelude.{
  ℕ, ◌<◌, ◌≡◌, refl, sym, ap, ◌∙◌, [], ◌∷◌, ◌++◌, some, length, get_elem?, get_elem?-total,
  append-nil, arith, true, ◌==◌, ==_iff,
}
use rtc_frameworker.Prelude.Int.{ℤ, pos}
use rtc_frameworker.Messages.{Bytes, RtcMsg, done, cmdno_push}
use rtc_frameworker.Platform.{Json, Crc}
use rtc_frameworker.Base.EventLoop.{Libev}
use rtc_frameworker.Base.Pipe.{send}
use rtc_frameworker.Base.Xhead.{Xhead, view, layout}
use rtc_frameworker.Base.Xhead.Layout.{Fits, view-layout}
use rtc_frameworker.Server.Connection.{TcpConnection}
use rtc_frameworker.Server.Inbox.{Inbox, send_rtc_msg, notify, push_msg, rtc_msg}
use rtc_frameworker.Server.Receive.{process_request, process_push, push_request}
use rtc_frameworker.Server.Shares.{AllHave, snoc_at}
use rtc_frameworker.Server.RtcServer as Rtc
use rtc_frameworker.Server.RtcServer.{RtcServer}
use rtc_frameworker.Server.RtcServer.Routing.{route, process_one}
use rtc_frameworker.Server.RtcWorker as RtcWorker
use rtc_frameworker.Server.RtcWorker.{RtcWorker, offer}
use rtc_frameworker.Server.RtcWorker.Handling.{Waits, answer, process_rtc_msg-answer}

-- What a push request says.
pub record Push : Type 0 where
  pub uid : ℕ
  pub stream_name : Bytes
  pub audio : ℤ
  pub video : ℤ

-- The document is a push request that says so.
pub record Says (json : Json) (root : json.Value) (p : Push) : Type 0 where
  pub cmdno : json.as_int root "cmdno" ≡ some (pos cmdno_push)
  pub uid : json.as_uint64 root "uid" ≡ some p.uid
  pub stream_name : json.as_string root "streamName" ≡ some p.stream_name
  pub audio : json.as_int root "audio" ≡ some p.audio
  pub video : json.as_int root "video" ≡ some p.video

-- The message that a signaling worker makes of it.
abbrev pub message : Push → (worker addr fd log_id : ℕ) → RtcMsg
message p worker addr fd log_id = record {
  cmdno = pos cmdno_push;
  uid = p.uid;
  stream_name = p.stream_name;
  audio = p.audio;
  video = p.video;
  log_id = log_id;
  worker = some worker;
  conn = some addr;
  sdp = [];
  err_no = pos 0;
  fd = pos fd;
}

module _ {ev : Libev} (json : Json) where
  push_request-push :
      (worker : ℕ) (conn : TcpConnection ev) (root : json.Value) (p : Push) (log_id : ℕ)
      → Says json root p
      → push_request json worker (pos cmdno_push) conn root log_id
        ≡ some (message p worker conn.addr conn.fd log_id)
  unfolding push_request
  push_request-push worker conn root p log_id says =
      rw (says.uid, says.stream_name, says.audio, says.video) refl

  process_push-push :
      (worker : ℕ) (conn : TcpConnection ev) (root : json.Value) (p : Push) (log_id : ℕ)
      (rtc : Inbox)
      → Says json root p
      → process_push json worker (pos cmdno_push) conn root log_id rtc
        ≡ send_rtc_msg rtc (message p worker conn.addr conn.fd log_id)
  unfolding process_push
  process_push-push worker conn root p log_id rtc says =
      rw (push_request-push worker conn root p log_id says, process_push) refl

  pub process_request-push :
      (worker : ℕ) (conn : TcpConnection ev) (h : Xhead) (body : Bytes) (root : json.Value)
      (p : Push) (rtc : Inbox)
      → Fits h
      → json.parse body ≡ some root
      → Says json root p
      → process_request json worker conn (layout h) body rtc
        ≡ send_rtc_msg rtc (message p worker conn.addr conn.fd h.log_id)
  unfolding process_request
  process_request-push worker conn h body root p rtc fits parsed says =
      let head : view (layout h) ≡ h =
        ap view (sym (append-nil (layout h))) ∙ view-layout h [] fits in
      rw (parsed, process_request)
        (rw (says.cmdno, head) (process_push-push worker conn root p h.log_id rtc says))

-- An empty inbox whose pipe takes the notification has the message then.
pub send_rtc_msg-first :
    (rtc : Inbox) (msg : RtcMsg)
    → rtc.q_msg ≡ []
    → rtc.notify_pipe.accepts rtc.notify_pipe.unread ≡ true
    → (rtc' : Inbox) × (send_rtc_msg rtc msg ≡ (rtc', done)) × (rtc'.q_msg ≡ msg ∷ [])
unfolding send_rtc_msg notify push_msg send
send_rtc_msg-first rtc msg none_there takes = (
  record rtc {
    q_msg = msg ∷ [];
    notify_pipe = record (rtc.notify_pipe) { unread = rtc.notify_pipe.unread ++ rtc_msg ∷ [] };
  },
  rw (takes, none_there) refl,
  refl,
)

-- The RTC server hands its only message to the worker of the stream, which had none, and that
-- worker answers it.
pub hand-answer :
    (crc : Crc) (s : RtcServer) (n worker addr fd log_id : ℕ) (p : Push)
    → let msg = message p worker addr fd log_id in
      0 < n
      → length s.workers ≡ n
      → s.worker_num ≡ pos n
      → s.inbox.q_msg ≡ msg ∷ []
      → AllHave Waits s.workers (λ i. [])
      → (s' : RtcServer) × (wk : RtcWorker) × (wk' : RtcWorker) × (Rtc.process_rtc_msg crc s
          ≡ some s')
        × (get_elem? s'.workers (route crc n msg) ≡ some wk)
        × (RtcWorker.process_rtc_msg wk ≡ some (wk', some (worker, record msg { sdp = offer })))
unfolding answer snoc_at
hand-answer crc s n worker addr fd log_id p h len num q all =
    let msg = message p worker addr fd log_id in
    let (s', e, all', _, len', _) = process_one crc s n msg [] (λ i. []) h len num q all in
    let i = route crc n msg in
    let (wk, at) =
      get_elem?-total s'.workers i (omega (arith, len', mod-lt (crc.compute p.stream_name) h)) in
    let here : (i == i) ≡ true = (==_iff i i).1 refl in
    let waits : Waits wk (msg ∷ []) = rw here at (all' i wk at) in
    let (wk', f, _) = process_rtc_msg-answer wk msg [] waits in (s', wk, wk', e, at, f)
