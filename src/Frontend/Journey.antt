-- ===== src/Frontend/Journey.antt =====
-- A push from the form of the front end, signaling/src, through the media server,
-- xrtcserver/rtcserver/src, and back to the offer that the front end answers with.
use rtc_frameworker.Prelude.{
  ℕ, suc, ◌+◌, ◌^◌, ◌≡◌, ◌≤◌, ◌<◌, refl, sym, ap, ◌∙◌, true, List, [], ◌++◌, Option, none, some,
  codes, length, length-append, concat, arith,
}
use rtc_frameworker.Prelude.Int.{ℤ, pos, ◌==ℤ◌, ==ℤ_iff}
use rtc_frameworker.Messages.{Bytes, max_res_buf}
use rtc_frameworker.Platform.{Json, Crc}
use rtc_frameworker.Base.EventLoop.{Libev}
use rtc_frameworker.Base.Socket.{Answer, Address}
use rtc_frameworker.Base.Xhead.{Xhead, view, layout}
use rtc_frameworker.Base.Xhead.Layout.{Fits, length-layout}
use rtc_frameworker.Server.Receive.Reads.{Read, received}
use rtc_frameworker.Server.Reply.Stream.{AllProgress}
use rtc_frameworker.Server.Reply.Buffer.{block_size}
use rtc_frameworker.Server.RtcServer.{RtcServer}
use rtc_frameworker.Server.RtcServer.Routing.{route}
use rtc_frameworker.Server.RtcWorker.{offer}
use rtc_frameworker.Server.SignalingWorker.{SignalingWorker, conn_at, open_conn}
use rtc_frameworker.Server.Journey.{journey}
use rtc_frameworker.Server.Journey.Request.{Push, Says, message}
use rtc_frameworker.Server.Journey.Arrival.{Idle, IsRequest, answer_text, push-answered}
use rtc_frameworker.Frontend.Outcome.{Outcome, returned, ◌>>=◌}
use rtc_frameworker.Frontend.Header.Layout.{as_xhead, from_xhead}
use rtc_frameworker.Frontend.Streams.{Arrivals}
use rtc_frameworker.Frontend.Packets.{Response, read_response, request_header}
use rtc_frameworker.Frontend.Packets.Cut.{
  write-new_request, read_response_cut, response_in, response_in-whole,
}
use rtc_frameworker.Frontend.Selector.{pick_server}
use rtc_frameworker.Frontend.Client.{Client, Exchange, Link, exchange}
use rtc_frameworker.Frontend.Client.Calls.{do_request-done}
use rtc_frameworker.Frontend.Xrpc.{find_client, call, serviced, requested}
use rtc_frameworker.Frontend.Push.{
  GoJson, Form, XrtcPushReq, XrtcPushResp, form_request, execute, answer_to, success_response,
  proceed,
}

-- The header that a request with this text has, as the servers see it.
abbrev pub head_of : ℕ → Bytes → Xhead
head_of log_id text = as_xhead (request_header log_id (length text))

-- What the servers take a request for.
abbrev pub push_of : XrtcPushReq → Push
push_of req = record {
  uid = req.uid;
  stream_name = req.stream_name;
  audio = pos req.audio;
  video = pos req.video;
}

-- encoding/json and jsoncpp agree: on the text of this request, and on the text of the answer.
pub record Agree (go : GoJson) (json : Json) (req : XrtcPushReq) (root : json.Value) : Type 0 where
  pub parses : json.parse (go.marshal req) ≡ some root
  pub says : Says json root (push_of req)
  pub reads :
      go.unmarshal (answer_text json)
      ≡ some (record { err_no = pos 0; err_msg = codes "process success"; offer = offer })

head_of-Fits :
    (log_id : ℕ) (text : Bytes)
    → log_id < 2 ^ 32
    → length text < 2 ^ 32
    → Fits (head_of log_id text)
head_of-Fits log_id text h k = record {
  id = omega arith;
  version = omega arith;
  log_id = h;
  provider = refl;
  magic_num = omega arith;
  reserved = omega arith;
  body_len = k;
}

module _ {Addr : Type 0} (dial : Addr → ℤ → Option Link) where
  call-done :
      (clients : List (Bytes × Client Addr)) (c : Client Addr) (service content : Bytes)
      (log_id : ℕ) (addr : Addr) (link : Link) (resp : Response)
      → find_client (codes "xrpc." ++ service) clients ≡ some c
      → (pick_server c.selector).1 ≡ returned addr
      → dial addr c.connect_timeout ≡ some link
      → log_id < 2 ^ 32
      → length content < 2 ^ 32
      → 36 + length content ≤ link.takes
      → read_response link.arrivals ≡ returned resp
      → let result = call dial clients service content log_id in
        (result.1 ≡ returned resp.body)
        × (result.2 ≡ some (exchange c addr (layout (head_of log_id content) ++ content) true))
  unfolding call
  call-done clients c service content log_id addr link resp found p d fits short h r =
      let (req, made, written) = write-new_request content [] log_id short in
      let bytes = layout (head_of log_id content) ++ content in
      let all : length bytes ≤ link.takes = omega (
        arith,
        length-append (layout (head_of log_id content)) content,
        length-layout (head_of log_id content) (head_of-Fits log_id content fits short),
        h,
      ) in
      let e = do_request-done dial c req addr link bytes resp p d written all r in
      let key = codes "xrpc." ++ service in
      let asked =
        ap (serviced dial clients key content log_id) found
        ∙ ap (requested dial clients key c) made in
      (
        ap (λ t. t.1) asked
            ∙ ap
                (λ (t : Client Addr × Outcome Response × Option (Exchange Addr)).
                  t.1 >>= (λ response. returned response.body))
                e,
        ap (λ t. t.2) asked
            ∙ ap (λ (t : Client Addr × Outcome Response × Option (Exchange Addr)). t.2) e,
      )

answer_to-success :
    (go : GoJson) (body : Bytes) (resp : XrtcPushResp)
    → go.unmarshal body ≡ some resp
    → resp.err_no ≡ pos 0
    → answer_to go (returned body) ≡ returned (success_response resp.offer)
unfolding answer_to
answer_to-success go body resp e zero_err =
    let fine : (resp.err_no ==ℤ pos 0) ≡ true = (==ℤ_iff _ _).1 zero_err in
    rw (e, answer_to, fine) refl

-- What arrives when the network cuts the bytes of the server, if there are any, into pieces.
abbrev pub delivered : (Bytes → Arrivals) → Option Bytes → Arrivals
delivered cut none = []
delivered cut (some bytes) = cut bytes

-- A form that passes the checks is answered with the offer of the media server, if the call meets
-- no obstacle. On the side of the front end: the service has a client, whose next server can be
-- dialled and takes the whole request, which has less than 2^32 bytes. On the side of the server:
-- the request arrives on a new connection, in any pieces; the worker has no other reply to send,
-- the RTC server and its workers have nothing else to do, the block of zmalloc has the size that
-- was asked for, the text of the answer fits it, and each write takes at least one byte. The JSON
-- libraries of the two programs agree on the request and the answer, and the network may cut what
-- the server sends as it likes. Then the action answers a success with the server's offer, it sent
-- exactly one request, and it closed its connection.
pub push-offer :
    {Addr : Type 0} {ev : Libev} (json : Json) (crc : Crc) (go : GoJson)
    (dial : Addr → ℤ → Option Link) (clients : List (Bytes × Client Addr)) (c : Client Addr)
    (addr : Addr) (takes : ℕ) (cut : Bytes → Arrivals) (form : Form) (req : XrtcPushReq)
    (log_id : ℕ) (w : SignalingWorker ev) (s : RtcServer) (n fd conn opened now : ℕ)
    (peer : Answer Address) (reads : List Read) (root : json.Value) (block : Bytes)
    (answers : List (Answer ℕ))
    → form_request form ≡ returned (some req)
    → log_id < 2 ^ 32
    → length (go.marshal req) < 2 ^ 32
    → find_client (codes "xrpc.xrtc") clients ≡ some c
    → (pick_server c.selector).1 ≡ returned addr
    → dial addr c.connect_timeout
      ≡ some (record {
        takes = takes;
        arrivals = delivered cut (
            journey json crc w s
              (suc fd)
              reads
              (route crc n (message (push_of req) w.worker_id conn (suc fd) log_id))
              block
              answers
              now);
      })
    → ((bytes : Bytes) → concat (cut bytes) ≡ bytes)
    → 36 + length (go.marshal req) ≤ takes
    → Agree go json req root
    → received reads ≡ layout (head_of log_id (go.marshal req)) ++ go.marshal req
    → w.q_msg ≡ []
    → conn_at w.conns (suc fd) ≡ some (open_conn conn (suc fd) opened peer)
    → Idle s n
    → length block ≡ block_size
    → length (answer_text json) < max_res_buf
    → AllProgress answers
    → 36 + length (answer_text json) ≤ length answers
    → ((execute go dial clients log_id form).1 ≡ returned (success_response offer))
      × ((execute go dial clients log_id form).2 ≡ some (exchange c addr (received reads) true))
unfolding execute proceed
push-offer json crc go dial clients c addr takes cut form req log_id w s n fd conn opened now peer
      reads root block answers checked fits short found picked dialled whole_cut room agree arrives
      quiet there idle whole small progress many =
    let text = go.marshal req in
    let head = head_of log_id text in
    let is_request : IsRequest reads head text = record {
      fits = head_of-Fits log_id text fits short;
      magic = refl;
      whole = refl;
      arrives = arrives;
    } in
    let (sent, e, all, header, rest) =
      push-answered json crc w s n fd conn opened now peer head text reads root (push_of req) block
        answers quiet there idle is_request agree.parses agree.says whole small progress many in
    let got : read_response (
          delivered cut (
            journey json crc w s (suc fd) reads
              (route crc n (message (push_of req) w.worker_id conn (suc fd) log_id)) block answers
              now))
        ≡ returned (record { header = from_xhead (view sent); body = answer_text json }) =
      ap (λ o. read_response (delivered cut o)) e
      ∙ read_response_cut (cut sent)
      ∙ ap response_in (whole_cut sent)
      ∙ response_in-whole sent (answer_text json) all (ap (λ (x : Xhead). x.magic_num) header)
          (ap (λ (x : Xhead). x.body_len) header) rest in
    let (body, made) =
      call-done dial clients c (codes "xrtc") text log_id addr _ _ found picked dialled fits short
        room got in
    (
      ap (λ o. (proceed go dial clients log_id o).1) checked
          ∙ ap (answer_to go) body
          ∙ answer_to-success go (answer_text json) _ agree.reads refl,
      ap (λ o. (proceed go dial clients log_id o).2) checked
          ∙ made
          ∙ ap (λ bs. some (exchange c addr bs true)) (sym arrives),
    )
