-- ===== src/Examples/Workers.antt =====
-- The theorems on the workers, the servers that deal to them and main.cpp applied to concrete
-- inputs.
use rtc_frameworker.Prelude.{
  zero, suc, ◌%◌, ◌≡◌, refl, ◌==◌, List, [], ◌∷◌, ◌++◌, some, arith, length, subst,
}
use rtc_frameworker.Prelude.Int.{pos}
use rtc_frameworker.Messages.{RtcMsg, cmdno_push}
use rtc_frameworker.Platform.{Json}
use rtc_frameworker.Base.LockFreeQueue.Invariant.{create-Inv}
use rtc_frameworker.Base.LockFreeQueue as Queue
use rtc_frameworker.Base.Socket.{Answer, error, eagain, Address}
use rtc_frameworker.Server.Connection.{TcpConnection}
use rtc_frameworker.Server.Shares.{AllHave, keep}
use rtc_frameworker.Server.RtcWorker as RtcWorker
use rtc_frameworker.Server.RtcWorker.{offer}
use rtc_frameworker.Server.RtcWorker.Handling as Handling
use rtc_frameworker.Server.RtcWorker.Handling.{answer}
use rtc_frameworker.Server.RtcServer as Rtc
use rtc_frameworker.Server.RtcServer.{RtcServer}
use rtc_frameworker.Server.RtcServer.Routing.{process_all, route, process_all-routes}
use rtc_frameworker.Server.SignalingServer as Signaling
use rtc_frameworker.Server.SignalingServer.{SignalingServer}
use rtc_frameworker.Server.SignalingServer.Dispatch as Dispatch
use rtc_frameworker.Server.SignalingServer.Dispatch.{dispatch_all, deal, dispatch_all-deal}
use rtc_frameworker.Server.SignalingWorker.{SignalingWorker, conn_at, new_conn, open_conn}
use rtc_frameworker.Server.SignalingWorker.Lifecycle as Lifecycle
use rtc_frameworker.Server.SignalingWorker.Table.{new_conn_table}
use rtc_frameworker.Examples.{toy_libev, toy_json, toy_crc, empty_inbox, toy_body}

abbrev pub push_json : Json
push_json = toy_json (pos cmdno_push)

pub one-AllHave :
    {W A : Type 0} (Has : W → List A → Type 0) (w : W) → Has w [] → AllHave Has (w ∷ []) (λ _. [])
one-AllHave Has w h zero v e = let same : w ≡ v = cc e in subst (λ x. Has x []) same h
one-AllHave Has w h (suc i) v e = cc e

abbrev pub nobody : Answer Address
nobody = error eagain

-- A worker with one client, whose descriptor is 7 and whose address is 500.
abbrev pub idle : SignalingWorker toy_libev
idle = Lifecycle.create 0 (pos 100)

abbrev pub serving : SignalingWorker toy_libev
serving = new_conn idle (pos 7) 500 10 nobody

abbrev pub client : TcpConnection toy_libev
client = open_conn 500 7 10 nobody

abbrev pub a_msg : RtcMsg
a_msg = record {
  cmdno = pos cmdno_push;
  uid = 7;
  stream_name = toy_body;
  audio = pos 1;
  video = pos 1;
  log_id = 3;
  worker = some 0;
  conn = some 500;
  sdp = [];
  err_no = pos 0;
  fd = pos 7;
}

abbrev two_messages : List RtcMsg
two_messages = a_msg ∷ record a_msg { uid = 8 } ∷ []

abbrev rtc : RtcServer
rtc = record Rtc.create {
  worker_num = pos 1;
  workers = RtcWorker.create 0 ∷ [];
  inbox = record empty_inbox { q_msg = two_messages };
}

process_all-routes_example :
    (s' : RtcServer) × (process_all toy_crc two_messages rtc ≡ some s')
    × AllHave Handling.Waits s'.workers (λ i. [] ++ keep (λ m. route toy_crc 1 m == i) two_messages)
    × (s'.inbox.q_msg ≡ [])
    × (length s'.workers ≡ 1)
unfolding Rtc.create RtcWorker.create Queue.create
process_all-routes_example =
    process_all-routes toy_crc rtc 1 (λ _. []) (omega arith) refl refl
      (one-AllHave Handling.Waits (RtcWorker.create 0) (create-Inv RtcWorker.default_msg))

abbrev signaling : SignalingServer toy_libev
signaling = record (Signaling.create toy_libev [] (pos 80) (pos 1) (pos 100)) {
  workers = idle ∷ [];
}

dispatch_all-deal_example :
    (s' : SignalingServer toy_libev) × (dispatch_all (pos 7 ∷ pos 8 ∷ []) signaling ≡ some s')
    × AllHave Dispatch.Waits s'.workers (deal 1 0 (pos 7 ∷ pos 8 ∷ []) (λ _. []))
    × (s'.next_worker ≡ 2 % 1)
    × (length s'.workers ≡ 1)
unfolding Signaling.create Lifecycle.create Queue.create
dispatch_all-deal_example =
    dispatch_all-deal signaling (pos 7 ∷ pos 8 ∷ []) (λ _. []) (omega arith)
      (one-AllHave Dispatch.Waits idle (create-Inv (pos 0)))

pub client_there : conn_at serving.conns 7 ≡ some (open_conn 500 7 10 nobody)
client_there = (new_conn_table idle 7 500 10 nobody 3 (omega arith) (λ e. omega (arith, e))).0
