-- ===== src/Examples/Journey.antt =====
-- The theorems on whole runs (a request and its answer, and a worker's callbacks) applied to
-- concrete inputs.
use rtc_frameworker.Prelude.{
  ℕ, suc, ◌≡◌, refl, List, [], ◌∷◌, some, arith, length, replicate, drop, length-replicate, zero,
  ◌+◌,
}
use rtc_frameworker.Prelude.Int.{pos}
use rtc_frameworker.Messages.{Bytes}
use rtc_frameworker.Base.LockFreeQueue.Invariant.{create-Inv}
use rtc_frameworker.Base.Socket.{Answer, value}
use rtc_frameworker.Base.Xhead.{view}
use rtc_frameworker.Server.RtcWorker as RtcWorker
use rtc_frameworker.Server.RtcWorker.Handling as Handling
use rtc_frameworker.Server.RtcServer as Rtc
use rtc_frameworker.Server.RtcServer.{RtcServer}
use rtc_frameworker.Server.RtcServer.Routing.{route}
use rtc_frameworker.Server.Reply.Stream.{AllProgress}
use rtc_frameworker.Server.SignalingWorker.Callbacks.{accepted, initial, after}
use rtc_frameworker.Server.SignalingWorker.Invariant.{Everywhere}
use rtc_frameworker.Server.SignalingWorker.{new_conn}
use rtc_frameworker.Server.SignalingWorker.Lifecycle as Lifecycle
use rtc_frameworker.Server.SignalingWorker.Serving.{Serving, Reach-Serving}
use rtc_frameworker.Server.Journey.{journey}
use rtc_frameworker.Server.Journey.Request.{Push, Says, message}
use rtc_frameworker.Server.Journey.Arrival.{Idle, IsRequest, answer_text, push-answered}
use rtc_frameworker.Examples.{without_nul, toy_crc, toy_head, toy_body, empty_inbox}
use rtc_frameworker.Examples.Server.{two_reads, toy_head-Fits, two_reads_lem}
use rtc_frameworker.Examples.Workers.{client_there, push_json, nobody, idle, serving, one-AllHave}

Reach-Serving_example : Everywhere Serving serving.conns
Reach-Serving_example =
    Reach-Serving push_json 0 (pos 100) serving
      (after idle serving initial (accepted idle 7 500 10 nobody (omega arith))) (tt, tt)

abbrev pub one_worker : RtcServer
one_worker = record Rtc.create {
  worker_num = pos 1;
  workers = RtcWorker.create 0 ∷ [];
  inbox = empty_inbox;
}

pub one_worker-Idle : Idle one_worker 1
unfolding Rtc.create RtcWorker.create
one_worker-Idle = record {
  some_worker = omega arith;
  all_there = refl;
  configured = refl;
  empty = refl;
  takes = refl;
  waits = one-AllHave Handling.Waits (RtcWorker.create 0) (create-Inv RtcWorker.default_msg);
}

two_reads-IsRequest : IsRequest two_reads toy_head toy_body
two_reads-IsRequest = record {
  fits = toy_head-Fits;
  magic = refl;
  whole = refl;
  arrives = two_reads_lem;
}

abbrev push : Push
push = record { uid = 7; stream_name = toy_body; audio = pos 1; video = pos 1 }

body_Says : Says push_json toy_body push
body_Says = record { cmdno = refl; uid = refl; stream_name = refl; audio = refl; video = refl }

abbrev pub block : Bytes
block = replicate 4132 0

-- A kernel that takes one byte at a time.
abbrev pub slow : ℕ → List (Answer ℕ)
slow n = replicate n (value 1)

pub slow-AllProgress : (n : ℕ) → AllProgress (slow n)
slow-AllProgress zero = tt
slow-AllProgress (suc n) = ((0, refl), slow-AllProgress n)

pub no_replies : serving.q_msg ≡ []
unfolding new_conn Lifecycle.create
no_replies = refl

push-answered_example :
    let index = route toy_crc 1 (message push 0 500 7 3) in
    (sent : Bytes) × (journey push_json toy_crc serving one_worker 7 two_reads index block
        (slow 100)
        40
      ≡ some sent)
    × (length sent ≡ 36 + length (answer_text push_json))
    × (view sent ≡ record toy_head { body_len = length (answer_text push_json) })
    × (drop 36 sent ≡ answer_text push_json)
unfolding without_nul
push-answered_example =
    push-answered push_json toy_crc serving one_worker 1 6 500 10 40 nobody toy_head toy_body
      two_reads toy_body push block (slow 100) no_replies client_there one_worker-Idle
      two_reads-IsRequest refl body_Says (length-replicate {A = ℕ} 4132 0) (omega arith)
      (slow-AllProgress 100) (omega arith)
