-- ===== src/Examples/Setup.antt =====
-- The theorems on the servers' `Init`, and on a worker that stops, applied to concrete inputs.
use rtc_frameworker.Prelude.{
  ℕ, ◌%◌, ◌≡◌, refl, ◌==◌, true, false, List, [], ◌∷◌, some, arith, codes, if◌then◌else◌, length,
  none, ◌+◌,
}
use rtc_frameworker.Prelude.Int.{ℤ, pos}
use rtc_frameworker.Messages.{RtcMsg, done}
use rtc_frameworker.Base.LockFreeQueue.Invariant.{create-Inv}
use rtc_frameworker.Base.Pipe.{Pipe, roomy}
use rtc_frameworker.Base.Socket.{ServerCalls, value, error, other, create_tcp_server}
use rtc_frameworker.Server.Thread.{joinable, joined, no_thread}
use rtc_frameworker.Server.Hiring.{Pipes, first_error, hired, outcome}
use rtc_frameworker.Server.Shares.{AllHave, keep}
use rtc_frameworker.Server.RtcWorker as RtcWorker
use rtc_frameworker.Server.RtcWorker.{RtcWorker, run_loop}
use rtc_frameworker.Server.RtcWorker.Handling as Handling
use rtc_frameworker.Server.RtcWorker.Stopping.{stop-joins}
use rtc_frameworker.Server.RtcServer as Rtc
use rtc_frameworker.Server.RtcServer.{RtcServer}
use rtc_frameworker.Server.RtcServer.Routing.{process_all, route}
use rtc_frameworker.Server.RtcServer.Setup as RtcSetup
use rtc_frameworker.Server.RtcServer.Setup.{init-hired, init-routes}
use rtc_frameworker.Server.SignalingServer as Signaling
use rtc_frameworker.Server.SignalingServer.{SignalingServer}
use rtc_frameworker.Server.SignalingServer.Dispatch as Dispatch
use rtc_frameworker.Server.SignalingServer.Dispatch.{dispatch_all, deal}
use rtc_frameworker.Server.SignalingServer.Setup as SignalingSetup
use rtc_frameworker.Server.SignalingServer.Setup.{Options, Gives, init-hires, init-deals}
use rtc_frameworker.Server.SignalingWorker.{SignalingWorker}
use rtc_frameworker.Server.SignalingWorker.Lifecycle as Lifecycle
use rtc_frameworker.Server.SignalingWorker.Lifecycle.{Supply}
use rtc_frameworker.Server.SignalingWorker.Lifecycle.Stopping as SignalingStops
use rtc_frameworker.Server.SignalingServer.Stopping as SignalingStopping
use rtc_frameworker.Server.RtcWorker.Dismissed as RtcStopping
use rtc_frameworker.Main.{Globals}
use rtc_frameworker.Examples.{toy_libev, toy_yaml, toy_crc}

abbrev own : ℤ × ℤ × Pipe
own = (pos 3, pos 4, roomy)

-- Every pipe is made.
abbrev all_pipes : ℕ → Pipes
all_pipes i = value (pos 5, pos 6, roomy)

abbrev file : List ℕ
file = codes "rtc"

abbrev two_workers : RtcServer
two_workers = RtcSetup.ready toy_yaml (pos 2) own (hired RtcSetup.started 2 0 all_pipes)

two_workers_made : Rtc.init toy_yaml Rtc.create file (value own) all_pipes ≡ (done, two_workers)
unfolding first_error
two_workers_made = init-hired toy_yaml file file (pos 2) own all_pipes refl refl

abbrev a_msg : RtcMsg
a_msg = record (RtcWorker.default_msg) { stream_name = codes "s" }

abbrev queued : RtcServer
queued = record two_workers { inbox = record (two_workers.inbox) { q_msg = a_msg ∷ [] } }

init-routes_example :
    (s' : RtcServer) × (process_all toy_crc (a_msg ∷ []) queued ≡ some s')
    × AllHave Handling.Waits s'.workers (λ i. keep (λ m. route toy_crc 2 m == i) (a_msg ∷ []))
    × (s'.inbox.q_msg ≡ [])
    × (length s'.workers ≡ 2)
init-routes_example =
    init-routes toy_yaml toy_crc file file 2 own all_pipes two_workers (a_msg ∷ []) refl refl
      (omega arith) two_workers_made

abbrev options : Options
options = record { host = file; port = pos 2; worker_num = pos 2; connection_timeout = pos 2 }

file-Gives : Gives toy_yaml file options
file-Gives = (refl, refl, refl, refl)

abbrev listening : ServerCalls
listening = record {
  socket = value 9;
  setsockopt = value 0;
  inet_aton = true;
  bind = value 0;
  listen = value 0;
}

listens : (create_tcp_server file listening).0 ≡ pos 9
unfolding create_tcp_server
listens = refl

-- The pipe of the second worker fails.
abbrev one_pipe : ℕ → Pipes
one_pipe i = if i == 1 then error other else value (pos 5, pos 6, roomy)

init-hires_example :
    Signaling.init toy_yaml
      (Signaling.create toy_libev [] (pos 0) (pos 0) (pos 0))
      file
      (value own)
      listening
      one_pipe
    ≡ (
      outcome (first_error 2 0 one_pipe),
      SignalingSetup.ready toy_yaml options own 9
          (hired (SignalingSetup.started (pos 2)) 2 0 one_pipe),
    )
init-hires_example =
    init-hires toy_yaml b'r' (codes "tc") file options [] (pos 0) (pos 0) (pos 0) own listening 9
      one_pipe refl file-Gives listens

abbrev dealing : SignalingServer toy_libev
dealing =
    SignalingSetup.ready toy_yaml options own 9
      (hired (SignalingSetup.started (pos 2)) 2 0 all_pipes)

dealing_made :
    Signaling.init toy_yaml
      (Signaling.create toy_libev [] (pos 0) (pos 0) (pos 0))
      file
      (value own)
      listening
      all_pipes
    ≡ (done, dealing)
unfolding first_error
dealing_made =
    init-hires toy_yaml b'r' (codes "tc") file options [] (pos 0) (pos 0) (pos 0) own listening 9
      all_pipes refl file-Gives listens

abbrev three : List ℤ
three = pos 10 ∷ pos 11 ∷ pos 12 ∷ []

init-deals_example :
    (s' : SignalingServer toy_libev) × (dispatch_all three dealing ≡ some s')
    × AllHave Dispatch.Waits s'.workers (deal 2 0 three (λ i. []))
    × (s'.next_worker ≡ 3 % 2)
init-deals_example =
    init-deals toy_yaml b'r' (codes "tc") file options [] (pos 0) (pos 0) (pos 0) own listening 9 2
      all_pipes dealing three refl file-Gives listens refl (omega arith) dealing_made

-- A worker whose thread runs, with a message's notification in its pipe.
abbrev running_worker : RtcWorker
running_worker = record (RtcWorker.create 0) {
  thread = joinable;
  looping = true;
  notify_pipe = record roomy { unread = RtcWorker.rtc_msg ∷ [] };
}

stop-joins_example :
    (w' : RtcWorker) × (sent : List (ℕ × RtcMsg)) × (run_loop 2 (RtcWorker.stop running_worker, [])
      ≡ some (w', sent))
    × (w'.looping ≡ false)
    × (RtcWorker.join w' ≡ some (record w' { thread = joined }))
    × (RtcWorker.destroy (record w' { thread = joined }) ≡ some (record w' { thread = no_thread }))
unfolding RtcWorker.create
stop-joins_example = stop-joins running_worker [] (create-Inv RtcWorker.default_msg) refl refl

-- A running server with one running worker, a message and its notification.
abbrev new_worker : RtcWorker
new_worker = record (RtcWorker.create 0) { thread = joinable; looping = true }

abbrev running_server : RtcServer
running_server = record Rtc.create {
  worker_num = pos 1;
  workers = new_worker ∷ [];
  thread = joinable;
  looping = true;
  inbox = record { q_msg = a_msg ∷ []; notify_pipe = record roomy { unread = pos 1 ∷ [] } };
}

-- A running signaling worker, and its server.
abbrev signaling_worker : SignalingWorker toy_libev
signaling_worker = record (Lifecycle.create 0 (pos 100)) { thread = joinable; looping = true }

abbrev supplies : ℕ → Supply
supplies i = record { addr = 500 + i; now = i; peer = error other; block = none }

abbrev running_signaling : SignalingServer toy_libev
running_signaling = record (Signaling.create toy_libev [] (pos 80) (pos 1) (pos 100)) {
  thread = joinable;
  looping = true;
  workers = signaling_worker ∷ [];
}

abbrev running : Globals toy_libev
running = record {
  conf = none;
  log = none;
  signaling_server = some running_signaling;
  rtc_server = some running_server;
}
