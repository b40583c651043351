-- ===== src/Examples/Ending.antt =====
-- The theorem on a worker that is told to stop applied to one with a client.
use rtc_frameworker.Prelude.{ℕ, suc, ◌-◌, ◌≤◌, ◌≡◌, refl, [], none, some, length, ◌⊎◌, true}
use rtc_frameworker.Prelude.Int.{pos}
use rtc_frameworker.Base.LockFreeQueue as Queue
use rtc_frameworker.Base.LockFreeQueue.Invariant.{create-Inv}
use rtc_frameworker.Server.Thread.{joinable}
use rtc_frameworker.Server.SignalingWorker.{
  SignalingWorker, new_conn, send_rtc_msg, stop, conn_timer_cb,
}
use rtc_frameworker.Server.SignalingWorker.Lifecycle as Lifecycle
use rtc_frameworker.Server.SignalingWorker.Lifecycle.{
  run_loop, Supply, stop_loop, worker_recv_notify, process_notify,
}
use rtc_frameworker.Server.SignalingWorker.Lifecycle.Turns.{
  Turns, timer, answered, initial, after, reads,
}
use rtc_frameworker.Server.SignalingWorker.Lifecycle.Amid.{Joins, stop-amid}
use rtc_frameworker.Examples.{toy_libev}
use rtc_frameworker.Examples.Workers.{push_json, nobody, serving, client, a_msg}

-- A worker whose thread runs, told to stop: then a message comes, a timer fires, and it reads.
abbrev started : SignalingWorker toy_libev
started = record serving { thread = joinable; looping = true }

abbrev stopped : SignalingWorker toy_libev
stopped = stop started

abbrev sent_to : SignalingWorker toy_libev
sent_to = (send_rtc_msg stopped a_msg).0

abbrev timed : SignalingWorker toy_libev
timed = conn_timer_cb sent_to client 20

abbrev supply : Supply
supply = record { addr = 600; now = 30; peer = nobody; block = none }

-- Between the timer and the read: the notification still waits.
turns : Turns push_json stopped timed
turns =
    after sent_to timed (after stopped sent_to initial (answered stopped a_msg))
      (timer sent_to client 20)

stop-amid_example :
    let n = length started.notify_pipe.unread in
    Joins timed
    ⊎ ((reads push_json turns ≤ n)
        × (v : SignalingWorker toy_libev) × (i : ℕ) × (run_loop push_json
              (λ _. supply)
              (suc (n - reads push_json turns))
              (timed, 0)
            ≡ some (v, i))
        × Joins v)
unfolding new_conn Lifecycle.create Queue.create
stop-amid_example =
    stop-amid push_json started timed [] (λ _. supply) turns (create-Inv (pos 0)) refl refl
