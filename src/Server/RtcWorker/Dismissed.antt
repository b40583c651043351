-- ===== src/Server/RtcWorker/Dismissed.antt =====
-- rtc_worker.cpp: running workers that their server stops and joins in its `_stop`.
use rtc_frameworker.Prelude.{ℕ, suc, ◌≡◌, refl, List, [], ◌∷◌, some, length, false}
use rtc_frameworker.Messages.{RtcMsg}
use rtc_frameworker.Server.Shares.{AllHave}
use rtc_frameworker.Server.Thread.{joined}
use rtc_frameworker.Server.RtcWorker as RtcWorker
use rtc_frameworker.Server.RtcWorker.{RtcWorker}
use rtc_frameworker.Server.RtcWorker.Handling.{Running}
use rtc_frameworker.Server.RtcWorker.Stopping.{drained, stop-drained, join-left}
use rtc_frameworker.Server.Dismissing.{dismiss, dismiss-Each, Each}

-- A worker that was stopped and joined: the destructor does not terminate the program.
abbrev pub IsJoined : RtcWorker → Type 0
IsJoined w = (w.looping ≡ false) × (w.thread ≡ joined)

abbrev pub IsRunning : RtcWorker → Type 0
IsRunning w = (msgs : List RtcMsg) × Running w msgs

pub all-Each :
    (ws : List RtcWorker) (shares : ℕ → List RtcMsg) → AllHave Running ws shares → Each IsRunning ws
all-Each [] shares all = tt
all-Each (w ∷ ws) shares all =
    ((shares 0, all 0 w refl), all-Each ws (λ i. shares (suc i)) (λ i v e. all (suc i) v e))

pub dismissed :
    (ws : List RtcWorker)
    → Each IsRunning ws
    → (vs : List RtcWorker) × (dismiss RtcWorker.stop drained RtcWorker.join ws ≡ some vs)
      × (length vs ≡ length ws)
      × Each IsJoined vs
dismissed ws all =
    dismiss-Each RtcWorker.stop drained RtcWorker.join IsRunning IsJoined
      (λ w (msgs, running).
        let (v, e, l, t) = stop-drained w msgs running in
        (v, record v { thread = joined }, e, join-left v l t, (l, refl)))
      ws all
