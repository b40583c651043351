-- ===== src/Server/RtcWorker/Handling.antt =====
-- rtc_worker.cpp: what a worker keeps in its queue, and what it answers.
use rtc_frameworker.Prelude.{
  ℕ, ◌≡◌, refl, List, [], ◌∷◌, ◌++◌, Option, none, some, true, if◌then◌else◌,
}
use rtc_frameworker.Prelude.Int.{ℤ, pos, ◌==ℤ◌}
use rtc_frameworker.Messages.{RtcMsg, Ret, cmdno_push}
use rtc_frameworker.Base.LockFreeQueue.{LockFreeQueue, produce, consume}
use rtc_frameworker.Base.LockFreeQueue.Invariant.{Inv}
use rtc_frameworker.Base.LockFreeQueue.Fifo.{produce-Inv, consume-nil, consume-cons}
use rtc_frameworker.Base.Pipe.{send}
use rtc_frameworker.Server.Thread.{joinable}
use rtc_frameworker.Server.RtcWorker.{
  RtcWorker, rtc_msg, notify, push_msg, pop_msg, send_rtc_msg, offer, process_push, process_rtc_msg,
  addressed,
}

-- The messages that wait in a worker's queue, oldest first.
abbrev pub Waits : RtcWorker → List RtcMsg → Type 0
Waits w msgs = Inv w.q_msg msgs

notify_kept :
    (w : RtcWorker) (n : ℤ) (msgs : List RtcMsg) → Waits w msgs → Waits (notify w n).0 msgs
unfolding notify
notify_kept w n msgs v = v

pushed :
    (w : RtcWorker) (msg : RtcMsg) (q : LockFreeQueue RtcMsg)
    → produce w.q_msg msg ≡ some q
    → push_msg w msg ≡ some (record w { q_msg = q })
unfolding push_msg
pushed w msg q e = rw (e, push_msg) refl

popped :
    (w : RtcWorker) (m : Option RtcMsg) (q : LockFreeQueue RtcMsg)
    → consume w.q_msg ≡ some (m, q)
    → pop_msg w ≡ some (m, record w { q_msg = q })
unfolding pop_msg
popped w m q e = rw (e, pop_msg) refl

-- A message sent to a worker waits behind those that wait there.
pub send_rtc_msg-Waits :
    (w : RtcWorker) (msgs : List RtcMsg) (msg : RtcMsg)
    → Waits w msgs
    → (r : RtcWorker × Ret) × (send_rtc_msg w msg ≡ some r) × Waits r.0 (msgs ++ msg ∷ [])
unfolding send_rtc_msg
send_rtc_msg-Waits w msgs msg v =
    let (q, e, i, _) = produce-Inv w.q_msg msgs msg v in
    (
      notify (record w { q_msg = q }) rtc_msg,
      rw (pushed w msg q e, send_rtc_msg) refl,
      notify_kept (record w { q_msg = q }) rtc_msg (msgs ++ msg ∷ []) i,
    )

-- A worker whose thread runs, and whose pipe takes every notification, with what waits in its
-- queue.
pub record Running (w : RtcWorker) (msgs : List RtcMsg) : Type 0 where
  pub waits : Waits w msgs
  pub thread : w.thread ≡ joinable
  pub takes : (unread : List ℤ) → w.notify_pipe.accepts unread ≡ true

notify-Running :
    (w : RtcWorker) (n : ℤ) (msgs : List RtcMsg) → Running w msgs → Running (notify w n).0 msgs
unfolding notify send
notify-Running w n msgs v = record {
  waits = v.waits;
  thread = v.thread;
  takes = λ unread. rw (v.takes w.notify_pipe.unread, send) (v.takes unread);
}

pub send_rtc_msg-Running :
    (w : RtcWorker) (msgs : List RtcMsg) (msg : RtcMsg)
    → Running w msgs
    → (r : RtcWorker × Ret) × (send_rtc_msg w msg ≡ some r) × Running r.0 (msgs ++ msg ∷ [])
unfolding send_rtc_msg
send_rtc_msg-Running w msgs msg v =
    let (q, e, i, _) = produce-Inv w.q_msg msgs msg v.waits in
    let w1 = record w { q_msg = q } in
    (
      notify w1 rtc_msg,
      rw (pushed w msg q e, send_rtc_msg) refl,
      notify-Running w1 rtc_msg (msgs ++ msg ∷ [])
          (record { waits = i; thread = v.thread; takes = v.takes }),
    )

-- What a worker answers to a message: a push request goes back to the signaling worker that it
-- names with the offer filled in and all else unchanged; anything else is dropped.
unfoldable pub answer : RtcMsg → Option (ℕ × RtcMsg)
answer msg =
    if msg.cmdno ==ℤ pos cmdno_push then addressed msg.worker (record msg { sdp = offer }) else none

-- Of the worker, handling a message changes the queue alone.
pub process_rtc_msg-queue :
    (w : RtcWorker) (msg : RtcMsg) (msgs : List RtcMsg)
    → Waits w (msg ∷ msgs)
    → (q : LockFreeQueue RtcMsg) × (process_rtc_msg w ≡ some (record w { q_msg = q }, answer msg))
      × Inv q msgs
unfolding process_rtc_msg answer process_push
process_rtc_msg-queue w msg msgs v =
    let (q, e, i) = consume-cons w.q_msg msg msgs v in
    (q, rw (popped w (some msg) q e, process_rtc_msg) refl, i)

-- With messages waiting, `process_rtc_msg` takes the oldest and answers it.
pub process_rtc_msg-answer :
    (w : RtcWorker) (msg : RtcMsg) (msgs : List RtcMsg)
    → Waits w (msg ∷ msgs)
    → (w' : RtcWorker) × (process_rtc_msg w ≡ some (w', answer msg)) × Waits w' msgs
process_rtc_msg-answer w msg msgs v =
    let (q, e, i) = process_rtc_msg-queue w msg msgs v in (record w { q_msg = q }, e, i)

-- With none waiting it answers nothing and changes nothing.
pub process_rtc_msg-nil : (w : RtcWorker) → Waits w [] → process_rtc_msg w ≡ some (w, none)
unfolding process_rtc_msg
process_rtc_msg-nil w v = rw (popped w none w.q_msg (consume-nil w.q_msg v), process_rtc_msg) refl
