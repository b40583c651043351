-- ===== src/Server/RtcWorker/Stopping.antt =====
-- rtc_worker.cpp: the notifications in a worker's pipe up to the one to stop, and `join`.
use rtc_frameworker.Prelude.{
  length-append, arith, ℕ, suc, ◌≡◌, refl, List, [], ◌∷◌, ◌++◌, Option, none, some, length, true,
  false, Bool-cases, inl, inr, ◌∙◌, ap,
}
use rtc_frameworker.Prelude.Int.{ℤ, ◌==ℤ◌}
use rtc_frameworker.Messages.{RtcMsg}
use rtc_frameworker.Server.Thread.{Thread, joinable, joined, no_thread, join_thread-left}
use rtc_frameworker.Server.Receive.{◌>>=◌}
use rtc_frameworker.Server.Rounds.{rounds-End}
use rtc_frameworker.Base.Pipe.{Pipe, send}
use rtc_frameworker.Server.RtcWorker.{
  RtcWorker, quit, rtc_msg, stop, stop_loop, join, destroy, run_loop, Sending, sent_by, next_event,
  process_notify, worker_recv_notify, process_rtc_msg, take_unread, notify,
}
use rtc_frameworker.Server.RtcWorker.Handling.{
  Waits, Running, answer, process_rtc_msg-queue, process_rtc_msg-nil,
}

-- Between two rounds: the thread was not joined, and the messages that wait are those of a queue.
record Good (p : Sending) : Type 0 where
  pub thread : p.0.thread ≡ joinable
  pub msgs : List RtcMsg
  pub waits : Waits p.0 msgs

-- Behind the loop.
abbrev Ended : Sending → Type 0
Ended p = p.0.thread ≡ joinable

abbrev behind : RtcWorker → List ℤ → RtcWorker
behind w rest = record w { notify_pipe = record (w.notify_pipe) { unread = rest } }

handled :
    (w : RtcWorker) (msgs : List RtcMsg)
    → Waits w msgs
    → (w' : RtcWorker) × (m : Option (ℕ × RtcMsg)) × (rest : List RtcMsg) × (process_rtc_msg w
        ≡ some (w', m))
      × (w'.notify_pipe ≡ w.notify_pipe)
      × (w'.thread ≡ w.thread)
      × Waits w' rest
handled w [] v = (w, none, [], process_rtc_msg-nil w v, refl, refl, v)
handled w (msg ∷ msgs) v =
    let (q, e, v') = process_rtc_msg-queue w msg msgs v in
    (record w { q_msg = q }, answer msg, msgs, e, refl, refl, v')

next_read :
    (w : RtcWorker) (m : ℤ) (rest : List ℤ)
    → w.notify_pipe.unread ≡ m ∷ rest
    → worker_recv_notify w ≡ process_notify (behind w rest) m
unfolding worker_recv_notify take_unread
next_read w m rest u = rw (u, worker_recv_notify, take_unread) refl

event_of :
    (w : RtcWorker) (sent : List (ℕ × RtcMsg)) (r : RtcWorker × Option (ℕ × RtcMsg))
    → worker_recv_notify w ≡ some r
    → next_event (w, sent) ≡ some (sent_by sent r)
event_of w sent r e = rw (e, next_event) refl

goes :
    (p : Sending) (m : ℤ) (rest : List ℤ)
    → Good p
    → p.0.notify_pipe.unread ≡ m ∷ rest
    → (m ==ℤ quit) ≡ false
    → (p' : Sending) × (next_event p ≡ some p') × (p'.0.notify_pipe.unread ≡ rest) × Good p'
unfolding process_notify
goes (w, sent) m rest good u other = elim (Bool-cases (m ==ℤ rtc_msg)) [
  | inl request ↦
      let (w', out, msgs, e, pipe, thread, waits) = handled (behind w rest) good.msgs good.waits in
      let read = next_read w m rest u ∙ rw (other, request, process_notify) e in
      (
        sent_by sent (w', out),
        event_of w sent (w', out) read,
        ap (λ (p : Pipe). p.unread) pipe,
        record { thread = thread ∙ good.thread; msgs = msgs; waits = waits },
      )
  | inr unknown ↦
      let read : worker_recv_notify w ≡ some (behind w rest, none) =
        next_read w m rest u ∙ rw (other, unknown, process_notify) refl in
      (
        sent_by sent (behind w rest, none),
        event_of w sent (behind w rest, none) read,
        refl,
        record { thread = good.thread; msgs = good.msgs; waits = good.waits },
      )
]

quits :
    (p : Sending) (m : ℤ) (rest : List ℤ)
    → Good p
    → p.0.notify_pipe.unread ≡ m ∷ rest
    → (m ==ℤ quit) ≡ true
    → (p' : Sending) × (next_event p ≡ some p') × (p'.0.looping ≡ false) × Ended p'
unfolding process_notify stop_loop
quits (w, sent) m rest good u is_quit =
    let v = behind w rest in
    let read = next_read w m rest u ∙ rw (is_quit, process_notify) refl in
    (
      sent_by sent (stop_loop v, none),
      event_of w sent (stop_loop v, none) read,
      rw (good.thread, stop_loop) refl,
      rw (good.thread, stop_loop) refl,
    )

pub join-left :
    (w : RtcWorker)
    → w.looping ≡ false
    → w.thread ≡ joinable
    → join w ≡ some (record w { thread = joined })
unfolding join
join-left w l t =
    ap (λ (o : Option Thread). elim o [ none ↦ none | some t ↦ some (record w { thread = t }) ])
      (join_thread-left w.looping w.thread l t)

stopped :
    (w : RtcWorker) (msgs : List RtcMsg)
    → Waits w msgs
    → w.thread ≡ joinable
    → w.notify_pipe.accepts w.notify_pipe.unread ≡ true
    → ((stop w).notify_pipe.unread ≡ w.notify_pipe.unread ++ quit ∷ [])
      × ((stop w).thread ≡ joinable)
      × Waits (stop w) msgs
unfolding stop notify send
stopped w msgs v t takes = (rw (takes, stop, notify, send) refl, t, v)

-- A worker whose thread was started, and whose pipe takes the notification, stops when it is told
-- to: after at most one event for each notification before it and one more, none of which faults,
-- its event loop is left. Then `join` returns, and the destructor does not terminate the program.
pub stop-joins :
    (w : RtcWorker) (msgs : List RtcMsg)
    → Waits w msgs
    → w.thread ≡ joinable
    → w.notify_pipe.accepts w.notify_pipe.unread ≡ true
    → (w' : RtcWorker) × (sent : List (ℕ × RtcMsg)) × (run_loop
          (suc (length w.notify_pipe.unread))
          (stop w, [])
        ≡ some (w', sent))
      × (w'.looping ≡ false)
      × (join w' ≡ some (record w' { thread = joined }))
      × (destroy (record w' { thread = joined }) ≡ some (record w' { thread = no_thread }))
unfolding run_loop destroy
stop-joins w msgs v t takes =
    let (told, t', v') = stopped w msgs v t takes in
    let ((w', sent), e, l, ended) =
      rounds-End (λ (p : Sending). p.0.looping) next_event (λ p. p.0.notify_pipe.unread) quit refl
        Good Ended goes quits (λ p good off. good.thread) w.notify_pipe.unread (stop w, []) told
        (record { thread = t'; msgs = msgs; waits = v' }) in
    (w', sent, e, l, join-left w' l ended, refl)

-- What the thread of a worker does until it ends: it handles what is in its pipe.
abbrev pub drained : RtcWorker → Option RtcWorker
drained w = run_loop (length w.notify_pipe.unread) (w, []) >>= (λ p. some p.0)

pub stop-drained :
    (w : RtcWorker) (msgs : List RtcMsg)
    → Running w msgs
    → (v : RtcWorker) × (drained (stop w) ≡ some v) × (v.looping ≡ false) × (v.thread ≡ joinable)
unfolding run_loop
stop-drained w msgs v =
    let (told, t', v') = stopped w msgs v.waits v.thread (v.takes w.notify_pipe.unread) in
    let ((w', sent), e, l, ended) =
      rounds-End (λ (p : Sending). p.0.looping) next_event (λ p. p.0.notify_pipe.unread) quit refl
        Good Ended goes quits (λ p good off. good.thread) w.notify_pipe.unread (stop w, []) told
        (record { thread = t'; msgs = msgs; waits = v' }) in
    let long : length (stop w).notify_pipe.unread ≡ suc (length w.notify_pipe.unread) =
      ap length told ∙ length-append w.notify_pipe.unread (quit ∷ []) ∙ omega arith in
    (
      w',
      ap (λ n. run_loop n (stop w, []) >>= (λ p. some p.0)) long
          ∙ ap (λ o. o >>= (λ p. some p.0)) e,
      l,
      ended,
    )
