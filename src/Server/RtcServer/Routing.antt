-- ===== src/Server/RtcServer/Routing.antt =====
-- rtc_server.cpp: which worker gets which message.
use rtc_frameworker.Prelude.{
  ℕ, ◌%◌, ◌<◌, ◌≡◌, refl, ap, ◌∙◌, ◌==◌, List, [], ◌∷◌, ◌++◌, length, Option, none, some, arith,
  set, get_elem?-total, length-set, subst,
}
use rtc_frameworker.Prelude.Int.{pos}
use rtc_frameworker.Messages.{Bytes, RtcMsg, Ret}
use rtc_frameworker.Platform.{Crc}
use rtc_frameworker.Server.Inbox.{Inbox, pop_msg}
use rtc_frameworker.Server.Shares.{snoc_at, keep, share_all, share_all-keep, AllHave, set-AllHave}
use rtc_frameworker.Server.RtcWorker.{RtcWorker, send_rtc_msg}
use rtc_frameworker.Server.RtcWorker.Handling
use rtc_frameworker.Server.RtcWorker.Handling.{Waits}
use rtc_frameworker.Server.RtcServer.{RtcServer, get_worker, hand_to, hand_popped, process_rtc_msg}

module _ (crc : Crc) where
  -- The worker of a message among `n`.
  abbrev pub route : ℕ → RtcMsg → ℕ
  route n msg = crc.compute msg.stream_name % n

  get_worker-route :
      (s : RtcServer) (n : ℕ) (name : Bytes)
      → 0 < n
      → length s.workers ≡ n
      → s.worker_num ≡ pos n
      → get_worker crc s name ≡ some (crc.compute name % n)
  unfolding get_worker
  get_worker-route s n name h e k = ground arith

  -- `process_rtc_msg` once for each message; `none` is a fault.
  pub process_all : List RtcMsg → RtcServer → Option RtcServer
  process_all [] s = some s
  process_all (m ∷ ms) s = elim (process_rtc_msg crc s) [
    | none ↦ none
    | some s' ↦ process_all ms s'
  ]

  taken :
      (s : RtcServer) (msg : RtcMsg) (msgs : List RtcMsg)
      → s.inbox.q_msg ≡ msg ∷ msgs
      → ◌≡◌ {A = Option RtcMsg × Inbox}
          (pop_msg s.inbox)
          (some msg, record (s.inbox) { q_msg = msgs })
  unfolding pop_msg
  taken s msg msgs m = rw m refl

  -- Of workers that can be sent a message, each with what waits there.
  module _ (Has : RtcWorker → List RtcMsg → Type 0)
      (sends : (w : RtcWorker) (msgs : List RtcMsg) (msg : RtcMsg)
        → Has w msgs
        → (r : RtcWorker × Ret) × (send_rtc_msg w msg ≡ some r) × Has r.0 (msgs ++ msg ∷ [])) where
    handed :
        (s : RtcServer) (msg : RtcMsg) (i : ℕ) (q : ℕ → List RtcMsg)
        → i < length s.workers
        → AllHave Has s.workers q
        → (w : RtcWorker) × (hand_to crc s i msg ≡ some (record s { workers = set s.workers i w }))
          × AllHave Has (set s.workers i w) (snoc_at q i msg)
    unfolding hand_to
    handed s msg i q l all =
        let (w, found) = get_elem?-total s.workers i l in
        let ((w', r), sent, i') = sends w (q i) msg (all i w found) in
        (w', rw (found, hand_to) (rw sent refl), set-AllHave Has s.workers q i w' msg l all i')

    -- One message goes to its worker: of the server, its queue and that worker change.
    pub process_rtc_msg-handed :
        (s : RtcServer) (n : ℕ) (msg : RtcMsg) (msgs : List RtcMsg) (q : ℕ → List RtcMsg)
        → 0 < n
        → length s.workers ≡ n
        → s.worker_num ≡ pos n
        → s.inbox.q_msg ≡ msg ∷ msgs
        → AllHave Has s.workers q
        → (w : RtcWorker) × (process_rtc_msg crc s
            ≡ some (record s {
              inbox = record (s.inbox) { q_msg = msgs };
              workers = set s.workers (route n msg) w;
            }))
          × AllHave Has (set s.workers (route n msg) w) (snoc_at q (route n msg) msg)
    unfolding process_rtc_msg hand_popped
    process_rtc_msg-handed s n msg msgs q h e k m all =
        let s1 : RtcServer = record s { inbox = record (s.inbox) { q_msg = msgs } } in
        let found = get_worker-route s1 n msg.stream_name h e k in
        let (w, f, all') = handed s1 msg (route n msg) q (rw e (omega arith)) all in
        (
          w,
          ap (λ (x : Option RtcMsg × Inbox). hand_popped crc (record s { inbox = x.1 }) x.0)
                (taken s msg msgs m)
              ∙ rw (found, hand_popped) f,
          all',
        )

  pub process_one :
      (s : RtcServer) (n : ℕ) (msg : RtcMsg) (msgs : List RtcMsg) (q : ℕ → List RtcMsg)
      → 0 < n
      → length s.workers ≡ n
      → s.worker_num ≡ pos n
      → s.inbox.q_msg ≡ msg ∷ msgs
      → AllHave Waits s.workers q
      → (s' : RtcServer) × (process_rtc_msg crc s ≡ some s')
        × AllHave Waits s'.workers (snoc_at q (route n msg) msg)
        × (s'.inbox.q_msg ≡ msgs)
        × (length s'.workers ≡ n)
        × (s'.worker_num ≡ pos n)
  process_one s n msg msgs q h e k m all =
      let (w, f, all') =
        process_rtc_msg-handed Waits Handling.send_rtc_msg-Waits s n msg msgs q h e k m all in
      (_, f, all', refl, length-set s.workers (route n msg) w ∙ e, k)

  process_from :
      (n : ℕ) (msgs : List RtcMsg) (s : RtcServer) (q : ℕ → List RtcMsg)
      → 0 < n
      → length s.workers ≡ n
      → s.worker_num ≡ pos n
      → s.inbox.q_msg ≡ msgs
      → AllHave Waits s.workers q
      → (s' : RtcServer) × (process_all msgs s ≡ some s')
        × AllHave Waits s'.workers (share_all (route n) msgs q)
        × (s'.inbox.q_msg ≡ [])
        × (length s'.workers ≡ n)
  unfolding process_all share_all
  process_from n [] s q h e k m all = (s, refl, all, m, e)
  process_from n (msg ∷ msgs) s q h e k m all =
      let (s1, f, all1, m1, e1, k1) = process_one s n msg msgs q h e k m all in
      let (s2, g, all2, m2, e2) =
        process_from n msgs s1 (snoc_at q (route n msg) msg) h e1 k1 m1 all1 in
      (s2, rw (f, process_all) g, all2, m2, e2)

  -- A server that has all its workers hands every message of its queue over without a fault: the
  -- queue is empty then, and each worker got, in their order, exactly the messages whose stream
  -- name has its CRC modulo the number of workers, behind what already waited there, and no worker is lost. So messages
  -- of one stream go to one worker and keep their order.
  pub process_all-routes :
      (s : RtcServer) (n : ℕ) (q : ℕ → List RtcMsg)
      → 0 < n
      → length s.workers ≡ n
      → s.worker_num ≡ pos n
      → AllHave Waits s.workers q
      → (s' : RtcServer) × (process_all s.inbox.q_msg s ≡ some s')
        × AllHave Waits s'.workers (λ i. q i ++ keep (λ m. route n m == i) s.inbox.q_msg)
        × (s'.inbox.q_msg ≡ [])
        × (length s'.workers ≡ n)
  process_all-routes s n q h e k all =
      let (s', f, all', m, e') = process_from n s.inbox.q_msg s q h e k refl all in
      (
        s',
        f,
        λ i w g. subst (Waits w) (share_all-keep (route n) s.inbox.q_msg q i) (all' i w g),
        m,
        e',
      )
