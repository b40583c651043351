-- ===== src/Server/SignalingServer/Dispatch.antt =====
-- signaling_server.cpp, `dispatch_conn`: the worker that each connection goes to.
use native.Mathlib.Nat.{mod-lt, mod-eq_of_lt, mod-add-mod, add-zero}
use rtc_frameworker.Prelude.{
  ℕ, ◌+◌, ◌%◌, ◌<◌, ◌≡◌, refl, sym, ap, ◌∙◌, leb, List, [], ◌∷◌, ◌++◌, Option, none, some, arith,
  length, set, get_elem?-total, length-set, if◌then◌else◌, ap₂, subst, next_of_mod,
}
use rtc_frameworker.Prelude.Int.{ℤ}
use rtc_frameworker.Messages.{Ret}
use rtc_frameworker.Base.EventLoop.{Libev}
use rtc_frameworker.Base.LockFreeQueue.Invariant.{Inv}
use rtc_frameworker.Base.LockFreeQueue.Fifo.{produce-Inv}
use rtc_frameworker.Server.Shares.{snoc_at, AllHave, set-AllHave}
use rtc_frameworker.Server.SignalingWorker.{
  SignalingWorker, notify, new_connection, notify_new_conn,
}
use rtc_frameworker.Server.SignalingServer.{SignalingServer, dispatch_conn}

-- The shares when descriptors are dealt out in turn from worker `i` of `n`.
pub deal : ℕ → ℕ → List ℤ → (ℕ → List ℤ) → ℕ → List ℤ
deal n i [] q = q
deal n i (fd ∷ fds) q = deal n ((i + 1) % n) fds (snoc_at q i fd)

module _ {ev : Libev} where
  -- The descriptors that wait in a worker's queue, oldest first.
  abbrev pub Waits : SignalingWorker ev → List ℤ → Type 0
  Waits w fds = Inv w.q_conn fds

  notify_kept :
      (w : SignalingWorker ev) (msg : ℤ) (fds : List ℤ) → Waits w fds → Waits (notify w msg).0 fds
  unfolding notify
  notify_kept w msg fds v = v

  notify_new_conn-Waits :
      (w : SignalingWorker ev) (fds : List ℤ) (fd : ℤ)
      → Waits w fds
      → (r : SignalingWorker ev × Ret) × (notify_new_conn w fd ≡ some r)
        × Waits r.0 (fds ++ fd ∷ [])
  unfolding notify_new_conn
  notify_new_conn-Waits w fds fd v =
      let (q, e, i, _) = produce-Inv w.q_conn fds fd v in
      (
        notify (record w { q_conn = q }) new_connection,
        rw (e, notify_new_conn) refl,
        notify_kept (record w { q_conn = q }) new_connection (fds ++ fd ∷ []) i,
      )

  -- `none` is a fault.
  pub dispatch_all : List ℤ → SignalingServer ev → Option (SignalingServer ev)
  dispatch_all [] s = some s
  dispatch_all (fd ∷ fds) s = elim (dispatch_conn s fd) [
    | none ↦ none
    | some s' ↦ dispatch_all fds s'
  ]

  abbrev dispatched : SignalingServer ev → SignalingWorker ev → SignalingServer ev
  dispatched s w' = record s {
    workers = set s.workers s.next_worker w';
    next_worker = if leb (length s.workers) (s.next_worker + 1) then 0 else s.next_worker + 1;
  }

  -- One connection goes to the worker whose turn it is.
  pub dispatch_conn_lem :
      (s : SignalingServer ev) (fd : ℤ) (q : ℕ → List ℤ)
      → s.next_worker < length s.workers
      → AllHave Waits s.workers q
      → (s' : SignalingServer ev) × (dispatch_conn s fd ≡ some s')
        × AllHave Waits s'.workers (snoc_at q s.next_worker fd)
        × (s'.next_worker ≡ (s.next_worker + 1) % length s.workers)
        × (length s'.workers ≡ length s.workers)
  unfolding dispatch_conn
  dispatch_conn_lem s fd q l all =
      let (w, e) = get_elem?-total s.workers s.next_worker l in
      let ((w', r), f, v) = notify_new_conn-Waits w (q s.next_worker) fd (all s.next_worker w e) in
      (
        dispatched s w',
        rw (e, f, dispatch_conn) refl,
        set-AllHave Waits s.workers q s.next_worker w' fd l all v,
        next_of_mod (length s.workers) s.next_worker l,
        length-set s.workers s.next_worker w',
      )

  pub dispatch_from :
      (n k : ℕ) (s : SignalingServer ev) (fds : List ℤ) (q : ℕ → List ℤ)
      → length s.workers ≡ n
      → s.next_worker ≡ k
      → k < n
      → AllHave Waits s.workers q
      → (s' : SignalingServer ev) × (dispatch_all fds s ≡ some s')
        × AllHave Waits s'.workers (deal n k fds q)
        × (s'.next_worker ≡ (k + length fds) % n)
        × (length s'.workers ≡ n)
  unfolding dispatch_all deal
  dispatch_from n k s [] q en ek l all =
      (s, refl, all, ek ∙ sym (mod-eq_of_lt (omega arith) ∙ add-zero k), en)
  dispatch_from n k s (fd ∷ fds) q en ek l all =
      let (s1, e, all1, next, len) = dispatch_conn_lem s fd q (omega arith) all in
      let turn : s1.next_worker ≡ (k + 1) % n = next ∙ ap₂ (λ a b. (a + 1) % b) ek en in
      let (s2, f, all2, next2, len2) =
        dispatch_from n ((k + 1) % n) s1 fds (snoc_at q k fd) (len ∙ en) turn
          (mod-lt (k + 1) (omega arith))
          (subst (λ j. AllHave Waits s1.workers (snoc_at q j fd)) ek all1) in
      (
        s2,
        rw (e, dispatch_all) f,
        all2,
        next2 ∙ mod-add-mod (k + 1) n (length fds) ∙ ap (λ t. t % n) (omega arith),
        len2,
      )

  -- From a server whose next worker exists, any number of new connections is dispatched without a
  -- fault: they go to the workers in turn, each behind those that already wait there, and the turn
  -- ends where counting modulo the number of workers says.
  pub dispatch_all-deal :
      (s : SignalingServer ev) (fds : List ℤ) (q : ℕ → List ℤ)
      → s.next_worker < length s.workers
      → AllHave Waits s.workers q
      → (s' : SignalingServer ev) × (dispatch_all fds s ≡ some s')
        × AllHave Waits s'.workers (deal (length s.workers) s.next_worker fds q)
        × (s'.next_worker ≡ (s.next_worker + length fds) % length s.workers)
        × (length s'.workers ≡ length s.workers)
  dispatch_all-deal s fds q l all =
      dispatch_from (length s.workers) s.next_worker s fds q refl refl l all
