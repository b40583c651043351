-- ===== src/Base/LockFreeQueue/Threads/Whole.antt =====
-- Lock_Free_Queue.hpp: a call of `produce` statement by statement, with nothing between them, beside
-- the same call as a whole.
use rtc_frameworker.Prelude.{
  ℕ, zero, suc, ◌+◌, ◌-◌, ◌≤◌, ◌≡◌, refl, sym, ap, ◌∙◌, ◌==◌, false, List, [], ◌∷◌, ◌++◌, Option,
  none, some, arith, replicate, Bool-cases, Option-cases, inl, inr,
}
use rtc_frameworker.Base.LockFreeQueue.{Node, LockFreeQueue, write, reclaim, link, produce}
use rtc_frameworker.Base.LockFreeQueue.Invariant.{Inv}
use rtc_frameworker.Base.LockFreeQueue.Destroy.{last_node}
use rtc_frameworker.Base.LockFreeQueue.Fifo.{produce-Inv}
use rtc_frameworker.Base.LockFreeQueue.Threads.{
  ready, allocated, linked, moved, freeing, unlinked, Threads, produces, produce_from, tick, run,
}

-- The queue between two calls.
abbrev pub queue_of : {A : Type 0} → Threads A → LockFreeQueue A
queue_of s = record {
  store = s.store;
  fresh = s.fresh;
  head = s.head;
  divider = s.divider;
  tail = s.tail;
  count = s.raised - s.lowered;
}

module _ {A : Type 0} (a : A) where
  -- Some statements of `produce` lead to its end, and to that queue.
  abbrev Runs : Threads A → LockFreeQueue A → Type 0
  Runs s q =
      (k : ℕ) × (s' : Threads A) × (run (replicate k (produces a)) s ≡ some s')
      × (queue_of s' ≡ q)
      × (s'.producer ≡ ready)
      × (s'.consumer ≡ s.consumer)

  later :
      (s s1 : Threads A) (q : LockFreeQueue A)
      → tick s (produces a) ≡ some s1
      → s1.consumer ≡ s.consumer
      → Runs s1 q
      → Runs s q
  unfolding run
  later s s1 q t same (k, s', e, g, r, c) = (suc k, s', rw (t, run) e, g, r, c ∙ same)

  next_lem :
      (fuel : ℕ) (q q' : LockFreeQueue A)
      → (q.head == q.divider) ≡ false
      → reclaim (suc fuel) q ≡ some q'
      → (n : Node A) × (p : ℕ) × (q.store q.head ≡ some n)
        × (n.next ≡ some p)
        × (reclaim fuel (record q { store = write q.store q.head none; head = p }) ≡ some q')
  unfolding reclaim
  next_lem fuel q q' more h = elim (Option-cases (q.store q.head)) [
    | inl null ↦ cc (rw (more, null, reclaim) at h)
    | inr (n, here) ↦ elim (Option-cases n.next) [
      | inl null ↦ cc (rw (more, here, null, reclaim) at h)
      | inr (p, next) ↦ (n, p, here, next, rw (more, here, next, reclaim) at h)
    ]
  ]

  reclaim-Runs :
      (fuel : ℕ) (s : Threads A) (q' : LockFreeQueue A)
      → reclaim fuel (queue_of s) ≡ some q'
      → Runs (record s { producer = freeing }) q'
  unfolding reclaim run tick produce_from
  reclaim-Runs zero s q' h = cc h
  reclaim-Runs (suc fuel) s q' h = elim (Bool-cases (s.head == s.divider)) [
    | inl all ↦
        let end : some (queue_of s) ≡ some q' = rw (all, reclaim) at h in
        let same : queue_of s ≡ q' = cc end in
        (1, record s { producer = ready }, rw (all, run, produce_from) refl, same, refl, refl)
    | inr more ↦
        let (n, p, here, next, rest) = next_lem fuel (queue_of s) q' more h in
        let s1 = record s { head = p; producer = unlinked s.head } in
        let s2 = record s { head = p; store = write s.store s.head none } in
        later (record s { producer = freeing }) s1 q' (rw (more, here, next, produce_from) refl)
          refl
          (later s1 (record s2 { producer = freeing }) q' (rw (here, produce_from) refl) refl
            (reclaim-Runs fuel s2 q' rest))
  ]

  -- The four statements in front of the loop.
  abbrev new_node : Option (Node A)
  new_node = some (record { value = a; next = none })

  abbrev after_new : Threads A → Threads A
  after_new s = record s {
    store = write s.store s.fresh new_node;
    fresh = s.fresh + 1;
    producer = allocated a s.fresh;
    put = s.put ++ a ∷ [];
  }

  abbrev linked_store : Threads A → Node A → ℕ → Option (Node A)
  linked_store s n =
      write (write s.store s.fresh new_node) s.tail (some (record n { next = some s.fresh }))

  abbrev after_link : Threads A → Node A → Threads A
  after_link s n = record (after_new s) { store = linked_store s n; producer = linked a }

  abbrev after_move : Threads A → Node A → Threads A
  after_move s n = record (after_link s n) { tail = s.fresh; producer = moved }

  abbrev after_raise : Threads A → Node A → Threads A
  after_raise s n = record (after_move s n) { raised = s.raised + 1 }

  old_tail :
      (s : Threads A) (n : Node A)
      → s.fresh ≡ suc s.tail
      → s.store s.tail ≡ some n
      → write s.store s.fresh new_node s.tail ≡ some n
  unfolding write
  old_tail s n f e = ground (arith, f, e)

  new_tail :
      (s : Threads A) (n : Node A)
      → linked_store s n s.tail ≡ some (record n { next = some s.fresh })
  unfolding write
  new_tail s n = ground arith

  front_Runs :
      (s : Threads A) (n : Node A) (q : LockFreeQueue A)
      → s.producer ≡ ready
      → s.fresh ≡ suc s.tail
      → s.store s.tail ≡ some n
      → Runs (record (after_raise s n) { producer = freeing }) q
      → Runs s q
  unfolding tick produce_from
  front_Runs s n q idle f e rest = later s (after_new s) q (rw idle refl) refl (
      later (after_new s) (after_link s n) q (rw (old_tail s n f e, tick, produce_from) refl) refl (
        later (after_link s n) (after_move s n) q (rw (new_tail s n, tick, produce_from) refl) refl
          (later (after_move s n) (record (after_raise s n) { producer = freeing }) q refl refl
            rest)))

  link_lem :
      (s : Threads A) (n : Node A)
      → s.store s.tail ≡ some n
      → s.lowered ≤ s.raised
      → link (queue_of s) a ≡ some (queue_of (after_raise s n))
  unfolding link
  link_lem s n e h =
      let count : s.raised - s.lowered + 1 ≡ s.raised + 1 - s.lowered = omega arith in
      rw (e, link) (ap (λ k. some (record (queue_of (after_raise s n)) { count = k })) count)

  -- A call of `produce` between two calls of either thread: some number of its statements in a row
  -- does what `produce` does as a whole.
  pub produce-uninterrupted :
      (s : Threads A) (xs : List A)
      → Inv (queue_of s) xs
      → s.lowered ≤ s.raised
      → s.producer ≡ ready
      → (k : ℕ) × (s' : Threads A) × (run (replicate k (produces a)) s ≡ some s')
        × (produce (queue_of s) a ≡ some (queue_of s'))
        × (s'.producer ≡ ready)
        × (s'.consumer ≡ s.consumer)
  unfolding produce
  produce-uninterrupted s xs v h idle =
      let (n, e, _) = last_node (s.store s.tail) v.last in
      let (q', made, _, _) = produce-Inv (queue_of s) xs a v in
      let freed : reclaim (s.fresh + 1) (queue_of (after_raise s n)) ≡ some q' =
        sym (
          ap (λ (o : Option (LockFreeQueue A)). elim o [ none ↦ none | some q ↦ reclaim q.fresh q ])
            (link_lem s n e h))
        ∙ made in
      let (k, s', runs, is_q, r, c) =
        front_Runs s n q' idle v.next_free e
          (reclaim-Runs (s.fresh + 1) (after_raise s n) q' freed) in
      (k, s', runs, made ∙ ap some (sym is_q), r, c)
