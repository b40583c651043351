-- ===== src/Base/LockFreeQueue/Threads/WholeConsume.antt =====
-- Lock_Free_Queue.hpp: a call of `consume` statement by statement, with nothing between them, beside
-- the same call as a whole.
use rtc_frameworker.Prelude.{
  ℕ, ◌+◌, ◌-◌, ◌≡◌, refl, sym, ap, ◌∙◌, ◌==◌, true, false, List, [], ◌∷◌, ◌++◌, Option, none, some,
  arith, replicate, Bool-cases, Option-cases, inl, inr, append-nil, if◌then◌else◌,
}
use rtc_frameworker.Base.LockFreeQueue.{Node, LockFreeQueue, consume}
use rtc_frameworker.Base.LockFreeQueue.Threads.{
  waiting, tested, copied, advanced, Threads, Tick, consumes, consume_from, tick, run,
}
use rtc_frameworker.Base.LockFreeQueue.Threads.Whole.{queue_of}

-- What a call of `consume` adds to what was returned so far.
abbrev pub listed : {A : Type 0} → Option A → List A
listed none = []
listed (some a) = a ∷ []

module _ {A : Type 0} where
  consumed :
      (q q' : LockFreeQueue A) (r : Option A)
      → (q.divider == q.tail) ≡ false
      → consume q ≡ some (r, q')
      → (n : Node A) × (p : ℕ) × (m : Node A) × (q.store q.divider ≡ some n)
        × (n.next ≡ some p)
        × (q.store p ≡ some m)
        × (r ≡ some m.value)
        × (q' ≡ record q { divider = p; count = q.count - 1 })
  unfolding consume
  consumed q q' r some_left h = elim (Option-cases (q.store q.divider)) [
    | inl null ↦ cc (rw (some_left, null, consume) at h)
    | inr (n, here) ↦ elim (Option-cases n.next) [
      | inl null ↦ cc (rw (some_left, here, null, consume) at h)
      | inr (p, next) ↦ elim (Option-cases (q.store p)) [
        | inl null ↦ cc (rw (some_left, here, next, null, consume) at h)
        | inr (m, there) ↦
            let e : some (some m.value, record q { divider = p; count = q.count - 1 })
                ≡ some (r, q') =
              rw (some_left, here, next, there, consume) at h in
            (n, p, m, here, next, there, cc e, cc e)
      ]
    ]
  ]

  run-step :
      (s s1 : Threads A) (t : Tick A) (ts : List (Tick A)) (r : Option (Threads A))
      → tick s t ≡ some s1
      → run ts s1 ≡ r
      → run (t ∷ ts) s ≡ r
  unfolding run
  run-step s s1 t ts r e f = rw (e, run) f

  consume_empty : (q : LockFreeQueue A) → (q.divider == q.tail) ≡ true → consume q ≡ some (none, q)
  unfolding consume
  consume_empty q e = rw (e, consume) refl

  test_lem :
      (s : Threads A)
      → s.consumer ≡ waiting
      → tick s consumes
        ≡ (if s.divider == s.tail then some s else some (record s { consumer = tested }))
  unfolding tick consume_from
  test_lem s idle = ap (consume_from s) idle ∙ ground arith

  copy_lem :
      (s : Threads A) (n m : Node A) (p : ℕ)
      → s.store s.divider ≡ some n
      → n.next ≡ some p
      → s.store p ≡ some m
      → consume_from s tested ≡ some (record s { consumer = copied m.value })
  unfolding consume_from
  copy_lem s n m p here next there = rw (here, next, there, consume_from) refl

  advance_lem :
      (s : Threads A) (n : Node A) (p : ℕ) (a : A)
      → s.store s.divider ≡ some n
      → n.next ≡ some p
      → consume_from s (copied a) ≡ some (record s { divider = p; consumer = advanced a })
  unfolding consume_from
  advance_lem s n p a here next = rw (here, next, consume_from) refl

  -- A call of `consume` between two calls of either thread: some number of its statements in a row
  -- does what `consume` does as a whole, and returns what it returns.
  pub consume-uninterrupted :
      (s : Threads A) (r : Option A) (q : LockFreeQueue A)
      → s.consumer ≡ waiting
      → consume (queue_of s) ≡ some (r, q)
      → (k : ℕ) × (s' : Threads A) × (run (replicate k consumes) s ≡ some s')
        × (queue_of s' ≡ q)
        × (s'.got ≡ s.got ++ listed r)
        × (s'.consumer ≡ waiting)
        × (s'.producer ≡ s.producer)
  unfolding run tick consume_from
  consume-uninterrupted s r q idle h = elim (Bool-cases (s.divider == s.tail)) [
    | inl none_left ↦
        let e : some (none, queue_of s) ≡ some (r, q) =
          sym (consume_empty (queue_of s) none_left) ∙ h in
        let nothing : none ≡ r = cc e in
        (
          1,
          s,
          run-step s s consumes [] (some s) (test_lem s idle ∙ rw none_left refl) refl,
          cc e,
          sym (append-nil s.got) ∙ ap (λ o. s.got ++ listed o) nothing,
          idle,
          refl,
        )
    | inr some_left ↦
        let (n, p, m, here, next, there, is_r, is_q) = consumed (queue_of s) q r some_left h in
        let s1 = record s { consumer = tested } in
        let s2 = record s { consumer = copied m.value } in
        let s3 = record s { divider = p; consumer = advanced m.value } in
        let s4 = record s {
          divider = p;
          lowered = s.lowered + 1;
          consumer = waiting;
          got = s.got ++ m.value ∷ [];
        } in
        let count : s.raised - (s.lowered + 1) ≡ s.raised - s.lowered - 1 = omega arith in
        (
          4,
          s4,
          run-step s s1 consumes (replicate 3 consumes) (some s4)
              (test_lem s idle ∙ rw some_left refl)
              (run-step s1 s2 consumes (replicate 2 consumes) (some s4)
                (copy_lem s1 n m p here next there)
                (run-step s2 s3 consumes (replicate 1 consumes) (some s4)
                  (advance_lem s2 n p m.value here next)
                  (run-step s3 s4 consumes [] (some s4) refl refl))),
          ap (λ k. record (queue_of s4) { count = k }) count ∙ sym is_q,
          ap (λ o. s.got ++ listed o) (sym is_r),
          refl,
          refl,
        )
  ]
