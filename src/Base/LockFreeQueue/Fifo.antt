-- ===== src/Base/LockFreeQueue/Fifo.antt =====
-- Lock_Free_Queue.hpp beside a first-in first-out list.
use rtc_frameworker.Prelude.{
  suc, ◌≡◌, refl, sym, ◌∙◌, ◌==◌, List, [], ◌∷◌, ◌++◌, true, false, Option, none, some, arith,
  length, ◌-◌, ◌↔◌,
}
use rtc_frameworker.Base.LockFreeQueue.{Node, LockFreeQueue, create, produce, consume, empty, size}
use rtc_frameworker.Base.LockFreeQueue.Invariant.{
  Inv, value_of, next_node, create-Inv, link-Inv, reclaim-Inv,
}

module _ {ℓ} {A : Type ℓ} where
  -- `produce` puts its argument behind what the queue holds, and frees all that was consumed.
  pub produce-Inv :
      (q : LockFreeQueue A) (xs : List A) (a : A)
      → Inv q xs
      → (q' : LockFreeQueue A) × (produce q a ≡ some q')
        × Inv q' (xs ++ a ∷ [])
        × (q'.head ≡ q'.divider)
  unfolding produce
  produce-Inv q xs a v =
      let (l, e, i, d) = link-Inv q xs a v in
      let (q', r, w, f, g) =
        reclaim-Inv l.fresh l (xs ++ a ∷ []) i (omega (arith, i.span, i.next_free)) in
      (q', rw (e, produce) r, w, f ∙ sym g)

  pub value_node :
      (o : Option (Node A)) (a : A)
      → value_of o ≡ some a
      → (n : Node A) × (o ≡ some n) × (n.value ≡ a)
  value_node none a h = cc
  value_node (some n) a h = (n, refl, cc)

  -- On an empty queue `consume` returns false and changes nothing.
  pub consume-nil : (q : LockFreeQueue A) → Inv q [] → consume q ≡ some (none, q)
  unfolding consume
  consume-nil q v = let e : (q.divider == q.tail) ≡ true = ground (arith, v.span) in rw (e, consume)

  -- On any other it takes the oldest item.
  pub consume-cons :
      (q : LockFreeQueue A) (x : A) (xs : List A)
      → Inv q (x ∷ xs)
      → (q' : LockFreeQueue A) × (consume q ≡ some (some x, q')) × Inv q' xs
  unfolding consume
  consume-cons q x xs v =
      let apart : (q.divider == q.tail) ≡ false = ground (arith, v.span) in
      let (n, s, l) =
        next_node (q.store q.divider) (suc q.divider)
          (v.linked q.divider v.order (omega (arith, v.span))) in
      let (m, t, e) = value_node (q.store (suc q.divider)) x v.values.0 in
      (
        record q { divider = suc q.divider; count = q.count - 1 },
        rw (apart, s, l, t, e, consume) refl,
        record {
          order = omega (arith, v.order);
          span = omega (arith, v.span);
          next_free = v.next_free;
          counted = omega (arith, v.counted);
          linked = v.linked;
          last = v.last;
          values = v.values.1;
          freed = v.freed;
          beyond = v.beyond;
        },
      )

  -- `empty` and `size` tell what is left to consume.
  pub size-length :
      (q : LockFreeQueue A) (xs : List A)
      → Inv q xs
      → (size q ≡ length xs) × ((empty q ≡ true) ↔ (xs ≡ []))
  unfolding size empty
  size-length q [] v = ground (arith, v.counted)
  size-length q (x ∷ xs) v = ground (arith, v.counted)

-- A sequence of calls, and what a plain list answers to it.
pub data Op {ℓ} (A : Type ℓ) : Type ℓ where
  put : A → Op A
  get : Op A

module _ {ℓ} {A : Type ℓ} where
  -- The results of the `consume` calls, in order.
  pub run : List (Op A) → LockFreeQueue A → Option (List (Option A))
  run [] q = some []
  run (put a ∷ ops) q = elim (produce q a) [ none ↦ none | some q' ↦ run ops q' ]
  run (get ∷ ops) q = elim (consume q) [
    | none ↦ none
    | some (r, q') ↦ elim (run ops q') [ none ↦ none | some rs ↦ some (r ∷ rs) ]
  ]

  pub answers : List (Op A) → List A → List (Option A)
  answers [] xs = []
  answers (put a ∷ ops) xs = answers ops (xs ++ a ∷ [])
  answers (get ∷ ops) [] = none ∷ answers ops []
  answers (get ∷ ops) (x ∷ xs) = some x ∷ answers ops xs

  run-refines :
      (ops : List (Op A)) (q : LockFreeQueue A) (xs : List A)
      → Inv q xs
      → run ops q ≡ some (answers ops xs)
  unfolding run answers
  run-refines [] q xs v = refl
  run-refines (put a ∷ ops) q xs v =
      let (q', e, w, _) = produce-Inv q xs a v in rw (e, run) (run-refines ops q' (xs ++ a ∷ []) w)
  run-refines (get ∷ ops) q [] v =
      let e = consume-nil q v in let ih = run-refines ops q [] v in rw (e, run) (rw (ih, run))
  run-refines (get ∷ ops) q (x ∷ xs) v =
      let (q', e, w) = consume-cons q x xs v in
      let ih = run-refines ops q' xs w in rw (e, run) (rw (ih, run))

  -- From a new queue, every sequence of `produce` and `consume` calls runs without a fault, and
  -- each `consume` returns what a plain first-in first-out list returns: the oldest item that was
  -- produced and not yet consumed, and false exactly when there is none.
  pub create-run-answers : (a : A) (ops : List (Op A)) → run ops (create a) ≡ some (answers ops [])
  create-run-answers a ops = run-refines ops (create a) [] (create-Inv a)
