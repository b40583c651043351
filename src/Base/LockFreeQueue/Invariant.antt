-- ===== src/Base/LockFreeQueue/Invariant.antt =====
-- The shape of a queue between two calls, and that each loop step keeps it.
use rtc_frameworker.Prelude.{
  ℕ, zero, suc, ◌+◌, ◌≤◌, ◌<◌, ◌≡◌, refl, sym, ap, ◌∙◌, ◌==◌, false, ==_iff, List, [], ◌∷◌, ◌++◌,
  Option, none, some, arith, Bool-cases, Option-cases, inl, inr, length, length-append,
}
use rtc_frameworker.Base.LockFreeQueue.{Node, LockFreeQueue, create, write, reclaim, link}

module _ {ℓ} {A : Type ℓ} where
  abbrev pub value_of : Option (Node A) → Option A
  value_of none = none
  value_of (some n) = some n.value

  abbrev pub next_of : Option (Node A) → Option (Option ℕ)
  next_of none = none
  next_of (some n) = some n.next

  -- The nodes from address `k` on hold the listed values.
  abbrev pub Values : (ℕ → Option (Node A)) → ℕ → List A → Type ℓ
  Values st k [] = Unit
  Values st k (x ∷ xs) = (value_of (st k) ≡ some x) × Values st (suc k) xs

  -- `xs` is what a consumer still gets, oldest first. Behind `head` all is freed, up to `tail` each
  -- node is linked to the next address, and nothing is allocated past `tail`.
  pub record Inv (q : LockFreeQueue A) (xs : List A) : Type ℓ where
    pub order : q.head ≤ q.divider
    pub span : q.divider + length xs ≡ q.tail
    pub next_free : q.fresh ≡ suc q.tail
    pub counted : q.count ≡ length xs
    pub linked : (k : ℕ) → q.head ≤ k → k < q.tail → next_of (q.store k) ≡ some (some (suc k))
    pub last : next_of (q.store q.tail) ≡ some none
    pub values : Values q.store (suc q.divider) xs
    pub freed : (k : ℕ) → k < q.head → q.store k ≡ none
    pub beyond : (k : ℕ) → q.tail < k → q.store k ≡ none

  pub create-Inv : (a : A) → Inv (create a) []
  unfolding create
  create-Inv a = record {
    order = omega arith;
    span = omega arith;
    next_free = omega arith;
    counted = omega arith;
    linked = λ k h l. absurd (omega arith);
    last = refl;
    values = tt;
    freed = λ k h. absurd (omega arith);
    beyond = λ k h. ground arith;
  }

  pub Values-agree :
      (st st' : ℕ → Option (Node A)) (k : ℕ) (xs : List A)
      → ((j : ℕ) → k ≤ j → j < k + length xs → value_of (st' j) ≡ value_of (st j))
      → Values st k xs
      → Values st' k xs
  Values-agree st st' k [] h v = tt
  Values-agree st st' k (x ∷ xs) h v = (
    h k (omega arith) (omega arith) ∙ v.0,
    Values-agree st st' (suc k) xs (λ j p l. h j (omega arith) (omega arith)) v.1,
  )

  pub Values-snoc :
      (st : ℕ → Option (Node A)) (k : ℕ) (xs : List A) (a : A)
      → Values st k xs
      → value_of (st (k + length xs)) ≡ some a
      → Values st k (xs ++ a ∷ [])
  Values-snoc st k [] a v h = let e : k + 0 ≡ k = omega arith in (rw e at h, tt)
  Values-snoc st k (x ∷ xs) a v h =
      let e : k + suc (length xs) ≡ suc k + length xs = omega arith in
      (v.0, Values-snoc st (suc k) xs a v.1 (rw e at h))

  abbrev linked_store : LockFreeQueue A → A → Node A → ℕ → Option (Node A)
  linked_store q a n =
      write (write q.store q.fresh (some (record { value = a; next = none }))) q.tail
        (some (record n { next = some q.fresh }))

  write_self : (st : ℕ → Option (Node A)) (p : ℕ) (n : Option (Node A)) → write st p n p ≡ n
  unfolding write
  write_self st p n = ground arith

  write_other :
      (st : ℕ → Option (Node A)) (p : ℕ) (n : Option (Node A)) (q : ℕ)
      → ¬ (p ≡ q)
      → write st p n q ≡ st q
  unfolding write
  write_other st p n q h = ground arith

  linked_value :
      (q : LockFreeQueue A) (a : A) (n : Node A) (j : ℕ)
      → q.fresh ≡ suc q.tail
      → q.store q.tail ≡ some n
      → j < q.fresh
      → value_of (linked_store q a n j) ≡ value_of (q.store j)
  unfolding write
  linked_value q a n j f e h = elim (Bool-cases (q.tail == j)) [
    | inl here ↦
        rw here (ap value_of (sym e) ∙ ap (λ k. value_of (q.store k)) ((==_iff _ _).0 here))
    | inr there ↦ let off : (q.fresh == j) ≡ false = ground arith in rw (there, off)
  ]

  abbrev after_link : LockFreeQueue A → A → Node A → LockFreeQueue A
  after_link q a n = record q {
    store = linked_store q a n;
    fresh = q.fresh + 1;
    tail = q.fresh;
    count = q.count + 1;
  }

  after_link-Inv :
      (q : LockFreeQueue A) (xs : List A) (a : A) (n : Node A)
      → Inv q xs
      → q.store q.tail ≡ some n
      → Inv (after_link q a n) (xs ++ a ∷ [])
  unfolding write
  after_link-Inv q xs a n v e = record {
    order = v.order;
    span = omega (arith, length-append xs (a ∷ []), v.span, v.next_free);
    next_free = omega (arith, v.next_free);
    counted = omega (arith, length-append xs (a ∷ []), v.counted);
    linked = λ k h l. ground (arith, v.linked k h, v.next_free);
    last = ground (arith, v.next_free);
    values =
        Values-snoc _ _ xs a
          (Values-agree q.store _ _ xs
            (λ j p l. linked_value q a n j v.next_free e (omega (arith, v.span, v.next_free)))
            v.values)
          (ground (arith, v.span, v.next_free));
    freed = λ k h. ground (arith, v.freed k h, v.order, v.span, v.next_free);
    beyond = λ k h. ground (arith, v.beyond k, v.next_free);
  }

  -- What linking a node does to a well-shaped queue, before the passed nodes are freed.
  pub link-Inv :
      (q : LockFreeQueue A) (xs : List A) (a : A)
      → Inv q xs
      → (q' : LockFreeQueue A) × (link q a ≡ some q')
        × Inv q' (xs ++ a ∷ [])
        × (q'.divider ≡ q.divider)
  unfolding link
  link-Inv q xs a v = elim (Option-cases (q.store q.tail)) [
    | inl e ↦ absurd (cc (v.last, ap next_of e))
    | inr (n, e) ↦ (after_link q a n, rw (e, link) refl, after_link-Inv q xs a n v e, refl)
  ]

  abbrev after_free : LockFreeQueue A → LockFreeQueue A
  after_free q = record q { store = write q.store q.head none; head = suc q.head }

  after_free-Inv :
      (q : LockFreeQueue A) (xs : List A) → Inv q xs → q.head < q.divider → Inv (after_free q) xs
  unfolding write
  after_free-Inv q xs v h = record {
    order = h;
    span = v.span;
    next_free = v.next_free;
    counted = v.counted;
    linked = λ k p l. ground (arith, v.linked k);
    last = ground (arith, v.last, v.span);
    values = Values-agree q.store _ _ xs (λ j p l. ground arith) v.values;
    freed = λ k p. ground (arith, v.freed k);
    beyond = λ k p. ground (arith, v.beyond k, v.span);
  }

  pub next_node :
      (o : Option (Node A)) (p : ℕ)
      → next_of o ≡ some (some p)
      → (n : Node A) × (o ≡ some n) × (n.next ≡ some p)
  next_node none p h = cc
  next_node (some n) p h = (n, refl, ground arith)

  -- The loop frees every node before the divider and nothing else, if its fuel covers them.
  pub reclaim-Inv :
      (fuel : ℕ) (q : LockFreeQueue A) (xs : List A)
      → Inv q xs
      → q.divider < q.head + fuel
      → (q' : LockFreeQueue A) × (reclaim fuel q ≡ some q')
        × Inv q' xs
        × (q'.head ≡ q.divider)
        × (q'.divider ≡ q.divider)
  unfolding reclaim
  reclaim-Inv zero q xs v h = absurd (omega (arith, v.order))
  reclaim-Inv (suc fuel) q xs v h = elim (Bool-cases (q.head == q.divider)) [
    | inl e ↦ (q, rw (e, reclaim) refl, v, (==_iff _ _).0 e, refl)
    | inr e ↦
        let below : q.head < q.divider = ground (arith, v.order) in
        let (n, s, x) =
          next_node (q.store q.head) (suc q.head)
            (v.linked q.head (omega arith) (omega (arith, v.span))) in
        let (q', r, i, f, g) =
          reclaim-Inv fuel (after_free q) xs (after_free-Inv q xs v below) (omega arith) in
        (q', rw (e, s, x, reclaim) r, i, f, g)
  ]
