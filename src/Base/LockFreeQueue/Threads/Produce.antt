-- ===== src/Base/LockFreeQueue/Threads/Produce.antt =====
-- Lock_Free_Queue.hpp, `produce` statement by statement, and the shape of the queue.
use rtc_frameworker.Prelude.{
  ℕ, suc, ◌<◌, ◌≡◌, refl, sym, ap, ◌∙◌, ◌==◌, ==_iff, List, [], ◌∷◌, ◌++◌, Option, none, some,
  arith, length-append, append_assoc, append-nil, Bool-cases, inl, inr,
}
use rtc_frameworker.Base.LockFreeQueue.{Node, write}
use rtc_frameworker.Base.LockFreeQueue.Invariant.{
  next_of, value_of, Values-agree, Values-snoc, next_node,
}
use rtc_frameworker.Base.LockFreeQueue.Threads.{
  Producer, ready, allocated, linked, moved, freeing, unlinked, Consumer, waiting, tested, copied,
  advanced, Threads, produce_from,
}
use rtc_frameworker.Base.LockFreeQueue.Threads.Shape.{Inv, Goes, Consuming}

module _ {A : Type 0} where
  last_node : (o : Option (Node A)) → next_of o ≡ some none → (n : Node A) × (o ≡ some n)
  last_node none h = cc
  last_node (some n) h = (n, refl)

  allocate-Goes :
      (s : Threads A) (xs : List A) (a : A)
      → Inv ready s.consumer s xs
      → Goes (produce_from s a ready)
  unfolding produce_from write
  allocate-Goes s xs a v =
      let (fresh, last) = v.producing in
      (
        _,
        xs,
        refl,
        record {
          order = v.order;
          span = v.span;
          chain = λ k h l. ground (arith, v.chain k h l);
          values = Values-agree s.store _ _ xs (λ j p l. ground (arith, v.span)) v.values;
          counted = v.counted;
          history = simp (v.history, append-nil, append_assoc);
          producing = (fresh, omega arith, ground arith, ground arith, ground arith);
          consuming = v.consuming;
        },
      )

  abbrev after_link : Threads A → A → ℕ → Node A → Threads A
  after_link s item node n = record s {
    store = write s.store s.tail (some (record n { next = some node }));
    producer = linked item;
  }

  same_value :
      (s : Threads A) (n : Node A) (next : Option ℕ) (j : ℕ)
      → s.store s.tail ≡ some n
      → value_of (write s.store s.tail (some (record n { next = next })) j) ≡ value_of (s.store j)
  unfolding write
  same_value s n next j e = elim (Bool-cases (s.tail == j)) [
    | inl here ↦
        rw here (ap value_of (sym e) ∙ ap (λ k. value_of (s.store k)) ((==_iff _ _).0 here))
    | inr there ↦ rw there
  ]

  link-Goes :
      (s : Threads A) (xs : List A) (a item : A) (node : ℕ)
      → Inv (allocated item node) s.consumer s xs
      → Goes (produce_from s a (allocated item node))
  unfolding produce_from write
  link-Goes s xs a item node v =
      let (place, fresh, value, next, last) = v.producing in
      let (n, e) = last_node (s.store s.tail) last in
      (
        after_link s item node n,
        xs,
        rw (e, produce_from) refl,
        record {
          order = v.order;
          span = v.span;
          chain = λ k h l. ground (arith, v.chain k h l);
          values = Values-agree s.store _ _ xs (λ j p l. same_value s n (some node) j e) v.values;
          counted = v.counted;
          history = v.history;
          producing = (fresh, ground arith, ground arith, ground arith);
          consuming = v.consuming;
        },
      )

  -- A new item changes nothing for a consumer that has passed its test.
  Consuming-snoc :
      (c : Consumer A) (xs : List A) (item : A) → Consuming c xs → Consuming c (xs ++ item ∷ [])
  Consuming-snoc waiting xs item h = tt
  Consuming-snoc tested [] item h = elim h [ ]
  Consuming-snoc tested (x ∷ xs) item h = tt
  Consuming-snoc (copied result) [] item h = elim h [ ]
  Consuming-snoc (copied result) (x ∷ xs) item h = h
  Consuming-snoc (advanced result) xs item h = tt

  move-Goes :
      (s : Threads A) (xs : List A) (a item : A)
      → Inv (linked item) s.consumer s xs
      → Goes (produce_from s a (linked item))
  unfolding produce_from
  move-Goes s xs a item v =
      let (fresh, value, next, last) = v.producing in
      let (n, e, l) = next_node (s.store s.tail) (suc s.tail) last in
      (
        record s { tail = suc s.tail; producer = moved },
        xs ++ item ∷ [],
        rw (e, l, produce_from) refl,
        record {
          order = v.order;
          span = omega (arith, length-append xs (item ∷ []), v.span);
          chain = λ k h l. ground (arith, v.chain k h);
          values =
              Values-snoc s.store (suc s.divider) xs item v.values
                (ap (λ k. value_of (s.store k)) (omega (arith, v.span)) ∙ value);
          counted = omega (arith, length-append xs (item ∷ []), v.counted);
          history = simp (v.history, append-nil);
          producing = (fresh, next);
          consuming = Consuming-snoc s.consumer xs item v.consuming;
        },
      )

  raise-Goes :
      (s : Threads A) (xs : List A) (a : A)
      → Inv moved s.consumer s xs
      → Goes (produce_from s a moved)
  unfolding produce_from
  raise-Goes s xs a v = (
    _,
    xs,
    refl,
    record {
      order = v.order;
      span = v.span;
      chain = v.chain;
      values = v.values;
      counted = omega (arith, v.counted);
      history = v.history;
      producing = v.producing;
      consuming = v.consuming;
    },
  )

  free-Goes :
      (s : Threads A) (xs : List A) (a : A)
      → Inv freeing s.consumer s xs
      → Goes (produce_from s a freeing)
  unfolding produce_from
  free-Goes s xs a v = elim (Bool-cases (s.head == s.divider)) [
    | inl e ↦ (
      record s { producer = ready },
      xs,
      rw (e, produce_from) refl,
      record {
        order = v.order;
        span = v.span;
        chain = v.chain;
        values = v.values;
        counted = v.counted;
        history = v.history;
        producing = v.producing;
        consuming = v.consuming;
      },
    )
    | inr e ↦
        let below : s.head < s.divider = ground (arith, v.order) in
        let link = v.chain s.head (omega arith) (omega (arith, v.span)) in
        let (n, st, l) = next_node (s.store s.head) (suc s.head) link in
        (
          record s { head = suc s.head; producer = unlinked s.head },
          xs,
          rw (e, st, l, produce_from) refl,
          record {
            order = below;
            span = v.span;
            chain = λ k h l. v.chain k (omega arith) l;
            values = v.values;
            counted = v.counted;
            history = v.history;
            producing = (v.producing.0, v.producing.1, refl, link);
            consuming = v.consuming;
          },
        )
  ]

  delete-Goes :
      (s : Threads A) (xs : List A) (a : A) (tmp : ℕ)
      → Inv (unlinked tmp) s.consumer s xs
      → Goes (produce_from s a (unlinked tmp))
  unfolding produce_from write
  delete-Goes s xs a tmp v =
      let (fresh, last, place, link) = v.producing in
      let (n, e, l) = next_node (s.store tmp) s.head link in
      (
        record s { store = write s.store tmp none; producer = freeing },
        xs,
        rw (e, produce_from) refl,
        record {
          order = v.order;
          span = v.span;
          chain = λ k h l. ground (arith, v.chain k h l);
          values = Values-agree s.store _ _ xs (λ j p l. ground (arith, v.order)) v.values;
          counted = v.counted;
          history = v.history;
          producing = (fresh, ground (arith, v.order, v.span));
          consuming = v.consuming;
        },
      )

  pub produce_from-Goes :
      (p : Producer A) (s : Threads A) (xs : List A) (a : A)
      → Inv p s.consumer s xs
      → Goes (produce_from s a p)
  produce_from-Goes ready s xs a v = allocate-Goes s xs a v
  produce_from-Goes (allocated item node) s xs a v = link-Goes s xs a item node v
  produce_from-Goes (linked item) s xs a v = move-Goes s xs a item v
  produce_from-Goes moved s xs a v = raise-Goes s xs a v
  produce_from-Goes freeing s xs a v = free-Goes s xs a v
  produce_from-Goes (unlinked tmp) s xs a v = delete-Goes s xs a tmp v
