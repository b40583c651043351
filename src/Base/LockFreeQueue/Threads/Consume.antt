-- ===== src/Base/LockFreeQueue/Threads/Consume.antt =====
-- Lock_Free_Queue.hpp, `consume` statement by statement, and the shape of the queue.
use rtc_frameworker.Prelude.{
  suc, ◌≡◌, refl, sym, ap, ◌==◌, List, [], ◌∷◌, arith, length, append_assoc, Bool-cases, inl, inr,
  subst,
}
use rtc_frameworker.Base.LockFreeQueue.Invariant.{next_node}
use rtc_frameworker.Base.LockFreeQueue.Fifo.{value_node}
use rtc_frameworker.Base.LockFreeQueue.Threads.{
  Consumer, waiting, tested, copied, advanced, Threads, consume_from,
}
use rtc_frameworker.Base.LockFreeQueue.Threads.Shape.{Inv, Goes, Consuming}

module _ {A : Type 0} where
  test-Goes :
      (s : Threads A) (xs : List A)
      → s.consumer ≡ waiting
      → Inv s.producer waiting s xs
      → Goes (consume_from s waiting)
  unfolding consume_from
  test-Goes s xs at_start v = elim (Bool-cases (s.divider == s.tail)) [
    | inl e ↦
        (s, xs, rw (e, consume_from) refl, subst (λ c. Inv s.producer c s xs) (sym at_start) v)
    | inr e ↦ (
      record s { consumer = tested },
      xs,
      rw (e, consume_from) refl,
      record {
        order = v.order;
        span = v.span;
        chain = v.chain;
        values = v.values;
        counted = v.counted;
        history = v.history;
        producing = v.producing;
        consuming = some_left xs (λ n. ground (arith, v.span, ap length n));
      },
    )
  ]
    where
      some_left : (xs : List A) → ¬ (xs ≡ []) → Consuming tested xs
      some_left [] h = h refl
      some_left (x ∷ xs) h = tt

  copy-Goes :
      (s : Threads A) (xs : List A) → Inv s.producer tested s xs → Goes (consume_from s tested)
  unfolding consume_from
  copy-Goes s [] v = absurd v.consuming
  copy-Goes s (x ∷ xs) v =
      let link = v.chain s.divider v.order (omega (arith, v.span)) in
      let (n, e, l) = next_node (s.store s.divider) (suc s.divider) link in
      let (m, t, same) = value_node (s.store (suc s.divider)) x v.values.0 in
      (
        record s { consumer = copied m.value },
        x ∷ xs,
        rw (e, l, t, consume_from) refl,
        record {
          order = v.order;
          span = v.span;
          chain = v.chain;
          values = v.values;
          counted = v.counted;
          history = v.history;
          producing = v.producing;
          consuming = same;
        },
      )

  advance-Goes :
      (s : Threads A) (xs : List A) (result : A)
      → Inv s.producer (copied result) s xs
      → Goes (consume_from s (copied result))
  unfolding consume_from
  advance-Goes s [] result v = absurd v.consuming
  advance-Goes s (x ∷ xs) result v =
      let link = v.chain s.divider v.order (omega (arith, v.span)) in
      let (n, e, l) = next_node (s.store s.divider) (suc s.divider) link in
      (
        record s { divider = suc s.divider; consumer = advanced result },
        xs,
        rw (e, l, consume_from) refl,
        record {
          order = omega (arith, v.order);
          span = omega (arith, v.span);
          chain = v.chain;
          values = v.values.1;
          counted = omega (arith, v.counted);
          history = rw v.consuming v.history;
          producing = v.producing;
          consuming = tt;
        },
      )

  return-Goes :
      (s : Threads A) (xs : List A) (result : A)
      → Inv s.producer (advanced result) s xs
      → Goes (consume_from s (advanced result))
  unfolding consume_from
  return-Goes s xs result v = (
    _,
    xs,
    refl,
    record {
      order = v.order;
      span = v.span;
      chain = v.chain;
      values = v.values;
      counted = omega (arith, v.counted);
      history = simp (v.history, append_assoc);
      producing = v.producing;
      consuming = tt;
    },
  )

  pub consume_from-Goes :
      (c : Consumer A) (s : Threads A) (xs : List A)
      → s.consumer ≡ c
      → Inv s.producer c s xs
      → Goes (consume_from s c)
  consume_from-Goes waiting s xs e v = test-Goes s xs e v
  consume_from-Goes tested s xs e v = copy-Goes s xs v
  consume_from-Goes (copied result) s xs e v = advance-Goes s xs result v
  consume_from-Goes (advanced result) s xs e v = return-Goes s xs result v
