-- ===== src/Base/LockFreeQueue/Threads/Safety.antt =====
-- Lock_Free_Queue.hpp: the two threads from a new queue, in any interleaving.
use rtc_frameworker.Prelude.{
  suc, ℕ, ◌+◌, ◌≡◌, refl, ◌∙◌, List, [], ◌∷◌, ◌++◌, some, arith, length, ap, sym, subst, append-nil,
  length-append, ◌<◌, ◌≤◌, ◌%◌, ◌-◌, ◌^◌, Option,
}
use rtc_frameworker.Prelude.Int.{pos, signed_32}
use rtc_frameworker.Base.LockFreeQueue.{Node}
use rtc_frameworker.Base.LockFreeQueue.Invariant.{next_of, value_of, Values, next_node}
use rtc_frameworker.Base.LockFreeQueue.Threads.{
  ready, waiting, Threads, Tick, produces, consumes, size_of, start, tick, run,
}
use rtc_frameworker.Base.LockFreeQueue.Threads.Shape.{
  Inv, Shaped, in_flight, held, Goes, start-Shaped,
}
use rtc_frameworker.Base.LockFreeQueue.Threads.Produce.{produce_from-Goes}
use rtc_frameworker.Base.LockFreeQueue.Threads.Consume.{consume_from-Goes}

signed_32-small : (n : ℕ) → n < 2 ^ 31 → signed_32 n ≡ pos n
signed_32-small n h = ground arith

module _ {A : Type 0} where
  tick-Goes : (s : Threads A) (xs : List A) (t : Tick A) → Shaped s xs → Goes (tick s t)
  unfolding tick
  tick-Goes s xs (produces a) v = produce_from-Goes s.producer s xs a v
  tick-Goes s xs consumes v = consume_from-Goes s.consumer s xs refl v

  run-Goes : (ts : List (Tick A)) (s : Threads A) (xs : List A) → Shaped s xs → Goes (run ts s)
  unfolding run
  run-Goes [] s xs v = (s, xs, refl, v)
  run-Goes (t ∷ ts) s xs v =
      let (s1, xs1, e, v1) = tick-Goes s xs t v in
      let (s2, xs2, f, v2) = run-Goes ts s1 xs1 v1 in (s2, xs2, rw (e, run) f, v2)

  -- From a node to another, the links lead past nodes with these items.
  pub Holds : (ℕ → Option (Node A)) → ℕ → ℕ → List A → Type 0
  Holds store from to [] = from ≡ to
  Holds store from to (x ∷ xs) =
      (n : Node A) × (p : ℕ) × (store from ≡ some n)
      × (n.next ≡ some p)
      × (value_of (store p) ≡ some x)
      × Holds store p to xs

  holds :
      (store : ℕ → Option (Node A)) (from to : ℕ) (xs : List A)
      → from + length xs ≡ to
      → ((k : ℕ) → from ≤ k → k < to → next_of (store k) ≡ some (some (suc k)))
      → Values store (suc from) xs
      → Holds store from to xs
  unfolding Holds
  holds store from to [] e links values = omega (arith, e)
  holds store from to (x ∷ xs) e links values =
      let (n, at, next) =
        next_node (store from) (suc from) (links from (omega arith) (omega (arith, e))) in
      (
        n,
        suc from,
        at,
        next,
        values.0,
        holds store (suc from) to xs (omega (arith, e)) (λ k h l. links k (omega (arith, h)) l)
            values.1,
      )

  Shaped-Holds : (s : Threads A) (xs : List A) → Shaped s xs → Holds s.store s.divider s.tail xs
  Shaped-Holds s xs v =
      holds s.store s.divider s.tail xs v.span (λ k h l. v.chain k (omega (arith, v.order, h)) l)
        v.values

  -- From a new queue, whatever the interleaving of the two threads' statements, none of them uses
  -- a node that is null or was deleted, and none is deleted twice. The items that `produce` was
  -- called with are then, in this order: those that `consume` returned, one that it is about to
  -- return, those of the nodes to which the links lead from `divider_` to `tail_`, and one that
  -- `produce` is about to add. So nothing is lost, repeated or reordered.
  pub run-safe :
      (a : A) (ts : List (Tick A))
      → (s : Threads A) × (waits : List A) × (run ts (start a) ≡ some s)
        × Holds s.store s.divider s.tail waits
        × (s.put ≡ s.got ++ (held s.consumer ++ (waits ++ in_flight s.producer)))
  run-safe a ts =
      let (s, xs, e, v) = run-Goes ts (start a) [] (start-Shaped a) in
      (s, xs, e, Shaped-Holds s xs v, v.history)

  -- Whenever both threads are between two calls, and fewer than 2^31 items were produced and not
  -- yet consumed, `size_` is their number, and they are those of the nodes to which the links lead
  -- from `divider_` to `tail_`.
  pub run-size :
      (a : A) (ts : List (Tick A)) (s : Threads A)
      → run ts (start a) ≡ some s
      → s.producer ≡ ready
      → s.consumer ≡ waiting
      → length s.put < length s.got + 2 ^ 31
      → (waits : List A) × (s.put ≡ s.got ++ waits)
        × Holds s.store s.divider s.tail waits
        × (size_of s ≡ pos (length waits))
  unfolding size_of
  run-size a ts s e p c few =
      let (s', xs, f, v) = run-Goes ts (start a) [] (start-Shaped a) in
      let same : some s' ≡ some s = sym f ∙ e in
      let it : s' ≡ s = cc same in
      let w : Shaped s xs = subst (λ t. Shaped t xs) it v in
      let idle : Inv ready waiting s xs =
        subst (λ q. Inv q waiting s xs) p (subst (λ d. Inv s.producer d s xs) c w) in
      let all : s.put ≡ s.got ++ xs = idle.history ∙ ap (◌++◌ s.got) (append-nil xs) in
      let short : length xs < 2 ^ 31 = omega (arith, ap length all, length-append s.got xs, few) in
      let counted : (s.raised + (2 ^ 32 - s.lowered % 2 ^ 32)) % 2 ^ 32 ≡ length xs =
        omega (arith, idle.counted, short) in
      (xs, all, Shaped-Holds s xs w, ap signed_32 counted ∙ signed_32-small (length xs) short)
