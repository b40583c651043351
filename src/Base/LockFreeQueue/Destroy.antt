-- ===== src/Base/LockFreeQueue/Destroy.antt =====
-- Lock_Free_Queue.hpp: the nodes and the destructor.
use rtc_frameworker.Prelude.{
  ℕ, zero, suc, ◌+◌, ◌≤◌, ◌<◌, ◌≡◌, refl, ◌==◌, List, Option, none, some, arith, Bool-cases, inl,
  inr, ◌-◌,
}
use rtc_frameworker.Base.LockFreeQueue.{Node, LockFreeQueue, write, free_all, destroy}
use rtc_frameworker.Base.LockFreeQueue.Invariant.{Inv, next_of, next_node}

module _ {A : Type 0} where
  pub last_node :
      (o : Option (Node A)) → next_of o ≡ some none → (n : Node A) × (o ≡ some n) × (n.next ≡ none)
  last_node none h = cc
  last_node (some n) h = (n, refl, ground arith)

  Emptied : Option (ℕ → Option (Node A)) → Type 0
  Emptied r = (st : ℕ → Option (Node A)) × (r ≡ some st) × ((k : ℕ) → st k ≡ none)

  -- The loop from node `i`, with the nodes before it freed.
  free_from :
      (d i tail fuel : ℕ) (st : ℕ → Option (Node A))
      → i + d ≡ tail
      → d < fuel
      → ((k : ℕ) → i ≤ k → k < tail → next_of (st k) ≡ some (some (suc k)))
      → next_of (st tail) ≡ some none
      → ((k : ℕ) → k < i → st k ≡ none)
      → ((k : ℕ) → tail < k → st k ≡ none)
      → Emptied (free_all fuel (some i) st)
  unfolding free_all write Emptied
  free_from d i tail zero st e f chain last freed beyond = absurd (omega arith)
  free_from zero i tail (suc fuel) st e f chain last freed beyond =
      let here : i ≡ tail = omega arith in
      let (n, s, l) = last_node (st i) (rw here last) in
      (
        write st i none,
        rw (s, l, free_all) refl,
        λ k. elim (Bool-cases (i == k)) [
          | inl same ↦ rw same refl
          | inr other ↦ rw other (elsewhere k (ground arith))
        ],
      )
    where
      elsewhere : (k : ℕ) → ¬ (i ≡ k) → st k ≡ none
      elsewhere k h = ground (arith, freed k, beyond k)
  free_from (suc d) i tail (suc fuel) st e f chain last freed beyond =
      let (n, s, l) = next_node (st i) (suc i) (chain i (omega arith) (omega arith)) in
      let (st', r, z) =
        free_from d (suc i) tail fuel (write st i none) (omega arith) (omega arith)
          (λ k a b. ground (arith, chain k)) (ground arith) (λ k a. ground (arith, freed k))
          (λ k a. ground (arith, beyond k)) in
      (st', rw (s, l, free_all) r, z)

  -- Between two calls, the destructor deletes every node that was made and not deleted before, each
  -- once, and ends: no node is left.
  pub destroy-frees :
      (q : LockFreeQueue A) (xs : List A)
      → Inv q xs
      → (st : ℕ → Option (Node A)) × (destroy q ≡ some st) × ((k : ℕ) → st k ≡ none)
  unfolding destroy Emptied
  destroy-frees q xs v =
      free_from (q.tail - q.head) q.head q.tail q.fresh q.store (omega (arith, v.order, v.span))
        (omega (arith, v.next_free)) v.linked v.last v.freed v.beyond
