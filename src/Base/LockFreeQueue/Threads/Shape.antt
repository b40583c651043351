-- ===== src/Base/LockFreeQueue/Threads/Shape.antt =====
-- Lock_Free_Queue.hpp: what holds between any two statements of the two threads.
use rtc_frameworker.Prelude.{
  ℕ, suc, ◌+◌, ◌≤◌, ◌<◌, ◌≡◌, refl, List, [], ◌∷◌, ◌++◌, Option, none, some, arith, length,
}
use rtc_frameworker.Base.LockFreeQueue.{Node}
use rtc_frameworker.Base.LockFreeQueue.Invariant.{next_of, value_of, Values}
use rtc_frameworker.Base.LockFreeQueue.Threads.{
  Producer, ready, allocated, linked, moved, freeing, unlinked, Consumer, waiting, tested, copied,
  advanced, Threads, start,
}

module _ {A : Type 0} where
  -- An item that a call of `produce` brought and that `tail_` does not reach yet.
  abbrev pub in_flight : Producer A → List A
  in_flight (allocated item node) = item ∷ []
  in_flight (linked item) = item ∷ []
  in_flight ready = []
  in_flight moved = []
  in_flight freeing = []
  in_flight (unlinked tmp) = []

  -- An item that `divider_` has passed and that `consume` has not returned yet.
  abbrev pub held : Consumer A → List A
  held (advanced result) = result ∷ []
  held waiting = []
  held tested = []
  held (copied result) = []

  abbrev pub to_raise : Producer A → ℕ
  to_raise moved = 1
  to_raise ready = 0
  to_raise (allocated item node) = 0
  to_raise (linked item) = 0
  to_raise freeing = 0
  to_raise (unlinked tmp) = 0

  abbrev pub to_lower : Consumer A → ℕ
  to_lower (advanced result) = 1
  to_lower waiting = 0
  to_lower tested = 0
  to_lower (copied result) = 0

  -- The last node ends the list, and nothing is allocated behind it.
  abbrev pub Ended : (fresh tail : ℕ) → (ℕ → Option (Node A)) → Type 0
  Ended fresh tail store = (fresh ≡ suc tail) × (next_of (store tail) ≡ some none)

  abbrev pub Producing : Producer A → (fresh tail head : ℕ) → (ℕ → Option (Node A)) → Type 0
  Producing ready fresh tail head store = Ended fresh tail store
  Producing (allocated item node) fresh tail head store =
      (node ≡ suc tail)
      × (fresh ≡ suc (suc tail))
      × (value_of (store (suc tail)) ≡ some item)
      × (next_of (store (suc tail)) ≡ some none)
      × (next_of (store tail) ≡ some none)
  Producing (linked item) fresh tail head store =
      (fresh ≡ suc (suc tail))
      × (value_of (store (suc tail)) ≡ some item)
      × (next_of (store (suc tail)) ≡ some none)
      × (next_of (store tail) ≡ some (some (suc tail)))
  Producing moved fresh tail head store = Ended fresh tail store
  Producing freeing fresh tail head store = Ended fresh tail store
  Producing (unlinked tmp) fresh tail head store =
      (fresh ≡ suc tail)
      × (next_of (store tail) ≡ some none)
      × (suc tmp ≡ head)
      × (next_of (store tmp) ≡ some (some head))

  abbrev pub Consuming : Consumer A → List A → Type 0
  Consuming waiting xs = Unit
  Consuming tested [] = ⊥
  Consuming tested (x ∷ xs) = Unit
  Consuming (copied result) [] = ⊥
  Consuming (copied result) (x ∷ xs) = result ≡ x
  Consuming (advanced result) xs = Unit

  -- `xs` is what lies between `divider_` and `tail_`, oldest first, for threads that stand at `p`
  -- and `c`.
  pub record Inv (p : Producer A) (c : Consumer A) (s : Threads A) (xs : List A) : Type 0 where
    pub order : s.head ≤ s.divider
    pub span : s.divider + length xs ≡ s.tail
    pub chain : (k : ℕ) → s.head ≤ k → k < s.tail → next_of (s.store k) ≡ some (some (suc k))
    pub values : Values s.store (suc s.divider) xs
    pub counted : s.raised + to_raise p ≡ s.lowered + to_lower c + length xs
    pub history : s.put ≡ s.got ++ (held c ++ (xs ++ in_flight p))
    pub producing : Producing p s.fresh s.tail s.head s.store
    pub consuming : Consuming c xs

  abbrev pub Shaped : Threads A → List A → Type 0
  Shaped s xs = Inv s.producer s.consumer s xs

  pub start-Shaped : (a : A) → Shaped (start a) []
  unfolding start
  start-Shaped a = record {
    order = omega arith;
    span = omega arith;
    chain = λ k h l. absurd (omega arith);
    values = tt;
    counted = omega arith;
    history = refl;
    producing = (omega arith, refl);
    consuming = tt;
  }

  -- A statement that does not fault and keeps the shape, with the items that are visible then.
  abbrev pub Goes : Option (Threads A) → Type 0
  Goes r = (s' : Threads A) × (xs : List A) × (r ≡ some s') × Shaped s' xs
