-- ===== src/Base/LockFreeQueue.antt =====
-- xrtcserver/rtcserver/src/base/Lock_Free_Queue.hpp: a linked queue for one producer and one
-- consumer. The nodes live in a store of their own; `new` takes the next free address, a freed
-- address is `none` and is never used again, and an access through it is a fault (`none`).
pub mod Invariant
pub mod Fifo
pub mod Destroy
pub mod Threads
use rtc_frameworker.Prelude.{
  ℕ, zero, suc, ◌+◌, ◌-◌, ◌==◌, Bool, true, false, Option, none, some, if◌then◌else◌,
}

pub record Node {ℓ} (A : Type ℓ) : Type ℓ where
  pub value : A
  pub next : Option ℕ

-- `fresh` is the address that the next `new` returns.
pub record LockFreeQueue {ℓ} (A : Type ℓ) : Type ℓ where
  pub store : ℕ → Option (Node A)
  pub fresh : ℕ
  pub head : ℕ
  pub divider : ℕ
  pub tail : ℕ
  pub count : ℕ

module _ {ℓ} {A : Type ℓ} where
  unfoldable pub write : (ℕ → Option (Node A)) → ℕ → Option (Node A) → ℕ → Option (Node A)
  write st p n q = if p == q then n else st q

  -- The dummy node holds the default value of the type.
  unfoldable pub create : A → LockFreeQueue A
  unfolding write
  create default = record {
    store = write (λ _. none) 0 (some (record { value = default; next = none }));
    fresh = 1;
    head = 0;
    divider = 0;
    tail = 0;
    count = 0;
  }

  -- `while (head_ != divider_)`: free the nodes that the consumer has passed.
  pub reclaim : ℕ → LockFreeQueue A → Option (LockFreeQueue A)
  unfolding write
  reclaim zero q = none
  reclaim (suc fuel) q = elim (q.head == q.divider) [
    | true ↦ some q
    | false ↦ elim (q.store q.head) [
      | none ↦ none
      | some n ↦ elim n.next [
        | none ↦ none
        | some p ↦ reclaim fuel (record q { store = write q.store q.head none; head = p })
      ]
    ]
  ]

  -- `tail_->next = new Node(t); tail_ = tail_->next; ++size_;`
  pub link : LockFreeQueue A → A → Option (LockFreeQueue A)
  unfolding write
  link q a = elim (q.store q.tail) [
    | none ↦ none
    | some n ↦ some (record q {
      store =
          write (write q.store q.fresh (some (record { value = a; next = none }))) q.tail
            (some (record n { next = some q.fresh }));
      fresh = q.fresh + 1;
      tail = q.fresh;
      count = q.count + 1;
    })
  ]

  -- There are at most `fresh` nodes to free.
  unfoldable pub produce : LockFreeQueue A → A → Option (LockFreeQueue A)
  unfolding link reclaim
  produce q a = elim (link q a) [ none ↦ none | some q' ↦ reclaim q'.fresh q' ]

  -- The outer `none` is a fault; the inner one is the result `false`.
  unfoldable pub consume : LockFreeQueue A → Option (Option A × LockFreeQueue A)
  consume q = elim (q.divider == q.tail) [
    | true ↦ some (none, q)
    | false ↦ elim (q.store q.divider) [
      | none ↦ none
      | some n ↦ elim n.next [
        | none ↦ none
        | some p ↦ elim (q.store p) [
          | none ↦ none
          | some m ↦ some (some m.value, record q { divider = p; count = q.count - 1 })
        ]
      ]
    ]
  ]

  -- The destructor's `while (head_ != nullptr)`: what is left of the store. A node is deleted for
  -- each round.
  pub free_all : ℕ → Option ℕ → (ℕ → Option (Node A)) → Option (ℕ → Option (Node A))
  unfolding write
  free_all fuel none st = some st
  free_all zero (some p) st = none
  free_all (suc fuel) (some p) st = elim (st p) [
    | none ↦ none
    | some n ↦ free_all fuel n.next (write st p none)
  ]

  unfoldable pub destroy : LockFreeQueue A → Option (ℕ → Option (Node A))
  unfolding free_all
  destroy q = free_all q.fresh (some q.head) q.store

  unfoldable pub size : LockFreeQueue A → ℕ
  size q = q.count

  unfoldable pub empty : LockFreeQueue A → Bool
  unfolding size
  empty q = size q == 0
