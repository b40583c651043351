-- ===== src/Base/LockFreeQueue/Threads.antt =====
-- xrtcserver/rtcserver/src/base/Lock_Free_Queue.hpp, statement by statement: `produce` in one
-- thread and `consume` in another, in any interleaving of their statements. Memory is
-- sequentially consistent here: what the compiler and the processor may reorder is not modelled.
pub mod Shape
pub mod Produce
pub mod Consume
pub mod Safety
pub mod Whole
pub mod WholeConsume
use rtc_frameworker.Prelude.{
  ℕ, ◌+◌, ◌-◌, ◌%◌, ◌^◌, ◌==◌, Bool, true, false, List, [], ◌∷◌, ◌++◌, Option, none, some,
}
use rtc_frameworker.Prelude.Int.{ℤ, signed_32}
use rtc_frameworker.Base.LockFreeQueue.{Node, write}

-- Where the producer stands: between calls, or in front of a statement of `produce`: the
-- assignments to `tail_->next`, `tail_` and `size_`, the test of the loop, and `delete tmp`.
pub data Producer {ℓ} (A : Type ℓ) : Type ℓ where
  ready : Producer A
  allocated : (item : A) (node : ℕ) → Producer A
  linked : (item : A) → Producer A
  moved : Producer A
  freeing : Producer A
  unlinked : (tmp : ℕ) → Producer A

-- Where the consumer stands: between calls, or behind the test, the copy, or the assignment to
-- `divider_`.
pub data Consumer {ℓ} (A : Type ℓ) : Type ℓ where
  waiting : Consumer A
  tested : Consumer A
  copied : (result : A) → Consumer A
  advanced : (result : A) → Consumer A

-- The fields that the threads share, with the numbers of `++size_` and `--size_` so far in place of
-- `size_`, and the two threads. `put` lists the arguments of the calls of `produce`, and `got` what
-- `consume` returned.
pub record Threads {ℓ} (A : Type ℓ) : Type ℓ where
  pub store : ℕ → Option (Node A)
  pub fresh : ℕ
  pub head : ℕ
  pub divider : ℕ
  pub tail : ℕ
  pub raised : ℕ
  pub lowered : ℕ
  pub producer : Producer A
  pub consumer : Consumer A
  pub put : List A
  pub got : List A

-- One statement of the producer's thread, or of the consumer's. A call that begins has its
-- argument.
pub data Tick {ℓ} (A : Type ℓ) : Type ℓ where
  produces : (item : A) → Tick A
  consumes : Tick A

module _ {ℓ} {A : Type ℓ} where
  -- The value of `size_`, an int that wraps.
  unfoldable pub size_of : Threads A → ℤ
  size_of s = signed_32 ((s.raised + (2 ^ 32 - s.lowered % 2 ^ 32)) % 2 ^ 32)

  unfoldable pub start : A → Threads A
  unfolding write
  start default = record {
    store = write (λ _. none) 0 (some (record { value = default; next = none }));
    fresh = 1;
    head = 0;
    divider = 0;
    tail = 0;
    raised = 0;
    lowered = 0;
    producer = ready;
    consumer = waiting;
    put = [];
    got = [];
  }

  -- `none` is the use of a node that is null or was deleted.
  pub produce_from : Threads A → A → Producer A → Option (Threads A)
  unfolding write
  produce_from s a ready = some (record s {
    store = write s.store s.fresh (some (record { value = a; next = none }));
    fresh = s.fresh + 1;
    producer = allocated a s.fresh;
    put = s.put ++ a ∷ [];
  })
  produce_from s a (allocated item node) = elim (s.store s.tail) [
    | none ↦ none
    | some n ↦ some (record s {
      store = write s.store s.tail (some (record n { next = some node }));
      producer = linked item;
    })
  ]
  produce_from s a (linked item) = elim (s.store s.tail) [
    | none ↦ none
    | some n ↦ elim n.next [ none ↦ none | some p ↦ some (record s { tail = p; producer = moved }) ]
  ]
  produce_from s a moved = some (record s { raised = s.raised + 1; producer = freeing })
  produce_from s a freeing = elim (s.head == s.divider) [
    | true ↦ some (record s { producer = ready })
    | false ↦ elim (s.store s.head) [
      | none ↦ none
      | some n ↦ elim n.next [
        | none ↦ none
        | some p ↦ some (record s { head = p; producer = unlinked s.head })
      ]
    ]
  ]
  produce_from s a (unlinked tmp) = elim (s.store tmp) [
    | none ↦ none
    | some n ↦ some (record s { store = write s.store tmp none; producer = freeing })
  ]

  pub consume_from : Threads A → Consumer A → Option (Threads A)
  consume_from s waiting = elim (s.divider == s.tail) [
    | true ↦ some s
    | false ↦ some (record s { consumer = tested })
  ]
  consume_from s tested = elim (s.store s.divider) [
    | none ↦ none
    | some n ↦ elim n.next [
      | none ↦ none
      | some p ↦ elim (s.store p) [
        | none ↦ none
        | some m ↦ some (record s { consumer = copied m.value })
      ]
    ]
  ]
  consume_from s (copied result) = elim (s.store s.divider) [
    | none ↦ none
    | some n ↦ elim n.next [
      | none ↦ none
      | some p ↦ some (record s { divider = p; consumer = advanced result })
    ]
  ]
  consume_from s (advanced result) =
      some (record s { lowered = s.lowered + 1; consumer = waiting; got = s.got ++ result ∷ [] })

  unfoldable pub tick : Threads A → Tick A → Option (Threads A)
  unfolding produce_from consume_from
  tick s (produces item) = produce_from s item s.producer
  tick s consumes = consume_from s s.consumer

  -- A schedule.
  unfoldable pub run : List (Tick A) → Threads A → Option (Threads A)
  unfolding tick
  run [] s = some s
  run (t ∷ ts) s = elim (tick s t) [ none ↦ none | some s' ↦ run ts s' ]
