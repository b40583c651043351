-- ===== src/Examples/Queue.antt =====
-- The theorems on the lock-free queue's statements and its destructor applied to concrete runs.
use rtc_frameworker.Prelude.{
  ℕ, ◌≡◌, refl, List, [], ◌∷◌, ◌++◌, Option, none, some, arith, length, replicate,
}
use rtc_frameworker.Prelude.Int.{pos}
use rtc_frameworker.Base.LockFreeQueue as Queue
use rtc_frameworker.Base.LockFreeQueue.{Node, LockFreeQueue, write, produce, consume, destroy}
use rtc_frameworker.Base.LockFreeQueue.Invariant.{create-Inv}
use rtc_frameworker.Base.LockFreeQueue.Destroy.{destroy-frees}
use rtc_frameworker.Base.LockFreeQueue.Threads.{
  ready, waiting, Threads, Tick, produces, consumes, size_of, start, tick, run,
}
use rtc_frameworker.Base.LockFreeQueue.Threads.Shape.{in_flight, held}
use rtc_frameworker.Base.LockFreeQueue.Threads.Safety.{Holds, run-safe, run-size}
use rtc_frameworker.Base.LockFreeQueue.Threads.Whole.{queue_of, produce-uninterrupted}
use rtc_frameworker.Base.LockFreeQueue.Threads.WholeConsume.{listed, consume-uninterrupted}

-- A consumer that comes in while an item is being added.
abbrev mixed : List (Tick ℕ)
mixed =
    consumes
    ∷ produces 7
    ∷ produces 7
    ∷ consumes
    ∷ produces 7
    ∷ consumes
    ∷ consumes
    ∷ produces 7
    ∷ consumes
    ∷ consumes
    ∷ produces 7
    ∷ []

run-safe_example :
    (s : Threads ℕ) × (waits : List ℕ) × (run mixed (start 0) ≡ some s)
    × Holds s.store s.divider s.tail waits
    × (s.put ≡ s.got ++ (held s.consumer ++ (waits ++ in_flight s.producer)))
run-safe_example = run-safe 0 mixed

-- The whole of `produce`, and the queue behind it.
abbrev one_call : List (Tick ℕ)
one_call = replicate 5 (produces 7)

abbrev first_node : Option (Node ℕ)
first_node = some (record { value = 0; next = none })

abbrev new_node : Option (Node ℕ)
new_node = some (record { value = 7; next = none })

abbrev one_item : Threads ℕ
one_item = record {
  store =
      write (write (write (λ _. none) 0 first_node) 1 new_node) 0
        (some (record { value = 0; next = some 1 }));
  fresh = 2;
  head = 0;
  divider = 0;
  tail = 1;
  raised = 1;
  lowered = 0;
  producer = ready;
  consumer = waiting;
  put = 7 ∷ [];
  got = [];
}

one_call-run : run one_call (start 0) ≡ some one_item
unfolding run start tick
one_call-run = refl

run-size_example :
    (waits : List ℕ) × (7 ∷ [] ≡ [] ++ waits)
    × Holds one_item.store one_item.divider one_item.tail waits
    × (size_of one_item ≡ pos (length waits))
run-size_example = run-size 0 one_call one_item one_call-run refl refl (omega arith)

destroy-frees_example :
    (st : ℕ → Option (Node ℕ)) × (destroy (Queue.create 0) ≡ some st) × ((k : ℕ) → st k ≡ none)
destroy-frees_example = destroy-frees (Queue.create 0) [] (create-Inv 0)

produce-uninterrupted_example :
    (k : ℕ) × (s' : Threads ℕ) × (run (replicate k (produces 7)) (start 0) ≡ some s')
    × (produce (queue_of (start 0)) 7 ≡ some (queue_of s'))
    × (s'.producer ≡ ready)
    × (s'.consumer ≡ waiting)
unfolding start Queue.create
produce-uninterrupted_example =
    produce-uninterrupted 7 (start 0) [] (create-Inv 0) (omega arith) refl

abbrev taken : LockFreeQueue ℕ
taken = record (queue_of one_item) { divider = 1; count = 0 }

taken_consumed : consume (queue_of one_item) ≡ some (some 7, taken)
unfolding consume write
taken_consumed = refl

consume-uninterrupted_example :
    (k : ℕ) × (s' : Threads ℕ) × (run (replicate k consumes) one_item ≡ some s')
    × (queue_of s' ≡ taken)
    × (s'.got ≡ [] ++ listed (some 7))
    × (s'.consumer ≡ waiting)
    × (s'.producer ≡ ready)
consume-uninterrupted_example = consume-uninterrupted one_item (some 7) taken refl taken_consumed
