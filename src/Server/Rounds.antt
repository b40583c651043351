-- ===== src/Server/Rounds.antt =====
-- The event loop of a thread that is told to stop through its pipe, as the two servers and their
-- workers run it (`event_loop_->start()` in each of their `start` functions).
use rtc_frameworker.Prelude.{
  ℕ, zero, suc, ◌≤◌, arith, ◌≡◌, refl, Bool, true, false, List, [], ◌∷◌, ◌++◌, Option, some, length,
  if◌then◌else◌, Bool-cases, inl, inr,
}
use rtc_frameworker.Prelude.Int.{ℤ, ◌==ℤ◌}
use rtc_frameworker.Server.Receive.{◌>>=◌}

module _ {W : Type 0} (looping : W → Bool) (next : W → Option W) where
  -- At most so many rounds, each of which handles one event, until the loop is left. `none` is a
  -- fault.
  unfoldable pub run_rounds : ℕ → W → Option W
  run_rounds zero w = some w
  run_rounds (suc n) w = let rest = next w >>= run_rounds n in if looping w then rest else some w

  -- A state in which the rounds end.
  abbrev pub Ends : (W → Type 0) → ℕ → W → Type 0
  Ends Ended n w = (w' : W) × (run_rounds n w ≡ some w') × (looping w' ≡ false) × Ended w'

  -- Threads that, as long as `Good` holds, handle what they read from their pipe, and leave the
  -- loop when they read `quit`.
  module _ (unread : W → List ℤ) (quit : ℤ) (quit_is : (quit ==ℤ quit) ≡ true)
      (Good Ended : W → Type 0)
      (goes : (w : W) (m : ℤ) (rest : List ℤ)
        → Good w
        → unread w ≡ m ∷ rest
        → (m ==ℤ quit) ≡ false
        → (w' : W) × (next w ≡ some w') × (unread w' ≡ rest) × Good w')
      (quits : (w : W) (m : ℤ) (rest : List ℤ)
        → Good w
        → unread w ≡ m ∷ rest
        → (m ==ℤ quit) ≡ true
        → (w' : W) × (next w ≡ some w') × (looping w' ≡ false) × Ended w')
      (left : (w : W) → Good w → looping w ≡ false → Ended w) where
    over : (n : ℕ) (w : W) → looping w ≡ false → Ended w → Ends Ended n w
    unfolding run_rounds
    over zero w l e = (w, refl, l, e)
    over (suc n) w l e = (w, rw (l, run_rounds) refl, l, e)

    round_on :
        (n : ℕ) (w w' : W)
        → looping w ≡ true
        → next w ≡ some w'
        → Ends Ended n w'
        → Ends Ended (suc n) w
    unfolding run_rounds
    round_on n w w' l e (v, f, l', ended) = (v, rw (l, e, run_rounds) f, l', ended)

    quit_round :
        (n : ℕ) (w : W) (m : ℤ) (rest : List ℤ)
        → unread w ≡ m ∷ rest
        → Good w
        → (m ==ℤ quit) ≡ true
        → Ends Ended (suc n) w
    quit_round n w m rest u good is_quit = elim (Bool-cases (looping w)) [
      | inr off ↦ over (suc n) w off (left w good off)
      | inl on ↦
          let (w', e, l, ended) = quits w m rest good u is_quit in
          round_on n w w' on e (over n w' l ended)
    ]

    -- A thread that has `quit` in its pipe leaves its loop when it comes to it, or before, whatever
    -- lies behind it.
    pub rounds-End_within :
        (n : ℕ) (ms later : List ℤ) (w : W)
        → length ms ≤ n
        → unread w ≡ ms ++ quit ∷ later
        → Good w
        → Ends Ended (suc n) w
    rounds-End_within n [] later w h u good = quit_round n w quit later u good quit_is
    rounds-End_within zero (m ∷ ms) later w h u good = absurd (omega (arith, h))
    rounds-End_within (suc n) (m ∷ ms) later w h u good = elim (Bool-cases (looping w)) [
      | inr off ↦ over (suc (suc n)) w off (left w good off)
      | inl on ↦ elim (Bool-cases (m ==ℤ quit)) [
        | inl is_quit ↦ quit_round (suc n) w m (ms ++ quit ∷ later) u good is_quit
        | inr other ↦
            let (w', e, u', good') = goes w m (ms ++ quit ∷ later) good u other in
            round_on (suc n) w w' on e (rounds-End_within n ms later w' (omega (arith, h)) u' good')
      ]
    ]

    pub rounds-End :
        (ms : List ℤ) (w : W) → unread w ≡ ms ++ quit ∷ [] → Good w → Ends Ended (suc (length ms)) w
    rounds-End ms w u good = rounds-End_within (length ms) ms [] w (omega arith) u good
