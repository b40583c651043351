-- ===== src/Server/Hiring.antt =====
-- How a server's `Init` makes its workers, and what it leaves behind.
use rtc_frameworker.Prelude.{
  ℕ, zero, suc, ◌+◌, ◌≡◌, refl, sym, ap, ◌∙◌, inl, inr, List, [], ◌∷◌, ◌++◌, Option, none, some,
  arith, length, get_elem?, subst,
}
use rtc_frameworker.Prelude.Int.{ℤ, pos, negsuc}
use rtc_frameworker.Messages.{Ret, done, failed}
use rtc_frameworker.Base.Pipe.{Pipe}
use rtc_frameworker.Base.Socket.{Answer, Errno, value, error}
use rtc_frameworker.Base.Socket.Results.{Answer-cases}

abbrev pub Pipes : Type 0
Pipes = Answer (ℤ × ℤ × Pipe)

-- How often `for (int i = 0; i < n; i++)` runs.
abbrev pub rounds_of : ℤ → ℕ
rounds_of (pos n) = n
rounds_of (negsuc n) = 0

abbrev pub proceed : {S : Type 0} → Ret × S → (S → Ret × S) → Ret × S
proceed (failed, s) k = (failed, s)
proceed (done, s) k = k s

-- The loop `for (i = 0; i < worker_num; i++)` that returns at the first failure: the rounds left,
-- the index, and the answers of pipe(2) by index.
unfoldable pub hire : {S : Type 0} → (S → ℕ → Pipes → Ret × S) → ℕ → ℕ → (ℕ → Pipes) → S → Ret × S
hire make zero i pipes s = (done, s)
hire make (suc n) i pipes s = proceed (make s i (pipes i)) (hire make n (i + 1) pipes)

-- The index of a worker whose pipe failed, where there was one before `n`.
unfoldable pub first_error : ℕ → ℕ → (ℕ → Pipes) → Option ℕ
first_error zero i pipes = none
first_error (suc n) i pipes =
    let rest = first_error n (i + 1) pipes in elim (pipes i) [ error e ↦ some i | value p ↦ rest ]

-- The workers that the loop adds: one for each pipe before the first failure.
unfoldable pub hired : {W : Type 0} → (ℕ → ℤ × ℤ × Pipe → W) → ℕ → ℕ → (ℕ → Pipes) → List W
hired worker zero i pipes = []
hired worker (suc n) i pipes =
    let rest = hired worker n (i + 1) pipes in
    elim (pipes i) [ error e ↦ [] | value p ↦ worker i p ∷ rest ]

-- `done` exactly if no pipe failed.
abbrev pub outcome : Option ℕ → Ret
outcome none = done
outcome (some i) = failed

pub outcome-done : (o : Option ℕ) → outcome o ≡ done → o ≡ none
outcome-done none h = refl
outcome-done (some i) h = cc

-- With no failure there is a worker for each round.
pub length-hired :
    {W : Type 0} (worker : ℕ → ℤ × ℤ × Pipe → W) (n i : ℕ) (pipes : ℕ → Pipes)
    → first_error n i pipes ≡ none
    → length (hired worker n i pipes) ≡ n
unfolding hired first_error
length-hired worker zero i pipes h = refl
length-hired worker (suc n) i pipes h = elim (Answer-cases (pipes i)) [
  | inr (e, a) ↦ cc (rw (a, first_error) at h)
  | inl (p, a) ↦
      rw (a, hired) (ap suc (length-hired worker n (i + 1) pipes (rw (a, first_error) at h)))
]

-- The `j`-th worker is the one of the `j`-th round.
pub hired-worker :
    {W : Type 0} (worker : ℕ → ℤ × ℤ × Pipe → W) (n i : ℕ) (pipes : ℕ → Pipes) (j : ℕ) (w : W)
    → get_elem? (hired worker n i pipes) j ≡ some w
    → (p : ℤ × ℤ × Pipe) × (pipes (i + j) ≡ value p) × (w ≡ worker (i + j) p)
unfolding hired
hired-worker worker zero i pipes j w h = cc
hired-worker worker (suc n) i pipes j w h = elim (Answer-cases (pipes i)) [
  | inr (e, a) ↦ cc (rw (a, hired) at h)
  | inl (p, a) ↦
      at_round worker n i pipes j w p a (rw (a, hired) at h)
        (λ k g. hired-worker worker n (i + 1) pipes k w g)
]
  where
    at_round :
        {W : Type 0} (worker : ℕ → ℤ × ℤ × Pipe → W) (n i : ℕ) (pipes : ℕ → Pipes) (j : ℕ) (w : W)
        (p : ℤ × ℤ × Pipe)
        → pipes i ≡ value p
        → get_elem? (worker i p ∷ hired worker n (i + 1) pipes) j ≡ some w
        → ((k : ℕ)
            → get_elem? (hired worker n (i + 1) pipes) k ≡ some w
            → (p : ℤ × ℤ × Pipe) × (pipes (i + 1 + k) ≡ value p) × (w ≡ worker (i + 1 + k) p))
        → (p : ℤ × ℤ × Pipe) × (pipes (i + j) ≡ value p) × (w ≡ worker (i + j) p)
    at_round worker n i pipes zero w p a h ih =
        let e : i + 0 ≡ i = omega arith in
        let same : worker i p ≡ w = cc h in (p, rw e a, rw e (sym same))
    at_round worker n i pipes (suc k) w p a h ih =
        let e : i + 1 + k ≡ i + suc k = omega arith in
        subst (λ m. (p : ℤ × ℤ × Pipe) × (pipes m ≡ value p) × (w ≡ worker m p)) e (ih k h)

-- A server with workers: its `create_worker` adds `worker s i p` behind the others, or fails and
-- changes nothing.
module _ {S W : Type 0} (make : S → ℕ → Pipes → Ret × S) (worker : S → ℕ → ℤ × ℤ × Pipe → W)
    (add : S → List W → S)
    (add_add : (s : S) (xs ys : List W) → add (add s xs) ys ≡ add s (xs ++ ys))
    (add_nil : (s : S) → add s [] ≡ s)
    (worker-add : (s : S) (xs : List W) → worker (add s xs) ≡ worker s)
    (make-value : (s : S) (i : ℕ) (p : ℤ × ℤ × Pipe)
      → make s i (value p) ≡ (done, add s (worker s i p ∷ [])))
    (make-error : (s : S) (i : ℕ) (e : Errno) → make s i (error e) ≡ (failed, s)) where
  pub hire-hired :
      (n i : ℕ) (pipes : ℕ → Pipes) (s : S)
      → hire make n i pipes s
        ≡ (outcome (first_error n i pipes), add s (hired (worker s) n i pipes))
  unfolding hire hired first_error
  hire-hired zero i pipes s = rw (add_nil s) refl
  hire-hired (suc n) i pipes s = elim (Answer-cases (pipes i)) [
    | inr (e, a) ↦
        rw (a, first_error, hired)
          (ap (λ x. proceed x (hire make n (i + 1) pipes)) (make-error s i e) ∙ rw (add_nil s) refl)
    | inl (p, a) ↦
        let s1 = add s (worker s i p ∷ []) in
        rw (a, first_error, hired)
          (ap (λ x. proceed x (hire make n (i + 1) pipes)) (make-value s i p)
            ∙ hire-hired n (i + 1) pipes s1
            ∙ ap (λ (t : S). (outcome (first_error n (i + 1) pipes), t))
                (ap (λ f. add s1 (hired f n (i + 1) pipes)) (worker-add s (worker s i p ∷ []))
                  ∙ add_add s (worker s i p ∷ []) (hired (worker s) n (i + 1) pipes)))
  ]
