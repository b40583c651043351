-- ===== src/Server/Shares.antt =====
-- How a server's workers share what it hands out: a list of items for each worker, by index.
use rtc_frameworker.Prelude.{
  subst, ℕ, ◌<◌, ◌≡◌, ◌≢◌, sym, ap, ◌∙◌, ◌==◌, ==_iff, Bool, List, [], ◌∷◌, ◌++◌, some, length,
  get_elem?, set, get_elem?-set_self, get_elem?-set_ne, if◌then◌else◌, Bool-cases, inl, inr,
  append_assoc, append-nil,
}

module _ {ℓ} {A : Type ℓ} where
  -- The shares with one more item at the end of the `i`-th.
  unfoldable pub snoc_at : (ℕ → List A) → ℕ → A → ℕ → List A
  snoc_at q i a j = if i == j then q j ++ a ∷ [] else q j

  -- The items of a list that a test keeps, in order.
  pub keep : (A → Bool) → List A → List A
  keep p [] = []
  keep p (a ∷ xs) = if p a then a ∷ keep p xs else keep p xs

  -- Items dealt to the shares that a function picks.
  unfoldable pub share_all : (A → ℕ) → List A → (ℕ → List A) → ℕ → List A
  share_all to [] q = q
  share_all to (a ∷ xs) q = share_all to xs (snoc_at q (to a) a)

  -- Each share gets the items that were picked for it, in order, behind what it held.
  pub share_all-keep :
      (to : A → ℕ) (xs : List A) (q : ℕ → List A) (j : ℕ)
      → share_all to xs q j ≡ q j ++ keep (λ a. to a == j) xs
  unfolding share_all keep snoc_at
  share_all-keep to [] q j = sym (append-nil (q j))
  share_all-keep to (a ∷ xs) q j = elim (Bool-cases (to a == j)) [
    | inl e ↦
        share_all-keep to xs (snoc_at q (to a) a) j
        ∙ rw (e) (append_assoc (q j) (a ∷ []) (keep (λ b. to b == j) xs))
    | inr e ↦ share_all-keep to xs (snoc_at q (to a) a) j ∙ rw (e)
  ]

module _ {ℓ κ μ} {W : Type ℓ} {A : Type κ} (Has : W → List A → Type μ) where
  -- Every worker of a list has its share.
  abbrev pub AllHave : List W → (ℕ → List A) → Type (ℓ ⊔ μ)
  AllHave ws q = (i : ℕ) (w : W) → get_elem? ws i ≡ some w → Has w (q i)

  -- Giving one worker one more item.
  pub set-AllHave :
      (ws : List W) (q : ℕ → List A) (i : ℕ) (w' : W) (a : A)
      → i < length ws
      → AllHave ws q
      → Has w' (q i ++ a ∷ [])
      → AllHave (set ws i w') (snoc_at q i a)
  unfolding snoc_at
  set-AllHave ws q i w' a l all h j w e = elim (Bool-cases (i == j)) [
    | inl here ↦
        let same : i ≡ j = (==_iff i j).0 here in
        let new : some w' ≡ some w =
          sym (get_elem?-set_self ws i w' l) ∙ ap (get_elem? (set ws i w')) same ∙ e in
        let same_worker : w' ≡ w = cc new in
        rw here (
          subst (λ k. Has w (q k ++ a ∷ [])) same
            (subst (λ v. Has v (q i ++ a ∷ [])) same_worker h))
    | inr there ↦
        let apart : i ≢ j = λ k. cc ((==_iff i j).1 k) in
        rw there (all j w (sym (get_elem?-set_ne ws i j w' apart) ∙ e))
  ]
