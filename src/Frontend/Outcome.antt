-- ===== src/Frontend/Outcome.antt =====
-- What a call in Go ends with: a value, an error that it returns, or a panic.
use rtc_frameworker.Prelude.{ℕ, ◌≡◌, refl, ap, ◌∙◌}

-- The errors that signaling/src/framework and its xrpc return.
pub data Error : Type 0 where
  short_buffer no_server unresolved dial_failed write_failed short_read : Error
  bad_magic : ℕ → Error
  no_client bad_text no_section no_server_field : Error

pub data Outcome {ℓ} (A : Type ℓ) : Type ℓ where
  returned : A → Outcome A
  failed : Error → Outcome A
  panicked : Outcome A

infixl 5 ◌>>=◌
abbrev pub ◌>>=◌ {ℓ κ} : {A : Type ℓ} {B : Type κ} → Outcome A → (A → Outcome B) → Outcome B
returned a >>= f = f a
failed e >>= f = failed e
panicked >>= f = panicked

-- A chain goes on behind a call that returned.
pub bind-returned {ℓ κ} :
    {A : Type ℓ} {B : Type κ} (m : Outcome A) (f : A → Outcome B) (a : A) (r : Outcome B)
    → m ≡ returned a
    → f a ≡ r
    → (m >>= f) ≡ r
bind-returned m f a r e g = ap (λ x. x >>= f) e ∙ g

-- A chain ends where a call failed.
pub bind-failed {ℓ κ} :
    {A : Type ℓ} {B : Type κ} (m : Outcome A) (f : A → Outcome B) (e : Error)
    → m ≡ failed e
    → (m >>= f) ≡ failed e
bind-failed m f e h = ap (λ x. x >>= f) h

-- What returned came of parts that returned.
pub >>=-eq-returned {ℓ κ} :
    {A : Type ℓ} {B : Type κ} (m : Outcome A) (f : A → Outcome B) {b : B}
    → (m >>= f) ≡ returned b
    → (a : A) × (m ≡ returned a) × (f a ≡ returned b)
>>=-eq-returned (returned a) f h = (a, refl, h)
>>=-eq-returned (failed e) f h = cc
>>=-eq-returned panicked f h = cc
