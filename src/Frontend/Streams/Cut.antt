-- ===== src/Frontend/Streams/Cut.antt =====
-- io.ReadFull on the pieces into which a connection's bytes are cut.
use rtc_frameworker.Prelude.{
  ℕ, ◌-◌, ◌≤◌, ◌<◌, ◌≡◌, refl, sym, ◌∙◌, zero, suc, [], ◌∷◌, ◌++◌, length, take, drop, concat, leb,
  arith, Bool-cases, inl, inr, leb→le, lt→leb_false, length-append, take-append, false,
}
use rtc_frameworker.Messages.{Bytes}
use rtc_frameworker.Frontend.Outcome.{returned, failed, short_read}
use rtc_frameworker.Frontend.Streams.{Arrivals, read_full}

drop-append_past : (n : ℕ) (a b : Bytes) → length a ≤ n → drop n (a ++ b) ≡ drop (n - length a) b
drop-append_past n [] b h = let e : n - 0 ≡ n = omega arith in rw e refl
drop-append_past zero (x ∷ a) b h = absurd (omega arith)
drop-append_past (suc n) (x ∷ a) b h = ground (arith, drop-append_past n a b)

drop-append_within : (n : ℕ) (a b : Bytes) → n ≤ length a → drop n (a ++ b) ≡ drop n a ++ b
drop-append_within zero a b h = refl
drop-append_within (suc n) [] b h = absurd (omega arith)
drop-append_within (suc n) (x ∷ a) b h = drop-append_within n a b (omega arith)

take-append_past :
    (n : ℕ) (a b : Bytes) → length a ≤ n → take n (a ++ b) ≡ a ++ take (n - length a) b
take-append_past n [] b h = let e : n - 0 ≡ n = omega arith in rw e refl
take-append_past zero (x ∷ a) b h = absurd (omega arith)
take-append_past (suc n) (x ∷ a) b h = ground (arith, take-append_past n a b)

-- Enough bytes in all: they are the first that arrive, and the others stay in order.
pub read_full-enough :
    (n : ℕ) (pieces : Arrivals)
    → n ≤ length (concat pieces)
    → (rest : Arrivals) × (read_full n pieces ≡ returned (take n (concat pieces), rest))
      × (concat rest ≡ drop n (concat pieces))
unfolding read_full
read_full-enough n [] h = let e : n ≡ 0 = omega arith in rw e ([], refl, refl)
read_full-enough n (p ∷ ps) h = elim (Bool-cases (leb n (length p))) [
  | inl within ↦
      let l = leb→le _ _ within in
      (
        drop n p ∷ ps,
        rw (within, take-append n p (concat ps) l) refl,
        sym (drop-append_within n p (concat ps) l),
      )
  | inr past ↦
      let l : length p < n = ground arith in
      let (rest, e, f) =
        read_full-enough (n - length p) ps (omega (arith, length-append p (concat ps))) in
      (
        rest,
        rw (past, e, take-append_past n p (concat ps) (omega arith)) refl,
        f ∙ sym (drop-append_past n p (concat ps) (omega arith)),
      )
]

-- Too few bytes in all: an error.
pub read_full-short :
    (n : ℕ) (pieces : Arrivals)
    → length (concat pieces) < n
    → read_full n pieces ≡ failed short_read
unfolding read_full
read_full-short n [] h = ground arith
read_full-short n (p ∷ ps) h =
    let past : leb n (length p) ≡ false =
      lt→leb_false n (length p) (omega (arith, length-append p (concat ps))) in
    rw (past, read_full-short (n - length p) ps (omega (arith, length-append p (concat ps)))) refl
