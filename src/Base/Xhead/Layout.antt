-- ===== src/Base/Xhead/Layout.antt =====
-- xhead.hpp: reading a header back from its 36 bytes.
use rtc_frameworker.Prelude.{
  ℕ, zero, suc, ◌+◌, ◌/◌, ◌^◌, ◌<◌, ◌≤◌, ◌≡◌, refl, [], ◌∷◌, ◌++◌, take, drop, length, arith,
  take-length-append, length-append, append_assoc, sym, ap, ◌∙◌, length-take, take-append,
}
use rtc_frameworker.Messages.{Bytes}
use rtc_frameworker.Base.Xhead.{Xhead, from_bytes, to_bytes, view, layout, set_body_len}

-- The ranges of the fields' C types.
pub record Fits (h : Xhead) : Type 0 where
  pub id : h.id < 2 ^ 16
  pub version : h.version < 2 ^ 16
  pub log_id : h.log_id < 2 ^ 32
  pub provider : length h.provider ≡ 16
  pub magic_num : h.magic_num < 2 ^ 32
  pub reserved : h.reserved < 2 ^ 32
  pub body_len : h.body_len < 2 ^ 32

pub length-to_bytes : (n v : ℕ) → length (to_bytes n v) ≡ n
unfolding to_bytes
length-to_bytes zero v = refl
length-to_bytes (suc n) v = ap suc (length-to_bytes n (v / 256))

pub from_bytes-to_bytes_two : (v : ℕ) → v < 2 ^ 16 → from_bytes (to_bytes 2 v) ≡ v
unfolding from_bytes to_bytes
from_bytes-to_bytes_two v h = omega arith

pub from_bytes-to_bytes_four : (v : ℕ) → v < 2 ^ 32 → from_bytes (to_bytes 4 v) ≡ v
unfolding from_bytes to_bytes
from_bytes-to_bytes_four v h = omega arith

Xhead_path :
    (g h : Xhead)
    → g.id ≡ h.id
    → g.version ≡ h.version
    → g.log_id ≡ h.log_id
    → g.provider ≡ h.provider
    → g.magic_num ≡ h.magic_num
    → g.reserved ≡ h.reserved
    → g.body_len ≡ h.body_len
    → g ≡ h
Xhead_path g h a b c d e f k = λ i. record {
  id = a i;
  version = b i;
  log_id = c i;
  provider = d i;
  magic_num = e i;
  reserved = f i;
  body_len = k i;
}

drop_past : (p t : Bytes) (m k : ℕ) → m ≡ length p + k → drop m (p ++ t) ≡ drop k t
drop_past [] t m k e = let e' : m ≡ k = omega arith in rw e'
drop_past (x ∷ p) t zero k e = absurd (omega arith)
drop_past (x ∷ p) t (suc m) k e = drop_past p t m k (omega arith)

take_past : (p t : Bytes) (m : ℕ) → m ≡ length p → take m (p ++ t) ≡ p
take_past p t m e = rw e (take-length-append p t)

take-drop-take :
    (n o m : ℕ) (buf t : Bytes)
    → o + n ≤ m
    → m ≤ length buf
    → take n (drop o (take m buf ++ t)) ≡ take n (drop o buf)
take-drop-take zero o m buf t h l = refl
take-drop-take (suc n) o zero buf t h l = absurd (omega arith)
take-drop-take (suc n) o (suc m) [] t h l = absurd (omega arith)
take-drop-take (suc n) zero (suc m) (b ∷ buf) t h l =
    ap (◌∷◌ b) (take-drop-take n zero m buf t (omega arith) (omega arith))
take-drop-take (suc n) (suc o) (suc m) (b ∷ buf) t h l =
    take-drop-take (suc n) o m buf t (omega arith) (omega arith)

-- A header is read back from its bytes field by field, whatever bytes follow, if its fields are in
-- the ranges of their C types.
pub view-layout : (h : Xhead) (rest : Bytes) → Fits h → view (layout h ++ rest) ≡ h
unfolding view layout from_bytes
view-layout h rest f = rw (append_assoc h.provider) (
    Xhead_path _ h (from_bytes-to_bytes_two h.id f.id) (from_bytes-to_bytes_two h.version f.version)
      (from_bytes-to_bytes_four h.log_id f.log_id) (take_past h.provider _ 16 (sym f.provider))
      (rw (drop_past h.provider _ 16 0 (omega arith))
        (from_bytes-to_bytes_four h.magic_num f.magic_num))
      (rw (drop_past h.provider _ 20 4 (omega arith))
        (from_bytes-to_bytes_four h.reserved f.reserved))
      (rw (drop_past h.provider _ 24 8 (omega arith))
        (from_bytes-to_bytes_four h.body_len f.body_len)))

pub length-layout : (h : Xhead) → Fits h → length (layout h) ≡ 36
unfolding layout
length-layout h f = omega (arith, length-append h.provider, f.provider)

-- Setting a body length below 2^32 in a buffer of at least 36 bytes is read back, and keeps every
-- other field of the header.
pub view-set_body_len :
    (n : ℕ) (buf : Bytes)
    → n < 2 ^ 32
    → 36 ≤ length buf
    → view (set_body_len n buf) ≡ record (view buf) { body_len = n }
unfolding view set_body_len
view-set_body_len n buf h l =
    Xhead_path _ _ (same 2 0 (omega arith)) (same 2 2 (omega arith)) (same 4 4 (omega arith))
      (take-drop-take 16 8 32 buf tail (omega arith) (omega arith)) (same 4 24 (omega arith))
      (same 4 28 (omega arith)) body
  where
    tail : Bytes
    tail = to_bytes 4 n ++ drop 36 buf

    same :
        (k o : ℕ)
        → o + k ≤ 32
        → from_bytes (take k (drop o (take 32 buf ++ tail))) ≡ from_bytes (take k (drop o buf))
    same k o p = ap from_bytes (take-drop-take k o 32 buf tail p (omega arith))

    body : from_bytes (take 4 (drop 32 (take 32 buf ++ tail))) ≡ n
    body =
        ap (λ (t : Bytes). from_bytes (take 4 t))
          (drop_past (take 32 buf) tail 32 0 (omega (arith, length-take 32 buf)))
        ∙ from_bytes-to_bytes_four n h

take-drop-append :
    (n o : ℕ) (a b : Bytes) → o + n ≤ length a → take n (drop o (a ++ b)) ≡ take n (drop o a)
take-drop-append n zero a b h = take-append n a b (omega arith)
take-drop-append n (suc o) [] b h = absurd (omega arith)
take-drop-append n (suc o) (x ∷ a) b h = take-drop-append n o a b (omega arith)

-- The header is read from the first 36 bytes alone.
pub view-append : (a b : Bytes) → 36 ≤ length a → view (a ++ b) ≡ view a
unfolding view
view-append a b h =
    Xhead_path _ _ (same 2 0 (omega arith)) (same 2 2 (omega arith)) (same 4 4 (omega arith))
      (take-drop-append 16 8 a b (omega arith)) (same 4 24 (omega arith)) (same 4 28 (omega arith))
      (same 4 32 (omega arith))
  where
    same :
        (k o : ℕ)
        → o + k ≤ 36
        → from_bytes (take k (drop o (a ++ b))) ≡ from_bytes (take k (drop o a))
    same k o p = ap from_bytes (take-drop-append k o a b (omega arith))
