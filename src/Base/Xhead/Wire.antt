-- ===== src/Base/Xhead/Wire.antt =====
-- xhead.hpp: headers and their 36 bytes.
use rtc_frameworker.Prelude.{
  ℕ, zero, suc, ◌+◌, ◌-◌, ◌^◌, ◌<◌, ◌≤◌, ◌≡◌, refl, [], ◌∷◌, ◌++◌, take, drop, length, arith, sym,
  ap, ap₂, ◌∙◌, take-append-drop, append-nil, subst, length-take,
}
use native.Mathlib.Bridge.{le_prop}
use native.Mathlib.Nat.{ℕ_set}
use native.Mathlib.Numerals.{unary_clauses}
use mathlib.Core.Equiv.{◌≃◌, iso_to_equiv}
use mathlib.Core.HLevel.{Σ_prop_path}
use rtc_frameworker.Messages.{Bytes}
use rtc_frameworker.Base.Xhead.{Xhead, from_bytes, to_bytes, field, view, layout}
use rtc_frameworker.Base.Xhead.Layout.{Fits, view-layout, length-layout}

-- Every item is a byte.
pub AllBytes : Bytes → Type 0
AllBytes [] = Unit
AllBytes (b ∷ bs) = (b < 256) × AllBytes bs

AllBytes-take : (n : ℕ) (bs : Bytes) → AllBytes bs → AllBytes (take n bs)
unfolding AllBytes
AllBytes-take zero bs h = tt
AllBytes-take (suc n) [] h = tt
AllBytes-take (suc n) (b ∷ bs) (h, hs) = (h, AllBytes-take n bs hs)

AllBytes-drop : (n : ℕ) (bs : Bytes) → AllBytes bs → AllBytes (drop n bs)
unfolding AllBytes
AllBytes-drop zero bs h = h
AllBytes-drop (suc n) [] h = tt
AllBytes-drop (suc n) (b ∷ bs) (h, hs) = AllBytes-drop n bs hs

AllBytes-append : (a b : Bytes) → AllBytes a → AllBytes b → AllBytes (a ++ b)
unfolding AllBytes
AllBytes-append [] b h k = k
AllBytes-append (x ∷ a) b (h, hs) k = (h, AllBytes-append a b hs k)

to_bytes-AllBytes : (n v : ℕ) → AllBytes (to_bytes n v)
unfolding AllBytes to_bytes
to_bytes-AllBytes zero v = tt
to_bytes-AllBytes (suc n) v = (omega arith, to_bytes-AllBytes n _)

to_bytes-from_bytes :
    (n : ℕ) (bs : Bytes) → length bs ≡ n → AllBytes bs → to_bytes n (from_bytes bs) ≡ bs
unfolding AllBytes to_bytes from_bytes
to_bytes-from_bytes zero [] e h = refl
to_bytes-from_bytes zero (b ∷ bs) e h = absurd (omega (arith, e))
to_bytes-from_bytes (suc n) [] e h = absurd (omega (arith, e))
to_bytes-from_bytes (suc n) (b ∷ bs) e (h, hs) =
    ap₂ ◌∷◌ (omega arith)
      (ap (to_bytes n) (omega arith) ∙ to_bytes-from_bytes n bs (omega (arith, e)) hs)

from_bytes-lt : (bs : Bytes) → AllBytes bs → from_bytes bs < 256 ^ length bs
unfolding AllBytes from_bytes
from_bytes-lt [] h = omega arith
from_bytes-lt (b ∷ bs) (h, hs) =
    let ih = from_bytes-lt bs hs in simp unary_clauses (omega (arith, ih, h))

length-drop : (n : ℕ) (bs : Bytes) → length (drop n bs) ≡ length bs - n
length-drop zero bs = omega arith
length-drop (suc n) [] = omega arith
length-drop (suc n) (b ∷ bs) = length-drop n bs ∙ omega arith

drop_nil : (n : ℕ) → drop {A = ℕ} n [] ≡ []
drop_nil zero = refl
drop_nil (suc n) = refl

drop-drop : (o k : ℕ) (bs : Bytes) → drop (o + k) bs ≡ drop k (drop o bs)
drop-drop zero k bs = ap (λ n. drop n bs) (omega arith)
drop-drop (suc o) k [] = drop_nil _ ∙ sym (drop_nil k)
drop-drop (suc o) k (b ∷ bs) =
    let e : suc o + k ≡ suc (o + k) = omega arith in ap (λ n. drop n (b ∷ bs)) e ∙ drop-drop o k bs

-- A field is the bytes at its place.
piece :
    (o k : ℕ) (buf : Bytes)
    → o + k ≤ length buf
    → AllBytes buf
    → to_bytes k (field o k buf) ≡ take k (drop o buf)
unfolding field
piece o k buf h bytes =
    to_bytes-from_bytes k (take k (drop o buf))
      (omega (arith, length-take k (drop o buf), length-drop o buf, h))
      (AllBytes-take k (drop o buf) (AllBytes-drop o buf bytes))

-- It and what comes behind it.
behind : (o k : ℕ) (buf : Bytes) → take k (drop o buf) ++ drop (o + k) buf ≡ drop o buf
behind o k buf =
    ap (◌++◌ (take k (drop o buf))) (drop-drop o k buf) ∙ take-append-drop k (drop o buf)

drop_all : (n : ℕ) (bs : Bytes) → length bs ≤ n → drop n bs ≡ []
drop_all n [] h = drop_nil n
drop_all zero (b ∷ bs) h = absurd (omega (arith, h))
drop_all (suc n) (b ∷ bs) h = drop_all n bs (omega (arith, h))

-- A field laid out in front of what comes behind it.
laid :
    (o k : ℕ) (buf rest : Bytes)
    → o + k ≤ length buf
    → AllBytes buf
    → rest ≡ drop (o + k) buf
    → to_bytes k (field o k buf) ++ rest ≡ drop o buf
laid o k buf rest h bytes e = ap₂ ◌++◌ (piece o k buf h bytes) e ∙ behind o k buf

laid_last :
    (buf : Bytes) → length buf ≡ 36 → AllBytes buf → to_bytes 4 (field 32 4 buf) ≡ drop 32 buf
laid_last buf h bytes =
    sym (append-nil (to_bytes 4 (field 32 4 buf)))
    ∙ laid 32 4 buf [] (omega (arith, h)) bytes (sym (drop_all 36 buf (omega (arith, h))))

-- The 36 bytes of a buffer are laid out again as they were.
pub layout-view : (buf : Bytes) → length buf ≡ 36 → AllBytes buf → layout (view buf) ≡ buf
unfolding layout view
layout-view buf h bytes = laid 0 2 buf _ (omega (arith, h)) bytes (
    laid 2 2 buf _ (omega (arith, h)) bytes (
      laid 4 4 buf _ (omega (arith, h)) bytes (
        ap (◌++◌ (take 16 (drop 8 buf))) (
          laid 24 4 buf _ (omega (arith, h)) bytes
            (laid 28 4 buf _ (omega (arith, h)) bytes (laid_last buf h bytes)))
        ∙ behind 8 16 buf)))

field-lt : (o k : ℕ) (buf : Bytes) → o + k ≤ length buf → AllBytes buf → field o k buf < 256 ^ k
unfolding field
field-lt o k buf h bytes =
    subst (λ n. field o k buf < 256 ^ n)
      (omega (arith, length-take k (drop o buf), length-drop o buf, h))
      (from_bytes-lt (take k (drop o buf))
        (AllBytes-take k (drop o buf) (AllBytes-drop o buf bytes)))

view-Fits : (buf : Bytes) → length buf ≡ 36 → AllBytes buf → Fits (view buf)
unfolding view
view-Fits buf h bytes = record {
  id = field-lt 0 2 buf (omega (arith, h)) bytes;
  version = field-lt 2 2 buf (omega (arith, h)) bytes;
  log_id = field-lt 4 4 buf (omega (arith, h)) bytes;
  provider = omega (arith, length-take 16 (drop 8 buf), length-drop 8 buf, h);
  magic_num = field-lt 24 4 buf (omega (arith, h)) bytes;
  reserved = field-lt 28 4 buf (omega (arith, h)) bytes;
  body_len = field-lt 32 4 buf (omega (arith, h)) bytes;
}

layout-AllBytes : (h : Xhead) → AllBytes h.provider → AllBytes (layout h)
unfolding layout
layout-AllBytes h bytes = AllBytes-append _ _ (to_bytes-AllBytes 2 h.id) (
    AllBytes-append _ _ (to_bytes-AllBytes 2 h.version) (
      AllBytes-append _ _ (to_bytes-AllBytes 4 h.log_id) (
        AllBytes-append _ _ bytes (
          AllBytes-append _ _ (to_bytes-AllBytes 4 h.magic_num) (
            AllBytes-append _ _ (to_bytes-AllBytes 4 h.reserved)
              (to_bytes-AllBytes 4 h.body_len))))))

Fits-IsProp : (h : Xhead) → IsProp (Fits h)
Fits-IsProp h = hlevel (le_prop, ℕ_set)

AllBytes-IsProp : (bs : Bytes) → IsProp (AllBytes bs)
unfolding AllBytes
AllBytes-IsProp [] = hlevel
AllBytes-IsProp (b ∷ bs) = hlevel (le_prop, AllBytes-IsProp bs)

-- A header whose fields are in their ranges, and 36 bytes.
abbrev pub Header : Type 0
Header = (h : Xhead) × (Fits h × AllBytes h.provider)

abbrev pub Wire : Type 0
Wire = (buf : Bytes) × ((length buf ≡ 36) × AllBytes buf)

IsHeader-IsProp : (h : Xhead) → IsProp (Fits h × AllBytes h.provider)
IsHeader-IsProp h = hlevel (Fits-IsProp h, AllBytes-IsProp h.provider)

IsWire-IsProp : (buf : Bytes) → IsProp ((length buf ≡ 36) × AllBytes buf)
IsWire-IsProp buf = hlevel (ℕ_set, AllBytes-IsProp buf)

lay : Header → Wire
lay (h, (fits, bytes)) = (layout h, (length-layout h fits, layout-AllBytes h bytes))

cast : Wire → Header
unfolding view
cast (buf, (long, bytes)) = (
  view buf,
  (view-Fits buf long bytes, AllBytes-take 16 (drop 8 buf) (AllBytes-drop 8 buf bytes)),
)

cast-lay : (x : Header) → cast (lay x) ≡ x
unfolding cast lay
cast-lay (h, (fits, bytes)) =
    Σ_prop_path IsHeader-IsProp (ap view (sym (append-nil (layout h))) ∙ view-layout h [] fits)

lay-cast : (x : Wire) → lay (cast x) ≡ x
unfolding cast lay
lay-cast (buf, (long, bytes)) = Σ_prop_path IsWire-IsProp (layout-view buf long bytes)

-- The headers whose fields are in the ranges of their C types, and the buffers of 36 bytes, are
-- equivalent types: `layout` is the way from the one to the other, and the cast of `view` the way
-- back. So every buffer of 36 bytes is the layout of exactly one header.
pub Header-Wire :
    (e : Header ≃ Wire) × ((h : Header) → (e.0 h).0 ≡ layout h.0)
    × ((buf : Wire) → (e.1 buf).0.0.0 ≡ view buf.0)
unfolding cast lay
Header-Wire = (
  iso_to_equiv (record { fun = lay; inv = cast; rinv = lay-cast; linv = cast-lay }),
  λ h. refl,
  λ buf. refl,
)
