-- ===== src/Frontend/Text.antt =====
-- What signaling/src uses of Go's strconv and strings, on the bytes of ASCII texts.
use rtc_frameworker.Prelude.{
  replicate, refl, ap, ◌≡◌, ◌<◌, arith, zero, suc, ℕ, ◌+◌, ◌-◌, ◌*◌, ◌^◌, Bool, true, false, ◌&&◌,
  ◌||◌, List, [], ◌∷◌, Option, none, some, ltb, leb, ◌==◌, if◌then◌else◌,
}
use rtc_frameworker.Prelude.Int.{ℤ, pos, negsuc}
use rtc_frameworker.Messages.{Bytes}
use mathlib.Core.List.{reverse}

is_digit : ℕ → Bool
is_digit c = leb b'0' c && leb c b'9'

-- The decimal number behind the digits read so far.
unfoldable pub digits_from : ℕ → Bytes → Option ℕ
unfolding is_digit
digits_from n [] = some n
digits_from n (c ∷ cs) =
    let rest = digits_from (10 * n + (c - b'0')) cs in if is_digit c then rest else none

in_range : Option ℕ → Option ℕ
in_range none = none
in_range (some n) = if ltb n (2 ^ 64) then some n else none

-- `ParseUint(s, 10, 64)`: `none` for an error, of the syntax or the range.
unfoldable pub parse_uint : Bytes → Option ℕ
unfolding digits_from in_range
parse_uint [] = none
parse_uint (c ∷ cs) = in_range (digits_from 0 (c ∷ cs))

-- It gives a number of 64 bits.
pub parse_uint-lt : (text : Bytes) (n : ℕ) → parse_uint text ≡ some n → n < 2 ^ 64
unfolding parse_uint
parse_uint-lt [] n h = cc
parse_uint-lt (c ∷ cs) n h = bounded (digits_from 0 (c ∷ cs)) h
  where
    bounded : (o : Option ℕ) → in_range o ≡ some n → n < 2 ^ 64
    bounded none e = cc
    bounded (some m) e = ground arith

digits_zero : (n : ℕ) → digits_from 0 (replicate n b'0') ≡ some 0
unfolding digits_from
digits_zero zero = refl
digits_zero (suc n) = digits_zero n

-- Zeros are read as 0.
pub parse_uint-zeros : (n : ℕ) → parse_uint (replicate (suc n) b'0') ≡ some 0
unfolding parse_uint
parse_uint-zeros n = ap in_range (digits_zero (suc n))

int_of : Bool → ℕ → Option ℤ
int_of true zero = some (pos 0)
int_of true (suc n) = if leb (suc n) (2 ^ 63) then some (negsuc n) else none
int_of false n = if ltb n (2 ^ 63) then some (pos n) else none

signed : Bool → Bytes → Option ℤ
unfolding int_of digits_from
signed negative [] = none
signed negative (c ∷ cs) = elim (digits_from 0 (c ∷ cs)) [
  | none ↦ none
  | some n ↦ int_of negative n
]

-- `Atoi(s)`: `none` for an error.
unfoldable pub atoi : Bytes → Option ℤ
unfolding signed
atoi [] = none
atoi (c ∷ cs) =
    if c == b'-'
    then signed true cs
    else if c == b'+'
    then signed false cs
    else signed false (c ∷ cs)

is_space : ℕ → Bool
is_space c = c == 32 || leb 9 c && leb c 13

unfoldable pub trim_left : Bytes → Bytes
unfolding is_space
trim_left [] = []
trim_left (c ∷ cs) = let rest = trim_left cs in if is_space c then rest else c ∷ cs

-- `TrimSpace(s)`.
unfoldable pub trim_space : Bytes → Bytes
unfolding trim_left
trim_space s = reverse (trim_left (reverse (trim_left s)))

-- A byte in front of the first part.
in_front : ℕ → List Bytes → List Bytes
in_front c [] = (c ∷ []) ∷ []
in_front c (part ∷ parts) = (c ∷ part) ∷ parts

-- `Split(s, ",")`.
unfoldable pub split_commas : Bytes → List Bytes
unfolding in_front
split_commas [] = [] ∷ []
split_commas (c ∷ cs) = if c == b',' then [] ∷ split_commas cs else in_front c (split_commas cs)
