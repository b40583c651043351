-- ===== src/Frontend/Header/Layout.antt =====
-- header.go beside xhead.hpp: the bytes that the front end writes, and the layout of the servers.
use rtc_frameworker.Prelude.{
  le→ltb_false, ℕ, ◌+◌, ◌≤◌, ◌≡◌, refl, ap, ◌∙◌, [], ◌++◌, drop, length, arith, Bool-cases, inl,
  inr, ltb, if◌then◌else◌, append_assoc, length-append, drop-drop, take-length-append, drop-append,
  if◌then◌else◌, ltb, Bool-cases, le→ltb_false,
}
use rtc_frameworker.Messages.{Bytes}
use rtc_frameworker.Base.Xhead.{Xhead, from_bytes, to_bytes, view, layout}
use rtc_frameworker.Base.Xhead.Layout.{length-to_bytes, Fits, view-layout, length-layout}
use rtc_frameworker.Frontend.Outcome.{bind-returned, ◌>>=◌, returned, failed, short_buffer}
use rtc_frameworker.Frontend.Header.{Header, put, marshal, unmarshal, uint, short_buffer}

-- The servers' header with the same fields, and back.
abbrev pub as_xhead : Header → Xhead
as_xhead h = record {
  id = h.id;
  version = h.version;
  log_id = h.log_id;
  provider = h.provider;
  magic_num = h.magic_num;
  reserved = h.reserved;
  body_len = h.body_len;
}

abbrev pub from_xhead : Xhead → Header
from_xhead h = record {
  id = h.id;
  version = h.version;
  log_id = h.log_id;
  provider = h.provider;
  magic_num = h.magic_num;
  reserved = h.reserved;
  body_len = h.body_len;
}

-- A write right behind what was written before.
put_next :
    (o k : ℕ) (p bytes buf : Bytes)
    → length p ≡ o
    → length bytes ≡ k
    → put o bytes (p ++ drop o buf) ≡ (p ++ bytes) ++ drop (o + k) buf
unfolding put
put_next o k p bytes buf e f =
    rw
      (
        ← e,
        ← f,
        take-length-append p,
        append_assoc p,
        ← drop-drop (length bytes) (length p) (p ++ drop (length p) buf),
        drop-append p,
        drop-drop (length bytes) (length p),
      )
      refl

-- Seven writes, each behind the one before.
put_all :
    (a b c d e f g buf : Bytes)
    → length a ≡ 2
    → length b ≡ 2
    → length c ≡ 4
    → length d ≡ 16
    → length e ≡ 4
    → length f ≡ 4
    → length g ≡ 4
    → put 32 g (put 28 f (put 24 e (put 8 d (put 4 c (put 2 b (put 0 a buf))))))
      ≡ (a ++ (b ++ (c ++ (d ++ (e ++ (f ++ g)))))) ++ drop 36 buf
put_all a b c d e f g buf la lb lc ld le lf lg =
    let l2 : length (a ++ b) ≡ 4 = omega (arith, length-append a b) in
    let l3 : length ((a ++ b) ++ c) ≡ 8 = omega (arith, length-append (a ++ b) c) in
    let l4 : length (((a ++ b) ++ c) ++ d) ≡ 24 = omega (arith, length-append ((a ++ b) ++ c) d) in
    let l5 : length ((((a ++ b) ++ c) ++ d) ++ e) ≡ 28 =
      omega (arith, length-append (((a ++ b) ++ c) ++ d) e) in
    let l6 : length (((((a ++ b) ++ c) ++ d) ++ e) ++ f) ≡ 32 =
      omega (arith, length-append ((((a ++ b) ++ c) ++ d) ++ e) f) in
    ap (λ t. put 32 g (put 28 f (put 24 e (put 8 d (put 4 c (put 2 b t))))))
      (put_next 0 2 [] a buf refl la)
    ∙ ap (λ t. put 32 g (put 28 f (put 24 e (put 8 d (put 4 c t))))) (put_next 2 2 a b buf la lb)
    ∙ ap (λ t. put 32 g (put 28 f (put 24 e (put 8 d t)))) (put_next 4 4 _ c buf l2 lc)
    ∙ ap (λ t. put 32 g (put 28 f (put 24 e t))) (put_next 8 16 _ d buf l3 ld)
    ∙ ap (λ t. put 32 g (put 28 f t)) (put_next 24 4 _ e buf l4 le)
    ∙ ap (λ t. put 32 g t) (put_next 28 4 _ f buf l5 lf)
    ∙ put_next 32 4 _ g buf l6 lg
    ∙ simp append_assoc

-- The front end writes the bytes that the servers read by a cast: into a buffer of at least 36
-- bytes `Marshal` puts the layout of the C++ header with the same fields, for a provider of 16
-- bytes, and leaves the rest of the buffer as it was; with a shorter buffer it returns an error.
pub marshal-layout :
    (h : Header) (buf : Bytes)
    → length h.provider ≡ 16
    → marshal h buf ≡ (
        if ltb (length buf) 36
        then failed short_buffer
        else returned (layout (as_xhead h) ++ drop 36 buf))
unfolding marshal layout
marshal-layout h buf sixteen = elim (Bool-cases (ltb (length buf) 36)) [
  | inl short ↦ rw short refl
  | inr long ↦ rw long (
      ap returned (
        put_all (to_bytes 2 h.id) (to_bytes 2 h.version) (to_bytes 4 h.log_id) h.provider
          (to_bytes 4 h.magic_num) (to_bytes 4 h.reserved) (to_bytes 4 h.body_len) buf
          (length-to_bytes 2 h.id) (length-to_bytes 2 h.version) (length-to_bytes 4 h.log_id)
          sixteen (length-to_bytes 4 h.magic_num) (length-to_bytes 4 h.reserved)
          (length-to_bytes 4 h.body_len)))
]

-- `Unmarshal` reads what the servers read, from at least 36 bytes.
pub unmarshal-view :
    (buf : Bytes) → 36 ≤ length buf → unmarshal buf ≡ returned (from_xhead (view buf))
unfolding unmarshal uint view from_bytes
unmarshal-view buf h = rw (le→ltb_false _ _ h) refl

-- What `Marshal` wrote, `Unmarshal` reads back, for fields in the ranges of their types.
pub unmarshal-marshal :
    (h : Header) (buf : Bytes)
    → Fits (as_xhead h)
    → 36 ≤ length buf
    → (marshal h buf >>= unmarshal) ≡ returned h
unmarshal-marshal h buf fits long =
    let bytes = layout (as_xhead h) ++ drop 36 buf in
    let all : 36 ≤ length bytes =
      omega (
        arith,
        length-append (layout (as_xhead h)) (drop 36 buf),
        length-layout (as_xhead h) fits,
      ) in
    bind-returned (marshal h buf) unmarshal bytes _
      (marshal-layout h buf fits.provider ∙ rw (le→ltb_false (length buf) 36 long) refl)
      (unmarshal-view bytes all
        ∙ ap (λ x. returned (from_xhead x)) (view-layout (as_xhead h) (drop 36 buf) fits))
