-- ===== src/Base/EventLoop/Masks.antt =====
-- event_loop.cpp: the two event masks and the operations on them.
use rtc_frameworker.Prelude.{ℕ, ◌<◌, ◌≡◌, ◌%◌, arith, ◌&&◌, ◌||◌, not}
use rtc_frameworker.Base.EventLoop.{
  has_read, has_write, trans_to_ev_mask, trans_from_ev_mask, union, without,
}

pub mask_bits : (m : ℕ) → m < 4 → trans_to_ev_mask m ≡ m
unfolding trans_to_ev_mask
mask_bits m h = ground arith

pub from_mod : (m : ℕ) → trans_from_ev_mask m ≡ m % 4
unfolding trans_from_ev_mask
from_mod m = ground arith

pub from-lt : (m : ℕ) → trans_from_ev_mask m < 4
unfolding trans_from_ev_mask
from-lt m = ground arith

pub union-lt : (a b : ℕ) → union a b < 4
unfolding union
union-lt a b = ground arith

pub without-lt : (a b : ℕ) → without a b < 4
unfolding without
without-lt a b = ground arith

pub union_bits :
    (a b : ℕ)
    → (has_read (union a b) ≡ (has_read a || has_read b))
      × (has_write (union a b) ≡ (has_write a || has_write b))
unfolding union
union_bits a b = ground arith

pub without_bits :
    (a b : ℕ)
    → (has_read (without a b) ≡ (has_read a && not (has_read b)))
      × (has_write (without a b) ≡ (has_write a && not (has_write b)))
unfolding without
without_bits a b = ground arith

pub union-zero : (m : ℕ) → m < 4 → union 0 m ≡ m
unfolding union
union-zero m h = ground arith
