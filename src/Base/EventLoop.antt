-- ===== src/Base/EventLoop.antt =====
-- xrtcserver/rtcserver/src/base/event_loop.hpp and event_loop.cpp: the wrapper round libev. The
-- library itself is the interface `Libev`; the loop's own thread and `ev_run` are not modelled.
pub mod Masks
pub mod Interest
use rtc_frameworker.Prelude.{
  ℕ, ◌+◌, ◌/◌, ◌%◌, ◌<◌, ◌≡◌, ◌==◌, Bool, true, false, not, ◌&&◌, ◌||◌, if◌then◌else◌,
}
use rtc_frameworker.Prelude.Int.{ℤ}

-- An `ev_io` and an `ev_timer` of libev, with what its documentation says of the calls used here:
-- the events that were set are kept (the library has flags of its own in higher bits), starting
-- makes a watcher active and stopping makes it inactive.
pub record Libev : Type 1 where
  pub Io : Type 0
  pub Timer : Type 0
  pub Sec : Type 0
  pub io_init : Io
  pub io_set : Io → ℤ → ℕ → Io
  pub io_start : Io → Io
  pub io_stop : Io → Io
  pub io_active : Io → Bool
  pub io_events : Io → ℕ
  pub io_fd : Io → ℤ
  pub timer_init : Timer
  pub timer_set : Timer → Sec → Sec → Timer
  pub timer_set_repeat : Timer → Sec → Timer
  pub timer_start : Timer → Timer
  pub timer_again : Timer → Timer
  pub timer_stop : Timer → Timer
  pub timer_active : Timer → Bool
  pub zero_sec : Sec
  pub to_sec : ℕ → Sec
  pub init_inactive : io_active io_init ≡ false
  pub set_events : (w : Io) (fd : ℤ) (m : ℕ) → m < 4 → io_events (io_set w fd m) % 4 ≡ m
  pub set_fd : (w : Io) (fd : ℤ) (m : ℕ) → io_fd (io_set w fd m) ≡ fd
  pub start_active : (w : Io) → io_active (io_start w) ≡ true
  pub start_events : (w : Io) → io_events (io_start w) % 4 ≡ io_events w % 4
  pub start_fd : (w : Io) → io_fd (io_start w) ≡ io_fd w
  pub stop_active : (w : Io) → io_active (io_stop w) ≡ false
  pub again_active :
      (t : Timer) (s : Sec) → timer_active (timer_again (timer_set_repeat t s)) ≡ true
  pub timer_start_active : (t : Timer) → timer_active (timer_start t) ≡ true
  pub timer_stop_active : (t : Timer) → timer_active (timer_stop t) ≡ false

-- The masks of the two interfaces are equal: READ = EV_READ = 1 and WRITE = EV_WRITE = 2.
abbrev pub read : ℕ
read = 1

abbrev pub write : ℕ
write = 2

-- `mask & 1` and `mask & 2`.
abbrev pub has_read : ℕ → Bool
has_read m = m % 2 == 1

abbrev pub has_write : ℕ → Bool
has_write m = m / 2 % 2 == 1

abbrev pub mask_of : Bool → Bool → ℕ
mask_of r w = (if r then 1 else 0) + (if w then 2 else 0)

unfoldable pub trans_to_ev_mask : ℕ → ℕ
trans_to_ev_mask m = mask_of (has_read m) (has_write m)

unfoldable pub trans_from_ev_mask : ℕ → ℕ
trans_from_ev_mask m = mask_of (has_read m) (has_write m)

-- `a | b` and `a & ~b`, of masks that hold READ and WRITE only.
unfoldable pub union : ℕ → ℕ → ℕ
union a b = mask_of (has_read a || has_read b) (has_write a || has_write b)

unfoldable pub without : ℕ → ℕ → ℕ
without a b = mask_of (has_read a && not (has_read b)) (has_write a && not (has_write b))

-- A watcher with the callback `C` it was created with (a function and its `data`).
pub record IoWatcher (ev : Libev) (C : Type 0) : Type 0 where
  pub cb : C
  pub io : ev.Io

pub record TimeWatcher (ev : Libev) (C : Type 0) : Type 0 where
  pub cb : C
  pub timer : ev.Timer
  pub repeat : Bool

module _ (ev : Libev) {C : Type 0} where
  unfoldable pub creat_io_event : C → IoWatcher ev C
  creat_io_event cb = record { cb = cb; io = ev.io_init }

  -- What libev's callback passes on: the stored callback, the descriptor and the events.
  unfoldable pub generic_io_cb : IoWatcher ev C → ℕ → C × ℤ × ℕ
  generic_io_cb w revents = (w.cb, ev.io_fd w.io, trans_from_ev_mask revents)

  unfoldable pub start_io_event : IoWatcher ev C → ℤ → ℕ → IoWatcher ev C
  start_io_event w fd mask =
      let active = trans_from_ev_mask (ev.io_events w.io) in
      let new = union active mask in
      if ev.io_active w.io
      then if new == active
        then w
        else record w { io = ev.io_start (ev.io_set (ev.io_stop w.io) fd (trans_to_ev_mask new)) }
      else record w { io = ev.io_start (ev.io_set w.io fd (trans_to_ev_mask mask)) }

  unfoldable pub stop_io_event : IoWatcher ev C → ℤ → ℕ → IoWatcher ev C
  stop_io_event w fd mask =
      let active = trans_from_ev_mask (ev.io_events w.io) in
      let new = without active mask in
      if new == active
      then w
      else if trans_to_ev_mask new == 0
      then record w { io = ev.io_stop w.io }
      else record w { io = ev.io_start (ev.io_set (ev.io_stop w.io) fd (trans_to_ev_mask new)) }

  -- The watcher as it is when its memory is freed.
  unfoldable pub delete_io_event : IoWatcher ev C → IoWatcher ev C
  delete_io_event w = record w { io = ev.io_stop w.io }

  unfoldable pub creat_timer : C → Bool → TimeWatcher ev C
  creat_timer cb repeat = record { cb = cb; timer = ev.timer_init; repeat = repeat }

  unfoldable pub generic_time_cb : TimeWatcher ev C → C
  generic_time_cb w = w.cb

  unfoldable pub start_timer : TimeWatcher ev C → ℕ → TimeWatcher ev C
  start_timer w usec =
      if not w.repeat
      then record w {
        timer = ev.timer_start (ev.timer_set (ev.timer_stop w.timer) (ev.to_sec usec) ev.zero_sec);
      }
      else record w { timer = ev.timer_again (ev.timer_set_repeat w.timer (ev.to_sec usec)) }

  unfoldable pub stop_timer : TimeWatcher ev C → TimeWatcher ev C
  stop_timer w = record w { timer = ev.timer_stop w.timer }

  -- The timer as it is when its memory is freed.
  unfoldable pub delete_timer : TimeWatcher ev C → TimeWatcher ev C
  unfolding stop_timer
  delete_timer w = stop_timer w
