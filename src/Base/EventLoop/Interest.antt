-- ===== src/Base/EventLoop/Interest.antt =====
-- event_loop.cpp: what a watcher waits for after `start_io_event` and `stop_io_event`.
use rtc_frameworker.Prelude.{
  ℕ, ◌<◌, ◌≡◌, refl, ◌∙◌, ◌==◌, arith, true, if◌then◌else◌, Bool-cases, inl, inr, sym,
}
use rtc_frameworker.Prelude.Int.{ℤ}
use rtc_frameworker.Base.EventLoop.{
  Libev, IoWatcher, trans_to_ev_mask, trans_from_ev_mask, union, without, start_io_event,
  stop_io_event,
}
use rtc_frameworker.Base.EventLoop.Masks.{mask_bits, from_mod, union-lt, without-lt, union-zero}

set_started :
    (ev : Libev) (io : ev.Io) (fd : ℤ) (m : ℕ)
    → m < 4
    → trans_from_ev_mask (ev.io_events (ev.io_start (ev.io_set io fd (trans_to_ev_mask m)))) ≡ m
set_started ev io fd m h =
    rw (mask_bits m h) (from_mod _ ∙ ev.start_events (ev.io_set io fd m) ∙ ev.set_events io fd m h)

module _ (ev : Libev) {C : Type 0} where
  -- The events that a watcher is waiting for: none while it is inactive.
  unfoldable pub interest : IoWatcher ev C → ℕ
  interest w = if ev.io_active w.io then trans_from_ev_mask (ev.io_events w.io) else 0

  -- Whatever a watcher waited for, after `start_io_event` with a mask of READ and WRITE it waits
  -- for that and for the mask; its callback is kept.
  pub interest-start_io_event :
      (w : IoWatcher ev C) (fd : ℤ) (m : ℕ)
      → m < 4
      → (interest (start_io_event ev w fd m) ≡ union (interest w) m)
        × ((start_io_event ev w fd m).cb ≡ w.cb)
  unfolding interest start_io_event
  interest-start_io_event w fd m h =
      let old = trans_from_ev_mask (ev.io_events w.io) in
      elim (Bool-cases (ev.io_active w.io)) [
        | inl on ↦ elim (Bool-cases (union old m == old)) [
          | inl e ↦ ground (arith)
          | inr e ↦
              rw (on, e)
                (
                  rw (ev.start_active _)
                      (set_started ev (ev.io_stop w.io) fd (union old m) (union-lt old m)),
                  refl,
                )
        ]
        | inr off ↦
            rw off
              (rw (ev.start_active _) (set_started ev w.io fd m h ∙ sym (union-zero m h)), refl)
      ]

  -- After `stop_io_event` an active watcher waits for what it waited for less the mask; its
  -- callback is kept.
  pub interest-stop_io_event :
      (w : IoWatcher ev C) (fd : ℤ) (m : ℕ)
      → ev.io_active w.io ≡ true
      → (interest (stop_io_event ev w fd m) ≡ without (interest w) m)
        × ((stop_io_event ev w fd m).cb ≡ w.cb)
  unfolding interest stop_io_event
  interest-stop_io_event w fd m on =
      let old = trans_from_ev_mask (ev.io_events w.io) in
      let to = mask_bits (without old m) (without-lt old m) in
      elim (Bool-cases (without old m == old)) [
        | inl e ↦ ground arith
        | inr e ↦ elim (Bool-cases (trans_to_ev_mask (without old m) == 0)) [
          | inl z ↦ rw (e, z, on) (rw (ev.stop_active w.io) (ground arith), refl)
          | inr z ↦
              rw (e, z, on)
                (
                  rw (ev.start_active _)
                      (set_started ev (ev.io_stop w.io) fd (without old m) (without-lt old m)),
                  refl,
                )
        ]
      ]
