-- ===== src/Frontend/Selector/Turns.antt =====
-- selector.go: which server a call gets, also when other goroutines pick between its two sections.
use native.Mathlib.Nat.{mod-lt, mod-add-mod}
use rtc_frameworker.Prelude.{
  ℕ, zero, suc, ◌+◌, ◌<◌, ◌%◌, ◌≡◌, refl, ap, ◌∙◌, List, [], ◌∷◌, some, length, get_elem?,
  get_elem?-total, next_of_mod, leb, arith, if◌then◌else◌,
}
use rtc_frameworker.Frontend.Outcome.{returned}
use rtc_frameworker.Frontend.Selector.{RoundRobinSelector, next_index, addr_at, pick_server}

-- Counting in turn agrees with counting and taking the remainder.
next_turn : (n i k : ℕ) → 0 < n → i ≡ k % n → (if leb n (i + 1) then 0 else i + 1) ≡ suc k % n
next_turn n i k h e =
    let small : k % n < n = mod-lt k h in
    ap (λ t. if leb n (t + 1) then 0 else t + 1) e
    ∙ next_of_mod n (k % n) small
    ∙ mod-add-mod k n 1
    ∙ ap (λ t. t % n) (omega arith)

module _ {Addr : Type 0} where
  -- The selector behind `k` sections under the write lock, of whatever goroutines.
  unfoldable pub entered : ℕ → RoundRobinSelector Addr → RoundRobinSelector Addr
  unfolding next_index
  entered zero s = s
  entered (suc k) s = (next_index (entered k s)).0

  entered_turn :
      (k : ℕ) (s : RoundRobinSelector Addr)
      → 0 < length s.addrs
      → s.cur_index ≡ 0
      → ((entered k s).cur_index ≡ k % length s.addrs) × ((entered k s).addrs ≡ s.addrs)
  unfolding entered next_index
  entered_turn zero s h e = (omega arith, refl)
  entered_turn (suc k) s h e =
      let (turn, same) = entered_turn k s h e in
      (
        ap
              (λ (as' : List Addr).
                if leb (length as') ((entered k s).cur_index + 1)
                then 0
                else (entered k s).cur_index + 1)
              same
            ∙ next_turn (length s.addrs) _ k h turn,
        same,
      )

  addr_at-found :
      (s : RoundRobinSelector Addr) (addrs : List Addr) (index : ℕ) (addr : Addr)
      → s.addrs ≡ addrs
      → get_elem? addrs index ≡ some addr
      → addr_at s index ≡ returned addr
  unfolding addr_at
  addr_at-found s [] index addr e h = cc
  addr_at-found s (a ∷ more) index addr e h = rw (e, h, addr_at) refl

  -- The call that is the `k`-th to enter a selector that has servers and starts at the first gets
  -- the server at `k` modulo their number, and does not panic, however many other calls enter
  -- before it looks its server up.
  pub pick-turn :
      (s : RoundRobinSelector Addr) (k later : ℕ)
      → 0 < length s.addrs
      → s.cur_index ≡ 0
      → (addr : Addr) × (get_elem? s.addrs (k % length s.addrs) ≡ some addr)
        × (addr_at (entered (suc k + later) s) (next_index (entered k s)).1 ≡ returned addr)
        × ((pick_server (entered k s)).1 ≡ returned addr)
  unfolding entered next_index pick_server
  pick-turn s k later h e =
      let n = length s.addrs in
      let (addr, there) = get_elem?-total s.addrs (k % n) (mod-lt k h) in
      let (turn, same) = entered_turn k s h e in
      let (_, same') = entered_turn (suc k + later) s h e in
      let (_, same1) = entered_turn (suc k) s h e in
      let at : get_elem? s.addrs (entered k s).cur_index ≡ some addr =
        ap (get_elem? s.addrs) turn ∙ there in
      (
        addr,
        there,
        addr_at-found (entered (suc k + later) s) s.addrs _ addr same' at,
        addr_at-found (entered (suc k) s) s.addrs _ addr same1 at,
      )
