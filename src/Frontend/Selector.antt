-- ===== src/Frontend/Selector.antt =====
-- signaling/src/framework/xrpc/selector.go: the servers in turn. `Addr` is net.Addr, and the
-- resolver is the Go library's.
pub mod Turns
use rtc_frameworker.Prelude.{
  ℕ, ◌+◌, List, [], ◌∷◌, Option, none, some, length, get_elem?, leb, if◌then◌else◌,
}
use rtc_frameworker.Messages.{Bytes}
use rtc_frameworker.Frontend.Outcome.{
  Outcome, returned, failed, panicked, no_server, unresolved, ◌>>=◌,
}

pub record RoundRobinSelector (Addr : Type 0) : Type 0 where
  pub addrs : List Addr
  pub cur_index : ℕ

module _ {Addr : Type 0} where
  -- `new(RoundRobinSelector)`.
  abbrev pub new_selector : RoundRobinSelector Addr
  new_selector = record { addrs = []; cur_index = 0 }

  -- The loop over the servers: the addresses in order, or the first failure.
  unfoldable pub resolve_all : (Bytes → Option Addr) → List Bytes → Outcome (List Addr)
  resolve_all resolve [] = returned []
  resolve_all resolve (server ∷ servers) =
      let rest = resolve_all resolve servers in
      elim (resolve server) [
        | none ↦ failed unresolved
        | some addr ↦ rest >>= (λ addrs. returned (addr ∷ addrs))
      ]

  -- The end of `SetServer`, behind the loop.
  unfoldable pub replace_addrs :
      RoundRobinSelector Addr → Outcome (List Addr) → RoundRobinSelector Addr × Outcome (Unit {0})
  replace_addrs s (returned addrs) = (record s { addrs = addrs }, returned tt)
  replace_addrs s (failed e) = (s, failed e)
  replace_addrs s panicked = (s, panicked)

  -- `SetServer`: the selector behind it, and the error that it returns.
  unfoldable pub set_server :
      (Bytes → Option Addr)
      → List Bytes
      → RoundRobinSelector Addr
      → RoundRobinSelector Addr × Outcome (Unit {0})
  unfolding resolve_all replace_addrs
  set_server resolve [] s = (s, failed no_server)
  set_server resolve (server ∷ servers) s = replace_addrs s (resolve_all resolve (server ∷ servers))

  -- The section of `PickServer` under the write lock: the selector behind it, and the index.
  unfoldable pub next_index : RoundRobinSelector Addr → RoundRobinSelector Addr × ℕ
  next_index s = (
    record s { cur_index = if leb (length s.addrs) (s.cur_index + 1) then 0 else s.cur_index + 1 },
    s.cur_index,
  )

  -- The section under the read lock; an index out of range panics.
  unfoldable pub addr_at : RoundRobinSelector Addr → ℕ → Outcome Addr
  addr_at s index = elim s.addrs [
    | [] ↦ failed no_server
    | a ∷ more ↦ elim (get_elem? (a ∷ more) index) [ some addr ↦ returned addr | none ↦ panicked ]
  ]

  unfoldable pub pick_server : RoundRobinSelector Addr → RoundRobinSelector Addr × Outcome Addr
  unfolding next_index addr_at
  pick_server s = let (s', index) = next_index s in (s', addr_at s' index)
