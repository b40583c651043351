-- ===== src/Frontend/Client/Servers.antt =====
-- client.go and selector.go: which servers the calls of one client go to.

use rtc_frameworker.Prelude.{
  Option-cases, inl, inr, ℕ, zero, suc, ◌+◌, ◌%◌, ◌<◌, ◌≡◌, refl, sym, ap, ◌∙◌, List, [], ◌∷◌,
  Option, none, some, length, get_elem?, arith,
}
use rtc_frameworker.Prelude.Int.{ℤ}
use rtc_frameworker.Messages.{Bytes}
use rtc_frameworker.Frontend.Outcome.{
  >>=-eq-returned, Outcome, returned, failed, panicked, Error, no_server,
}
use rtc_frameworker.Frontend.Selector.{
  RoundRobinSelector, new_selector, resolve_all, replace_addrs, set_server, next_index, addr_at,
  pick_server,
}
use rtc_frameworker.Frontend.Selector.Turns.{entered, pick-turn}
use rtc_frameworker.Frontend.Packets.{Request}
use rtc_frameworker.Frontend.Client.{Client, Link, new_client, picked, dialled, do_request}

module _ {Addr : Type 0} (resolve : Bytes → Option Addr) where
  replace-failed :
      (s : RoundRobinSelector Addr) (o : Outcome (List Addr)) (e : Error)
      → (replace_addrs s o).1 ≡ failed e
      → (replace_addrs s o).0 ≡ s
  unfolding replace_addrs
  replace-failed s (returned addrs) e h = cc
  replace-failed s (failed x) e h = refl
  replace-failed s panicked e h = refl

  set_server-failed :
      (servers : List Bytes) (s : RoundRobinSelector Addr) (e : Error)
      → (set_server resolve servers s).1 ≡ failed e
      → (set_server resolve servers s).0 ≡ s
  unfolding set_server
  set_server-failed [] s e h = refl
  set_server-failed (server ∷ servers) s e h = replace-failed s _ e h

  resolve_all-cons :
      (server : Bytes) (servers : List Bytes) (addrs : List Addr)
      → resolve_all resolve (server ∷ servers) ≡ returned addrs
      → (addr : Addr) × (more : List Addr) × (resolve server ≡ some addr)
        × (resolve_all resolve servers ≡ returned more)
        × (addrs ≡ addr ∷ more)
  unfolding resolve_all
  resolve_all-cons server servers addrs h = elim (Option-cases (resolve server)) [
    | inl unknown ↦ cc (rw (unknown, resolve_all) at h)
    | inr (addr, known) ↦
        let (more, e, f) =
          >>=-eq-returned (resolve_all resolve servers) _ (rw (known, resolve_all) at h) in
        let same : addr ∷ more ≡ addrs = cc f in (addr, more, known, e, sym same)
  ]

  length-resolve_all :
      (servers : List Bytes) (addrs : List Addr)
      → resolve_all resolve servers ≡ returned addrs
      → length addrs ≡ length servers
  unfolding resolve_all
  length-resolve_all [] addrs h = let none_there : [] ≡ addrs = cc h in ap length (sym none_there)
  length-resolve_all (server ∷ servers) addrs h =
      let (_, more, _, e, f) = resolve_all-cons server servers addrs h in
      ap length f ∙ ap suc (length-resolve_all servers more e)

  -- The addresses are those of the servers, in order.
  resolve_all-at :
      (servers : List Bytes) (addrs : List Addr) (i : ℕ) (addr : Addr)
      → resolve_all resolve servers ≡ returned addrs
      → get_elem? addrs i ≡ some addr
      → (server : Bytes) × (get_elem? servers i ≡ some server) × (resolve server ≡ some addr)
  unfolding resolve_all
  resolve_all-at [] addrs i addr h at =
      let none_there : [] ≡ addrs = cc h in cc (rw (← none_there) at at)
  resolve_all-at (server ∷ servers) addrs zero addr h at =
      let (first, more, known, _, f) = resolve_all-cons server servers addrs h in
      let same : some first ≡ some addr = rw f at at in (server, refl, known ∙ same)
  resolve_all-at (server ∷ servers) addrs (suc i) addr h at =
      let (_, more, _, e, f) = resolve_all-cons server servers addrs h in
      resolve_all-at servers more i addr e (rw f at at)

  set_server-done :
      (servers : List Bytes) (addrs : List Addr) (s : RoundRobinSelector Addr)
      → 0 < length servers
      → resolve_all resolve servers ≡ returned addrs
      → (set_server resolve servers s).0 ≡ record s { addrs = addrs }
  unfolding set_server replace_addrs
  set_server-done [] addrs s h e = absurd (omega arith)
  set_server-done (server ∷ servers) addrs s h e = ap (λ o. (replace_addrs s o).0) e

module _ {Addr : Type 0} (dial : Addr → ℤ → Option Link) where
  -- The client behind calls in turn.
  pub after_calls : Client Addr → List Request → Client Addr
  after_calls c [] = c
  after_calls c (req ∷ reqs) = after_calls (do_request dial c req).0 reqs

  after_calls-entered :
      (reqs : List Request) (c : Client Addr) (k : ℕ) (s : RoundRobinSelector Addr)
      → c.selector ≡ entered k s
      → (after_calls c reqs).selector ≡ entered (length reqs + k) s
  unfolding after_calls do_request pick_server entered
  after_calls-entered [] c k s e =
      let same : k ≡ 0 + k = omega arith in e ∙ ap (λ j. entered j s) same
  after_calls-entered (req ∷ reqs) c k s e =
      let same : length reqs + suc k ≡ suc (length reqs) + k = omega arith in
      after_calls-entered reqs (do_request dial c req).0 (suc k) s (ap (λ t. (next_index t).0) e)
      ∙ ap (λ j. entered j s) same

  unserved :
      (c : Client Addr) (req : Request)
      → c.selector.addrs ≡ []
      → ((do_request dial c req).0.selector.addrs ≡ [])
        × ((do_request dial c req).1 ≡ failed no_server)
        × ((do_request dial c req).2 ≡ none)
  unfolding do_request pick_server addr_at next_index picked
  unserved c req e = (e, rw (e, addr_at, picked) refl, rw (e, addr_at, picked) refl)

  after_calls-unserved :
      (reqs : List Request) (c : Client Addr)
      → c.selector.addrs ≡ []
      → (after_calls c reqs).selector.addrs ≡ []
  unfolding after_calls
  after_calls-unserved [] c e = e
  after_calls-unserved (req ∷ reqs) c e = after_calls-unserved reqs _ (unserved c req e).0

  -- A client whose servers `SetServer` refused, which are none or one that does not resolve, has no
  -- server at all: each of its calls fails for want of a server and makes no connection.
  pub do_request-unserved :
      (resolve : Bytes → Option Addr) (servers : List Bytes) (e : Error) (reqs : List Request)
      (req : Request)
      → (set_server resolve servers new_selector).1 ≡ failed e
      → let result = do_request dial (after_calls (new_client resolve servers) reqs) req in
        (result.1 ≡ failed no_server) × (result.2 ≡ none)
  unfolding new_client
  do_request-unserved resolve servers e reqs req h =
      let none_there : (new_client resolve servers).selector.addrs ≡ [] =
        ap (λ (t : RoundRobinSelector Addr). t.addrs)
          (set_server-failed resolve servers new_selector e h) in
      let (_, error, nothing) =
        unserved (after_calls (new_client resolve servers) reqs) req
          (after_calls-unserved reqs (new_client resolve servers) none_there) in
      (error, nothing)

  -- A client whose servers, at least one, all resolve: each call goes to the server at the number of
  -- the calls before it modulo the number of the servers, whatever became of those.
  pub do_request-turn :
      (resolve : Bytes → Option Addr) (servers : List Bytes) (addrs : List Addr)
      (reqs : List Request) (req : Request)
      → 0 < length servers
      → resolve_all resolve servers ≡ returned addrs
      → let c = after_calls (new_client resolve servers) reqs in
        (server : Bytes) × (addr : Addr) × (get_elem? servers (length reqs % length servers)
          ≡ some server)
        × (resolve server ≡ some addr)
        × ((do_request dial c req).1 ≡ (dialled c addr req (dial addr c.connect_timeout)).0)
        × ((do_request dial c req).2 ≡ (dialled c addr req (dial addr c.connect_timeout)).1)
  unfolding new_client do_request picked entered
  do_request-turn resolve servers addrs reqs req h e =
      let s : RoundRobinSelector Addr = record { addrs = addrs; cur_index = 0 } in
      let c = after_calls (new_client resolve servers) reqs in
      let started : (new_client resolve servers).selector ≡ s =
        set_server-done resolve servers addrs new_selector h e in
      let plain : length reqs + 0 ≡ length reqs = omega arith in
      let turned : c.selector ≡ entered (length reqs) s =
        after_calls-entered reqs (new_client resolve servers) 0 s started
        ∙ ap (λ j. entered j s) plain in
      let len = length-resolve_all resolve servers addrs e in
      let (addr, at, _, picks) = pick-turn s (length reqs) 0 (omega (arith, len)) refl in
      let (server, there, known) = resolve_all-at resolve servers addrs _ addr e at in
      let pick : (pick_server c.selector).1 ≡ returned addr =
        ap (λ t. (pick_server t).1) turned ∙ picks in
      (
        server,
        addr,
        ap (λ n. get_elem? servers (length reqs % n)) (sym len) ∙ there,
        known,
        ap (λ o. (picked dial c req o).0) pick,
        ap (λ o. (picked dial c req o).1) pick,
      )
