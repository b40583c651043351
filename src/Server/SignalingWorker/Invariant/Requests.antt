-- ===== src/Server/SignalingWorker/Invariant/Requests.antt =====
-- signaling_worker.cpp, `read_query`: what it keeps true of every connection of the table.
use rtc_frameworker.Prelude.{
  ℕ, ◌≡◌, refl, sym, ◌∙◌, Option, none, some, Bool-cases, inl, inr, set, Option-cases, subst,
}
use rtc_frameworker.Prelude.Int.{ℤ, pos, negsuc}
use rtc_frameworker.Messages.{Bytes}
use rtc_frameworker.Platform.{Json}
use rtc_frameworker.Base.EventLoop.{Libev}
use rtc_frameworker.Base.Socket.{Answer}
use rtc_frameworker.Server.Connection.{TcpConnection}
use rtc_frameworker.Server.Inbox.{Inbox}
use rtc_frameworker.Server.Receive.{read_data}
use rtc_frameworker.Server.Receive.Identity.{Same, read_data-Same}
use rtc_frameworker.Server.SignalingWorker.{SignalingWorker, conn_at, close_conn, read_query}
use rtc_frameworker.Server.SignalingWorker.Table.{conn_at-lt}
use rtc_frameworker.Server.SignalingWorker.Invariant.{
  Everywhere, set-Everywhere, close_conn-Everywhere,
}

module _ {ev : Libev} (P : ℕ → TcpConnection ev → Type 0) (json : Json) where
  same_query :
      (a b : SignalingWorker ev) (x y : Inbox)
      → ◌≡◌ {A = Option (SignalingWorker ev × Inbox)} (some (a, x)) (some (b, y))
      → a ≡ b
  same_query a b x y h = cc

  no_query :
      (b : SignalingWorker ev) (y : Inbox)
      → ¬ (◌≡◌ {A = Option (SignalingWorker ev × Inbox)} none (some (b, y)))
  no_query b y h = cc

  pub read_query-Everywhere :
      (w w' : SignalingWorker ev) (fd : ℤ) (answer : Answer Bytes) (now : ℕ) (rtc rtc' : Inbox)
      → read_query json w fd answer now rtc ≡ some (w', rtc')
      → ((j : ℕ) (c c' : TcpConnection ev) → Same c' c → P j c → P j c')
      → Everywhere P w.conns
      → Everywhere P w'.conns
  unfolding read_query
  read_query-Everywhere w w' (negsuc n) answer now rtc rtc' h received inv =
      subst (λ (v : SignalingWorker ev). Everywhere P v.conns) (same_query w w' rtc rtc' h) inv
  read_query-Everywhere w w' (pos fd) answer now rtc rtc' h received inv =
      elim (Option-cases (conn_at w.conns fd)) [
        | inl free ↦
            let e : read_query json w (pos fd) answer now rtc ≡ some (w, rtc) =
              rw (free, read_query) refl in
            subst (λ (v : SignalingWorker ev). Everywhere P v.conns)
              (same_query w w' rtc rtc' (sym e ∙ h)) inv
        | inr (c, taken) ↦ elim (Option-cases (read_data json w.worker_id c answer now rtc)) [
          | inl runs_on ↦
              let e : read_query json w (pos fd) answer now rtc ≡ none =
                rw (taken, runs_on, read_query) refl in
              absurd (no_query w' rtc' (sym e ∙ h))
          | inr ((c', r, closing), read) ↦
              let same = read_data-Same json w.worker_id c c' answer now rtc r closing read in
              let at_fd = received fd c c' same (inv fd c taken) in
              elim (Bool-cases closing) [
                | inl shut ↦
                    let e : read_query json w (pos fd) answer now rtc
                        ≡ some ((close_conn w c').0, r) =
                      rw (taken, read, shut, read_query) refl in
                    subst (λ (v : SignalingWorker ev). Everywhere P v.conns)
                      (same_query _ w' r rtc' (sym e ∙ h)) (close_conn-Everywhere P w c' inv)
                | inr open_still ↦
                    let e : read_query json w (pos fd) answer now rtc
                        ≡ some (record w { conns = set w.conns fd (some c') }, r) =
                      rw (taken, read, open_still, read_query) refl in
                    subst (λ (v : SignalingWorker ev). Everywhere P v.conns)
                      (same_query _ w' r rtc' (sym e ∙ h))
                      (set-Everywhere P w.conns fd c' (conn_at-lt w.conns fd c taken) at_fd inv)
              ]
        ]
      ]
