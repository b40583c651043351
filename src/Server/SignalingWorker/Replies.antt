-- ===== src/Server/SignalingWorker/Replies.antt =====
-- signaling_worker.cpp, `_response_server_offer`: which connection a reply reaches.
use rtc_frameworker.Prelude.{
  ℕ, List, ◌∷◌, if◌then◌else◌, ◌≡◌, refl, ◌==◌, ==_iff, true, Option, some, Bool-cases, inl, inr,
  set, Option-cases, ap, ◌⊎◌, ◌∙◌, sym, [],
}
use rtc_frameworker.Prelude.Int.{ℤ, pos, negsuc, ◌==ℤ◌}
use rtc_frameworker.Messages.{Bytes, RtcMsg, cmdno_push}
use rtc_frameworker.Platform.{Json}
use rtc_frameworker.Base.EventLoop.{Libev}
use rtc_frameworker.Server.Connection.{TcpConnection}
use rtc_frameworker.Server.Reply.{respond}
use rtc_frameworker.Server.SignalingWorker.{
  SignalingWorker, conn_at, response_server_offer, process_rtc_msg, pop_msg,
}

ℤ-cases : (z : ℤ) → ((n : ℕ) × (z ≡ pos n)) ⊎ ((n : ℕ) × (z ≡ negsuc n))
ℤ-cases (pos n) = inl (n, refl)
ℤ-cases (negsuc n) = inr (n, refl)

module _ {ev : Libev} (json : Json) where
  pub offer_found :
      (w : SignalingWorker ev) (msg : RtcMsg) (block : Option Bytes) (fd addr : ℕ)
      (conn : TcpConnection ev)
      → msg.conn ≡ some addr
      → msg.fd ≡ pos fd
      → conn_at w.conns fd ≡ some conn
      → conn.addr ≡ addr
      → response_server_offer json w msg block
        ≡ record w { conns = set w.conns fd (some (respond json conn msg block)) }
  unfolding response_server_offer
  offer_found w msg block fd addr conn a f c e =
      let same : (conn.addr == addr) ≡ true = (==_iff conn.addr addr).1 e in rw (a, f, c, same) refl

  -- What `response_server_offer` may do: nothing, or a reply on the connection that it found.
  pub response_server_offer_cases :
      (w : SignalingWorker ev) (msg : RtcMsg) (block : Option Bytes)
      → (response_server_offer json w msg block ≡ w)
        ⊎ ((fd : ℕ) × (conn : TcpConnection ev) × (msg.fd ≡ pos fd)
            × (msg.conn ≡ some conn.addr)
            × (conn_at w.conns fd ≡ some conn)
            × (response_server_offer json w msg block
                ≡ record w { conns = set w.conns fd (some (respond json conn msg block)) }))
  unfolding response_server_offer
  response_server_offer_cases w msg block = elim (Option-cases msg.conn) [
    | inl gone ↦ inl (rw gone refl)
    | inr (addr, from) ↦ elim (ℤ-cases msg.fd) [
      | inr (n, e) ↦ inl (rw (from, e) refl)
      | inl (fd, e) ↦ elim (Option-cases (conn_at w.conns fd)) [
        | inl free ↦ inl (rw (from, e, free) refl)
        | inr (c, taken) ↦ elim (Bool-cases (c.addr == addr)) [
          | inr other ↦ inl (rw (from, e, taken, other) refl)
          | inl same ↦
              let here : c.addr ≡ addr = (==_iff c.addr addr).0 same in
              inr (
                fd,
                c,
                e,
                from ∙ ap some (sym here),
                taken,
                offer_found w msg block fd addr c from e taken here,
              )
        ]
      ]
    ]
  ]

  -- With no message nothing changes.
  pub process_rtc_msg-nil :
      (w : SignalingWorker ev) (block : Option Bytes)
      → w.q_msg ≡ []
      → process_rtc_msg json w block ≡ w
  unfolding process_rtc_msg pop_msg
  process_rtc_msg-nil w block e =
      ap (λ q. process_rtc_msg json (record w { q_msg = q }) block) e
      ∙ ap (λ q. record w { q_msg = q }) (sym e)

  -- The oldest message is taken, and answered if it is for a push request.
  pub process_rtc_msg-cons :
      (w : SignalingWorker ev) (msg : RtcMsg) (msgs : List RtcMsg) (block : Option Bytes)
      → w.q_msg ≡ msg ∷ msgs
      → process_rtc_msg json w block ≡ (
          if msg.cmdno ==ℤ pos cmdno_push
          then response_server_offer json (record w { q_msg = msgs }) msg block
          else record w { q_msg = msgs })
  unfolding process_rtc_msg pop_msg
  process_rtc_msg-cons w msg msgs block e =
      ap (λ q. process_rtc_msg json (record w { q_msg = q }) block) e
