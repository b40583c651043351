-- ===== src/Server/SignalingWorker/Owed.antt =====
-- signaling_worker.cpp, `_response_server_offer`: the bytes that a reply brings to its connection.
use rtc_frameworker.Prelude.{
  ℕ, ◌≡◌, ◌≢◌, refl, sym, ap, ◌∙◌, List, [], ◌∷◌, ◌++◌, Option, none, some, arith, length, ap₂,
  subst, true, false, Bool, Bool-cases, List-cases, inl, inr, ◌==◌, ==_iff, ◌&&◌, if◌then◌else◌,
  append-nil, length-append,
}
use rtc_frameworker.Prelude.Int.{pos, ◌==ℤ◌, ==ℤ_iff}
use rtc_frameworker.Messages.{Bytes, RtcMsg, cmdno_push}
use rtc_frameworker.Platform.{Json}
use rtc_frameworker.Base.EventLoop.{Libev}
use rtc_frameworker.Server.Connection.{TcpConnection}
use rtc_frameworker.Server.Reply.{build_reply, reply_text, respond, add_reply}
use rtc_frameworker.Server.Reply.Pending.{bytes_of, pending, pending-snoc}
use rtc_frameworker.Server.SignalingWorker.{
  SignalingWorker, conn_at, response_server_offer, process_rtc_msg,
}
use rtc_frameworker.Server.SignalingWorker.Table.{conn_at-lt, conn_at-set_self}
use rtc_frameworker.Server.SignalingWorker.Invariant.{Everywhere}
use rtc_frameworker.Server.SignalingWorker.Replies.{
  process_rtc_msg-nil, process_rtc_msg-cons, response_server_offer_cases, offer_found,
}
use rtc_frameworker.Server.SignalingWorker.Serving.{Serving}
use rtc_frameworker.Server.SignalingWorker.Accounts.{Ledger, Delivers, owed-Delivers}

&&-true : (a b : Bool) → (a && b) ≡ true → (a ≡ true) × (b ≡ true)
&&-true true true h = (refl, refl)
&&-true true false h = cc
&&-true false b h = cc

module _ {ev : Libev} (json : Json) where
  -- The bytes of the reply that a message brings to the connection at an index.
  pub reply_from : Option ℕ → Option Bytes → Option (TcpConnection ev) → RtcMsg → ℕ → Bytes
  reply_from none block c msg j = []
  reply_from (some addr) none c msg j = []
  reply_from (some addr) (some block) none msg j = []
  reply_from (some addr) (some block) (some c) msg j =
      if msg.fd ==ℤ pos j && c.addr == addr
      then bytes_of (build_reply c.querybuf (reply_text json msg) block)
      else []

  -- The same of the message at the front of the queue.
  pub front_reply : List RtcMsg → Option Bytes → List (Option (TcpConnection ev)) → ℕ → Bytes
  front_reply [] block conns j = []
  front_reply (msg ∷ msgs) block conns j =
      if msg.cmdno ==ℤ pos cmdno_push then reply_from msg.conn block (conn_at conns j) msg j else []

  respond-ne :
      (c : TcpConnection ev) (msg : RtcMsg) (block : Bytes) → respond json c msg (some block) ≢ c
  unfolding respond add_reply
  respond-ne c msg block e =
      let longer : length (c.reply_list ++ build_reply c.querybuf (reply_text json msg) block ∷ [])
          ≡ length c.reply_list =
        ap (λ (d : TcpConnection ev). length d.reply_list) e in
      absurd (
        omega (
          arith,
          longer,
          length-append c.reply_list (build_reply c.querybuf (reply_text json msg) block ∷ []),
        ))

  -- A reply that changes nothing brings nothing.
  unanswered :
      (w : SignalingWorker ev) (msg : RtcMsg) (o : Option ℕ) (block : Option Bytes) (j : ℕ)
      (c : TcpConnection ev)
      → msg.conn ≡ o
      → conn_at w.conns j ≡ some c
      → response_server_offer json w msg block ≡ w
      → reply_from o block (some c) msg j ≡ []
  unfolding reply_from
  unanswered w msg none block j c from there e = refl
  unanswered w msg (some addr) none j c from there e = refl
  unanswered w msg (some addr) (some b) j c from there e =
      elim (Bool-cases (msg.fd ==ℤ pos j && c.addr == addr)) [
        | inr other ↦ rw other refl
        | inl its ↦
            let (to_fd, by_addr) = &&-true _ _ its in
            let answered =
              offer_found json w msg (some b) j addr c from ((==ℤ_iff msg.fd (pos j)).0 to_fd) there
                ((==_iff c.addr addr).0 by_addr) in
            let at : some (respond json c msg (some b)) ≡ some c =
              sym (
                conn_at-set_self w.conns j (some (respond json c msg (some b)))
                  (conn_at-lt w.conns j c there))
              ∙ ap (λ (v : SignalingWorker ev). conn_at v.conns j) (sym answered ∙ e)
              ∙ there in
            let kept : respond json c msg (some b) ≡ c = cc at in absurd (respond-ne c msg b kept)
      ]

  elsewhere :
      (msg : RtcMsg) (o : Option ℕ) (block : Option Bytes) (d : TcpConnection ev) (fd j : ℕ)
      → msg.fd ≡ pos fd
      → fd ≢ j
      → reply_from o block (some d) msg j ≡ []
  unfolding reply_from
  elsewhere msg none block d fd j to_fd ne = refl
  elsewhere msg (some addr) none d fd j to_fd ne = refl
  elsewhere msg (some addr) (some b) d fd j to_fd ne = elim (Bool-cases (fd == j)) [
    | inl same ↦ absurd (ne ((==_iff fd j).0 same))
    | inr other ↦ rw (to_fd, other) refl
  ]

  here :
      (msg : RtcMsg) (b : Bytes) (c : TcpConnection ev) (fd : ℕ)
      → msg.fd ≡ pos fd
      → reply_from (some c.addr) (some b) (some c) msg fd
        ≡ bytes_of (build_reply c.querybuf (reply_text json msg) b)
  unfolding reply_from
  here msg b c fd to_fd =
      let same : (fd == fd) ≡ true = (==_iff fd fd).1 refl in
      let same_addr : (c.addr == c.addr) ≡ true = (==_iff c.addr c.addr).1 refl in
      rw (to_fd, same, same_addr) refl

  -- The connection that a reply reaches is owed the bytes of its slice.
  answered-pending :
      (msg : RtcMsg) (block : Option Bytes) (c : TcpConnection ev) (fd : ℕ)
      → Serving fd c
      → msg.fd ≡ pos fd
      → let c' = respond json c msg block in
        pending c'.reply_list c'.cur_resp_pos
        ≡ pending c.reply_list c.cur_resp_pos ++ reply_from (some c.addr) block (some c) msg fd
  unfolding respond add_reply reply_from
  answered-pending msg none c fd serving to_fd = sym (append-nil _)
  answered-pending msg (some b) c fd serving to_fd =
      pending-snoc c.reply_list (build_reply c.querybuf (reply_text json msg) b) c.cur_resp_pos
        serving.inside
      ∙ ap (◌++◌ (pending c.reply_list c.cur_resp_pos)) (sym (here msg b c fd to_fd))

  offer-Delivers :
      (p q : Ledger) (w : SignalingWorker ev) (msg : RtcMsg) (block : Option Bytes)
      → Everywhere Serving w.conns
      → Everywhere (Delivers p q) w.conns
      → Everywhere
          (Delivers (λ j. p j ++ reply_from msg.conn block (conn_at w.conns j) msg j) q)
          (response_server_offer json w msg block).conns
  offer-Delivers p q w msg block serving inv =
      let p' : Ledger = λ j. p j ++ reply_from msg.conn block (conn_at w.conns j) msg j in
      let nothing =
        λ (j : ℕ) (c : TcpConnection ev) (at : conn_at w.conns j ≡ some c)
            (e : reply_from msg.conn block (some c) msg j ≡ []).
          ap (λ o. p j ++ reply_from msg.conn block o msg j) at
          ∙ ap (◌++◌ (p j)) e
          ∙ append-nil (p j) in
      elim (response_server_offer_cases json w msg block) [
        | inl same ↦
            subst (λ (v : SignalingWorker ev). Everywhere (Delivers p' q) v.conns) (sym same)
              (λ j c at.
                nothing j c at (unanswered w msg msg.conn block j c refl at same) ∙ inv j c at)
        | inr (fd, c, to_fd, from, there, e) ↦
            subst (λ (v : SignalingWorker ev). Everywhere (Delivers p' q) v.conns) (sym e)
              (owed-Delivers p p' q w.conns fd c (respond json c msg block)
                (reply_from (some c.addr) block (some c) msg fd) there
                (ap₂ (λ o x. p fd ++ reply_from o block x msg fd) from there)
                (answered-pending msg block c fd (serving fd c there) to_fd)
                (λ j d ne at. nothing j d at (elsewhere msg msg.conn block d fd j to_fd ne)) inv)
      ]

  -- A callback for a reply: what its front message brings is owed.
  pub process_rtc_msg-Delivers :
      (p q : Ledger) (w : SignalingWorker ev) (block : Option Bytes)
      → Everywhere Serving w.conns
      → Everywhere (Delivers p q) w.conns
      → Everywhere
          (Delivers (λ j. p j ++ front_reply w.q_msg block w.conns j) q)
          (process_rtc_msg json w block).conns
  unfolding front_reply
  process_rtc_msg-Delivers p q w block serving inv =
      let unchanged =
        λ (j : ℕ) (c : TcpConnection ev) (at : conn_at w.conns j ≡ some c) (bytes : Bytes)
            (e : bytes ≡ []).
          ap (◌++◌ (p j)) e ∙ append-nil (p j) ∙ inv j c at in
      elim (List-cases w.q_msg) [
        | inl e ↦
            subst
              (λ (v : SignalingWorker ev).
                Everywhere (Delivers (λ j. p j ++ front_reply w.q_msg block w.conns j) q) v.conns)
              (sym (process_rtc_msg-nil json w block e))
              (λ j c at.
                unchanged j c at (front_reply w.q_msg block w.conns j)
                  (ap (λ ms. front_reply ms block w.conns j) e))
        | inr (msg, msgs, e) ↦
            let r = process_rtc_msg-cons json w msg msgs block e in
            subst
              (λ ms.
                Everywhere (Delivers (λ j. p j ++ front_reply ms block w.conns j) q)
                  (process_rtc_msg json w block).conns)
              (sym e)
              (subst
                (λ (v : SignalingWorker ev).
                  Everywhere (Delivers (λ j. p j ++ front_reply (msg ∷ msgs) block w.conns j) q)
                    v.conns)
                (sym r)
                (elim (Bool-cases (msg.cmdno ==ℤ pos cmdno_push)) [
                  | inl push ↦
                      rw push (offer-Delivers p q (record w { q_msg = msgs }) msg block serving inv)
                  | inr other ↦ rw other (λ j c at. unchanged j c at [] refl)
                ]))
      ]
