-- ===== src/Server/SignalingWorker/Accounts.antt =====
-- signaling_worker.cpp: an account of the bytes that each connection was owed and was sent.
use rtc_frameworker.Prelude.{
  ℕ, zero, suc, ◌<◌, ◌≡◌, ◌≢◌, refl, sym, ap, ◌∙◌, List, [], ◌++◌, Option, none, some, subst, true,
  Bool-cases, Option-cases, inl, inr, ◌==◌, ==_iff, if◌then◌else◌, append-nil, append_assoc, set,
}
use rtc_frameworker.Prelude.Int.{ℤ, pos, negsuc, ◌==ℤ◌}
use rtc_frameworker.Messages.{Bytes}
use rtc_frameworker.Base.EventLoop.{Libev}
use rtc_frameworker.Base.Socket.{Answer, Address}
use rtc_frameworker.Server.Connection.{TcpConnection, create}
use rtc_frameworker.Server.Receive.Identity.{Same}
use rtc_frameworker.Server.Reply.{write_reply}
use rtc_frameworker.Server.Reply.Pending.{pending}
use rtc_frameworker.Server.Reply.Stream.{write_reply-pending}
use rtc_frameworker.Server.SignalingWorker.{
  SignalingWorker, conn_at, open_conn, new_conn, write_reply_to,
}
use rtc_frameworker.Server.SignalingWorker.Table.{conn_at-lt, grown, lt-length-grown, conn_at-grown}
use rtc_frameworker.Server.SignalingWorker.Invariant.{Everywhere, set-but}
use rtc_frameworker.Server.SignalingWorker.Serving.{Serving}

-- Bytes for each descriptor.
abbrev pub Ledger : Type 0
Ledger = ℕ → Bytes

-- A descriptor is opened anew.
abbrev pub opened : ℕ → Ledger → Ledger
opened fd q j = if fd == j then [] else q j

-- More bytes for a descriptor.
abbrev pub add : ℤ → Bytes → Ledger → Ledger
add fd bytes q j = if fd ==ℤ pos j then q j ++ bytes else q j

-- Opening resets the accounts of its descriptor alone.
opened_self : (fd : ℕ) (q : Ledger) → opened fd q fd ≡ []
opened_self fd q = let same : (fd == fd) ≡ true = (==_iff fd fd).1 refl in rw same refl

opened_ne : (fd j : ℕ) (q : Ledger) → fd ≢ j → opened fd q j ≡ q j
opened_ne fd j q ne = elim (Bool-cases (fd == j)) [
  | inl same ↦ absurd (ne ((==_iff fd j).0 same))
  | inr other ↦ rw other refl
]

add_self : (fd : ℕ) (bytes : Bytes) (q : Ledger) → add (pos fd) bytes q fd ≡ q fd ++ bytes
add_self fd bytes q = let same : (fd == fd) ≡ true = (==_iff fd fd).1 refl in rw same refl

add_ne : (fd j : ℕ) (bytes : Bytes) (q : Ledger) → fd ≢ j → add (pos fd) bytes q j ≡ q j
add_ne fd j bytes q ne = elim (Bool-cases (fd == j)) [
  | inl same ↦ absurd (ne ((==_iff fd j).0 same))
  | inr other ↦ rw other refl
]

module _ {ev : Libev} where
  -- What each connection was owed is what it was sent and what it has still to send.
  abbrev pub Delivers : Ledger → Ledger → ℕ → TcpConnection ev → Type 0
  Delivers p q j c = p j ≡ q j ++ pending c.reply_list c.cur_resp_pos

  pub received-Delivers :
      (p q : Ledger) (j : ℕ) (c c' : TcpConnection ev)
      → Same c' c
      → Delivers p q j c
      → Delivers p q j c'
  received-Delivers p q j c c' same h = rw (same.reply_list, same.cur_resp_pos) h

  pub add-nothing :
      (p q : Ledger) (fd : ℤ) (j : ℕ) (c : TcpConnection ev)
      → Delivers p q j c
      → Delivers p (add fd [] q) j c
  add-nothing p q fd j c h = elim (Bool-cases (fd ==ℤ pos j)) [
    | inl here ↦ rw (here, append-nil (q j)) h
    | inr other ↦ rw other h
  ]

  pub new_conn-Delivers :
      (p q : Ledger) (w : SignalingWorker ev) (fd addr now : ℕ) (peer : Answer Address)
      → 0 < fd
      → Everywhere (Delivers p q) w.conns
      → Everywhere (Delivers (opened fd p) (opened fd q)) (new_conn w (pos fd) addr now peer).conns
  unfolding new_conn open_conn create
  new_conn-Delivers p q w fd addr now peer h inv =
      set-but (Delivers (opened fd p) (opened fd q)) (grown w.conns fd) fd
        (open_conn addr fd now peer) (lt-length-grown w.conns fd h)
        (rw (opened_self fd p, opened_self fd q) refl)
        (λ j c ne e.
          rw (opened_ne fd j p ne, opened_ne fd j q ne)
            (inv j c (sym (conn_at-grown w.conns fd j) ∙ e)))

  -- Bytes that were sent to one connection.
  sent-Delivers :
      (p q : Ledger) (conns : List (Option (TcpConnection ev))) (fd : ℕ) (c c' : TcpConnection ev)
      (bytes : Bytes)
      → conn_at conns fd ≡ some c
      → bytes ++ pending c'.reply_list c'.cur_resp_pos ≡ pending c.reply_list c.cur_resp_pos
      → Everywhere (Delivers p q) conns
      → Everywhere (Delivers p (add (pos fd) bytes q)) (set conns fd (some c'))
  sent-Delivers p q conns fd c c' bytes there e inv =
      set-but (Delivers p (add (pos fd) bytes q)) conns fd c' (conn_at-lt conns fd c there)
        (inv fd c there
          ∙ ap (◌++◌ (q fd)) (sym e)
          ∙ sym (append_assoc (q fd) bytes _)
          ∙ ap (λ t. t ++ pending c'.reply_list c'.cur_resp_pos) (sym (add_self fd bytes q)))
        (λ j d ne at. rw (add_ne fd j bytes q ne) (inv j d at))

  -- Bytes that one connection is owed.
  pub owed-Delivers :
      (p p' q : Ledger) (conns : List (Option (TcpConnection ev))) (fd : ℕ)
      (c c' : TcpConnection ev) (bytes : Bytes)
      → conn_at conns fd ≡ some c
      → p' fd ≡ p fd ++ bytes
      → pending c'.reply_list c'.cur_resp_pos ≡ pending c.reply_list c.cur_resp_pos ++ bytes
      → ((j : ℕ) (d : TcpConnection ev) → fd ≢ j → conn_at conns j ≡ some d → p' j ≡ p j)
      → Everywhere (Delivers p q) conns
      → Everywhere (Delivers p' q) (set conns fd (some c'))
  owed-Delivers p p' q conns fd c c' bytes there e f others inv =
      set-but (Delivers p' q) conns fd c' (conn_at-lt conns fd c there)
        (e
          ∙ ap (λ t. t ++ bytes) (inv fd c there)
          ∙ append_assoc (q fd) _ bytes
          ∙ ap (◌++◌ (q fd)) (sym f))
        (λ j d ne at. others j d ne at ∙ inv j d at)

  write_event :
      (w : SignalingWorker ev) (n : ℕ) (c : TcpConnection ev) (answers : List (Answer ℕ)) (now : ℕ)
      → conn_at w.conns (suc n) ≡ some c
      → write_reply_to w (pos (suc n)) answers now ≡ (
        record w { conns = set w.conns (suc n) (some (write_reply c answers now).1) },
        (write_reply c answers now).2,
      )
  unfolding write_reply_to
  write_event w n c answers now there = rw (there, write_reply_to) refl

  write_nothing :
      (w : SignalingWorker ev) (n : ℕ) (answers : List (Answer ℕ)) (now : ℕ)
      → conn_at w.conns (suc n) ≡ none
      → write_reply_to w (pos (suc n)) answers now ≡ (w, [])
  unfolding write_reply_to
  write_nothing w n answers now there = rw (there, write_reply_to) refl

  abbrev pub Wrote : Ledger → Ledger → ℤ → SignalingWorker ev × Bytes → Type 0
  Wrote p q fd (w, bytes) = Everywhere (Delivers p (add fd bytes q)) w.conns

  pub write_reply_to-Delivers :
      (p q : Ledger) (w : SignalingWorker ev) (fd : ℤ) (answers : List (Answer ℕ)) (now : ℕ)
      → Everywhere Serving w.conns
      → Everywhere (Delivers p q) w.conns
      → Wrote p q fd (write_reply_to w fd answers now)
  unfolding write_reply_to
  write_reply_to-Delivers p q w (negsuc n) answers now serving inv =
      λ j c e. add-nothing p q (negsuc n) j c (inv j c e)
  write_reply_to-Delivers p q w (pos zero) answers now serving inv =
      λ j c e. add-nothing p q (pos zero) j c (inv j c e)
  write_reply_to-Delivers p q w (pos (suc n)) answers now serving inv =
      elim (Option-cases (conn_at w.conns (suc n))) [
        | inl none_there ↦
            subst (Wrote p q (pos (suc n))) (sym (write_nothing w n answers now none_there))
              (λ j c e. add-nothing p q (pos (suc n)) j c (inv j c e))
        | inr (c, there) ↦
            let s = serving (suc n) c there in
            subst (Wrote p q (pos (suc n))) (sym (write_event w n c answers now there)) (
              sent-Delivers p q w.conns (suc n) c (write_reply c answers now).1
                (write_reply c answers now).2 there
                (write_reply-pending c answers now s.within s.inside) inv)
      ]
