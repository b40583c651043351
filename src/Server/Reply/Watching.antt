-- ===== src/Server/Reply/Watching.antt =====
-- signaling_worker.cpp: the events that a connection's watcher waits for.
use rtc_frameworker.Prelude.{
  ℕ, ◌≡◌, ◌≢◌, refl, sym, ap, ◌∙◌, true, List, [], ◌∷◌, ◌++◌, some, arith, inl, inr, ◌⊎◌,
  Bool-cases,
}
use rtc_frameworker.Prelude.Int.{pos}
use rtc_frameworker.Base.EventLoop.{Libev, IoWatcher, union, without, start_io_event, stop_io_event}
use rtc_frameworker.Base.EventLoop.Interest.{
  interest, interest-start_io_event, interest-stop_io_event,
}
use rtc_frameworker.Base.Socket.{Answer}
use rtc_frameworker.Server.Connection.{TcpConnection, Slice, Callback}
use rtc_frameworker.Server.Reply.{
  End, emptied, gave_up, goes_on, write_loop, write_reply, add_reply,
}
use rtc_frameworker.Server.Reply.Pending.{AllWithin, IsInside}
use rtc_frameworker.Server.Reply.Stream.{write_loop-Keeps}

-- READ always, and WRITE with it as long as there are replies to send.
abbrev pub wanted : List Slice → ℕ
wanted [] = 1
wanted (s ∷ ss) = 3

wanted_snoc : (ss : List Slice) (s : Slice) → wanted (ss ++ s ∷ []) ≡ 3
wanted_snoc [] s = refl
wanted_snoc (t ∷ ss) s = refl

union-wanted : (ss : List Slice) → union (wanted ss) 2 ≡ 3
unfolding union
union-wanted [] = refl
union-wanted (s ∷ ss) = refl

without-wanted : (ss : List Slice) → without (wanted ss) 2 ≡ 1
unfolding without
without-wanted [] = refl
without-wanted (s ∷ ss) = refl

wanted_some : (ss : List Slice) → ss ≢ [] → wanted ss ≡ 3
wanted_some [] h = absurd (h refl)
wanted_some (s ∷ ss) h = refl

End-cases : (e : End) → (e ≡ emptied) ⊎ ((e ≡ gave_up) ⊎ (e ≡ goes_on))
End-cases emptied = inl refl
End-cases gave_up = inr (inl refl)
End-cases goes_on = inr (inr refl)

nothing_left :
    (answers : List (Answer ℕ)) (ss : List Slice) (cur : ℕ)
    → ss ≡ []
    → (write_loop answers ss cur []).1 ≡ []
unfolding write_loop
nothing_left answers [] cur e = refl
nothing_left answers (s ∷ ss) cur e = cc e

-- A list that is left when the loop gives up held replies before.
left_wanted :
    (answers : List (Answer ℕ)) (ss : List Slice) (cur : ℕ)
    → (write_loop answers ss cur []).1 ≢ []
    → wanted (write_loop answers ss cur []).1 ≡ wanted ss
left_wanted answers ss cur h =
    wanted_some (write_loop answers ss cur []).1 h
    ∙ sym (wanted_some ss (λ e. h (nothing_left answers ss cur e)))

module _ {ev : Libev} where
  -- The connection's watcher waits for what it should.
  abbrev pub Watching : TcpConnection ev → Type 0
  Watching c =
      (w : IoWatcher ev Callback) × (c.io_watcher ≡ some w) × (interest ev w ≡ wanted c.reply_list)

  active_wanted :
      (w : IoWatcher ev Callback) (ss : List Slice)
      → interest ev w ≡ wanted ss
      → ev.io_active w.io ≡ true
  unfolding interest
  active_wanted w ss h = elim (Bool-cases (ev.io_active w.io)) [
    | inl on ↦ on
    | inr off ↦ absurd (idle ss (sym (rw (off, interest) refl) ∙ h))
  ]
    where
      idle : (ss : List Slice) → 0 ≢ wanted ss
      idle [] e = omega (arith, e)
      idle (s ∷ ss) e = omega (arith, e)

  -- If a connection's watcher waits for what it should (READ, and WRITE exactly while there are
  -- replies), it does so still when a reply was queued: it waits for WRITE then.
  pub add_reply-Watching :
      (c : TcpConnection ev) (s : Slice) → Watching c → Watching (add_reply c s)
  unfolding add_reply
  add_reply-Watching c s (w, there, waits) =
      let (i, cb) = interest-start_io_event ev w (pos c.fd) 2 (omega arith) in
      (
        start_io_event ev w (pos c.fd) 2,
        rw there refl,
        i
            ∙ ap (λ n. union n 2) waits
            ∙ union-wanted c.reply_list
            ∙ sym (wanted_snoc c.reply_list s),
      )

  -- However a run of `_write_reply` ends, a watcher that waited for what it should does so still,
  -- if the replies lie within their memory, none is empty, and the position is inside the first:
  -- when the last reply is sent it waits for READ alone, and while one is left for WRITE too.
  pub write_reply-Watching :
      (c : TcpConnection ev) (answers : List (Answer ℕ)) (now : ℕ)
      → AllWithin c.reply_list
      → IsInside c.reply_list c.cur_resp_pos
      → Watching c
      → Watching (write_reply c answers now).1
  unfolding write_reply
  write_reply-Watching c answers now all inside (w, there, waits) =
      let kept = write_loop-Keeps answers c.reply_list c.cur_resp_pos [] all inside in
      let left = left_wanted answers c.reply_list c.cur_resp_pos in
      elim (End-cases (write_loop answers c.reply_list c.cur_resp_pos []).0) [
        | inl e ↦
            let (i, cb) =
              interest-stop_io_event ev w (pos c.fd) 2 (active_wanted w c.reply_list waits) in
            rw (e, write_reply)
              (
                stop_io_event ev w (pos c.fd) 2,
                rw there refl,
                i
                    ∙ ap (λ n. without n 2) waits
                    ∙ without-wanted c.reply_list
                    ∙ ap wanted (sym (kept.ends.0 e)),
              )
        | inr (inl e) ↦
            rw (e, write_reply) (w, there, waits ∙ sym (left (λ k. cc (sym (kept.ends.1 k) ∙ e))))
        | inr (inr e) ↦
            rw (e, write_reply) (w, there, waits ∙ sym (left (λ k. cc (sym (kept.ends.1 k) ∙ e))))
      ]
