-- ===== src/Server/Reply/Stream.antt =====
-- signaling_worker.cpp, `_write_reply`: the replies as one stream of bytes.
use rtc_frameworker.Prelude.{
  ap₂, ℕ, suc, ◌+◌, ◌-◌, ◌≤◌, ◌<◌, ◌≡◌, refl, ap, ◌∙◌, inl, inr, leb, List, [], ◌∷◌, ◌++◌, arith,
  length, drop, length-append, append_assoc, append-nil, Bool-cases, length-take, subst,
  length-drop,
}
use rtc_frameworker.Messages.{Bytes}
use rtc_frameworker.Base.EventLoop.{Libev}
use rtc_frameworker.Base.Socket.{Answer, value, sock_write_data}
use rtc_frameworker.Server.Connection.{TcpConnection, Slice}
use rtc_frameworker.Prelude.Int.{pos, negsuc}
use rtc_frameworker.Server.Reply.{write_reply, nwritten, emptied, write_loop, written}
use rtc_frameworker.Server.Reply.Pending.{
  bytes_of, pending_of, pending, AllWithin, IsInside, nwritten-cases, Keeps, start-IsInside,
  pending_whole, pending_part, length-written,
}

-- Of replies that are not empty and lie within their memory, with the position inside the first:
-- whatever the kernel answers, the bytes sent so far followed by the bytes still pending stay the
-- same (no byte is lost, sent twice or out of order), the rest lies within its memory with the
-- position inside, and the loop reports an empty list exactly if the list is empty.
pub write_loop-Keeps :
    (answers : List (Answer ℕ)) (ss : List Slice) (cur : ℕ) (sent : Bytes)
    → AllWithin ss
    → IsInside ss cur
    → Keeps (sent ++ pending ss cur) (write_loop answers ss cur sent)
unfolding write_loop
write_loop-Keeps answers [] cur sent w i = record {
  total = refl;
  within = tt;
  inside = i;
  ends = ((λ _. refl), (λ _. refl));
}
write_loop-Keeps [] (s ∷ ss) cur sent w i = record {
  total = refl;
  within = w;
  inside = i;
  ends = ((λ e. cc), (λ e. cc));
}
write_loop-Keeps (a ∷ answers) (s ∷ ss) cur sent w i = elim (nwritten-cases a (s.size - cur)) [
  | inl (k, e) ↦
      rw (e, write_loop)
        (record { total = refl; within = w; inside = i; ends = ((λ q. cc), (λ q. cc)) })
  | inr (inl e) ↦ rw (e, write_loop) (write_loop-Keeps answers (s ∷ ss) cur sent w i)
  | inr (inr (n, e, l)) ↦ elim (Bool-cases (leb s.size (suc n + cur))) [
    | inl all ↦
        rw (e, all, write_loop)
          (subst (λ t. Keeps t (write_loop answers ss 0 (sent ++ written (suc n) cur s)))
            (append_assoc sent (written (suc n) cur s) (pending ss 0)
              ∙ ap (◌++◌ sent) (pending_whole (suc n) cur s ss (ground arith) w.1))
            (write_loop-Keeps answers ss 0 (sent ++ written (suc n) cur s) w.2
              (start-IsInside ss w.2)))
    | inr part ↦
        rw (e, part, write_loop)
          (subst
            (λ t.
              Keeps t (write_loop answers (s ∷ ss) (cur + suc n) (sent ++ written (suc n) cur s)))
            (append_assoc sent (written (suc n) cur s) _
              ∙ ap (◌++◌ sent) (pending_part (suc n) cur s ss (ground arith)))
            (write_loop-Keeps answers (s ∷ ss) (cur + suc n) (sent ++ written (suc n) cur s) w
              (ground arith)))
  ]
]

never_fails : (k len j : ℕ) → ¬ (nwritten (value (suc k)) len ≡ negsuc j)
unfolding sock_write_data
never_fails k len j e = ground arith

never_zero : (k len : ℕ) → 0 < len → ¬ (nwritten (value (suc k)) len ≡ pos 0)
unfolding sock_write_data
never_zero k len h e = ground arith

progress :
    (k len : ℕ) → 0 < len → (n : ℕ) × (nwritten (value (suc k)) len ≡ pos (suc n)) × (suc n ≤ len)
progress k len h = elim (nwritten-cases (value (suc k)) len) [
  | inl (j, e) ↦ absurd (never_fails k len j e)
  | inr (inl e) ↦ absurd (never_zero k len h e)
  | inr (inr r) ↦ r
]

-- A list of answers in which the kernel takes at least one byte each time.
abbrev pub AllProgress : List (Answer ℕ) → Type 0
AllProgress [] = Unit
AllProgress (a ∷ answers) = ((n : ℕ) × (a ≡ value (suc n))) × AllProgress answers

-- Of replies that are not empty and lie within their memory, with the position inside the first:
-- if the kernel takes at least one byte each time, as many answers as there are bytes pending are
-- enough for the loop to empty the list, and exactly the pending bytes were sent.
pub write_loop-emptied :
    (answers : List (Answer ℕ)) (ss : List Slice) (cur : ℕ) (sent : Bytes)
    → AllWithin ss
    → IsInside ss cur
    → AllProgress answers
    → length (pending ss cur) ≤ length answers
    → write_loop answers ss cur sent ≡ (emptied, [], 0, sent ++ pending ss cur)
unfolding write_loop
write_loop-emptied answers [] cur sent w i g l = rw (i, append-nil sent)
write_loop-emptied [] (s ∷ ss) cur sent w i g l = absurd (
    omega (
      arith,
      l,
      length-append (drop cur (bytes_of s)) (pending_of ss),
      length-drop cur (bytes_of s),
      length-take s.size s.memory,
    ))
write_loop-emptied (a ∷ answers) (s ∷ ss) cur sent w i g l =
    let (k, is) = g.0 in
    let (n, e, fits) = progress k (s.size - cur) (omega arith) in
    let e' : nwritten a (s.size - cur) ≡ pos (suc n) = rw is e in
    let len = length-written (suc n) cur s (omega arith) w.1 in
    elim (Bool-cases (leb s.size (suc n + cur))) [
      | inl all ↦
          let same = pending_whole (suc n) cur s ss (ground arith) w.1 in
          rw (e', all, write_loop)
            (write_loop-emptied answers ss 0 (sent ++ written (suc n) cur s) w.2
                (start-IsInside ss w.2) g.1
                (omega (
                  arith,
                  l,
                  len,
                  ap length same,
                  length-append (written (suc n) cur s) (pending ss 0),
                ))
              ∙ ap (λ t. (emptied, [], 0, t)) (append_assoc sent _ _ ∙ ap (◌++◌ sent) same))
      | inr part ↦
          let same = pending_part (suc n) cur s ss (ground arith) in
          rw (e', part, write_loop)
            (write_loop-emptied answers (s ∷ ss) (cur + suc n) (sent ++ written (suc n) cur s) w
                (ground arith) g.1
                (omega (
                  arith,
                  l,
                  len,
                  ap length same,
                  length-append (written (suc n) cur s) (pending (s ∷ ss) (cur + suc n)),
                ))
              ∙ ap (λ t. (emptied, [], 0, t)) (append_assoc sent _ _ ∙ ap (◌++◌ sent) same))
    ]

module _ {ev : Libev} where
  -- What `_write_reply` sends is what its loop sends.
  pub write_reply-sent :
      (c : TcpConnection ev) (answers : List (Answer ℕ)) (now : ℕ)
      → (write_reply c answers now).2 ≡ (write_loop answers c.reply_list c.cur_resp_pos []).3
  unfolding write_reply
  write_reply-sent c answers now = ground arith

  -- Its list and position are the loop's, and it keeps the descriptor.
  pub write_reply_lists :
      (c : TcpConnection ev) (answers : List (Answer ℕ)) (now : ℕ)
      → ((write_reply c answers now).1.reply_list
          ≡ (write_loop answers c.reply_list c.cur_resp_pos []).1)
        × ((write_reply c answers now).1.cur_resp_pos
            ≡ (write_loop answers c.reply_list c.cur_resp_pos []).2)
        × ((write_reply c answers now).1.fd ≡ c.fd)
  unfolding write_reply
  write_reply_lists c answers now = ground arith

  -- The bytes that it sends, in front of what is pending behind it, are what was pending.
  pub write_reply-pending :
      (c : TcpConnection ev) (answers : List (Answer ℕ)) (now : ℕ)
      → AllWithin c.reply_list
      → IsInside c.reply_list c.cur_resp_pos
      → (write_reply c answers now).2
          ++ pending
              (write_reply c answers now).1.reply_list
              (write_reply c answers now).1.cur_resp_pos
        ≡ pending c.reply_list c.cur_resp_pos
  write_reply-pending c answers now w i =
      let (list, cur, _) = write_reply_lists c answers now in
      ap₂ ◌++◌ (write_reply-sent c answers now) (ap₂ pending list cur)
      ∙ (write_loop-Keeps answers c.reply_list c.cur_resp_pos [] w i).total
