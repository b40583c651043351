-- ===== src/Server/Receive/Framing.antt =====
-- signaling_worker.cpp, `read_query` and `process_query_buffer`: a request that comes in several
-- reads.
use rtc_frameworker.Prelude.{
  ℕ, suc, ◌+◌, ◌≤◌, ◌<◌, ◌≡◌, refl, sym, ap, ◌∙◌, false, List, [], ◌∷◌, ◌++◌, Option, some, arith,
  ltb, length, take, drop, length-append, append_assoc, append-nil, inl, inr, Bool-cases,
  drop-append, take_all, take-append, ap₂,
}
use rtc_frameworker.Messages.{Bytes, Ret, done}
use rtc_frameworker.Platform.{Json}
use rtc_frameworker.Base.EventLoop.{Libev}
use rtc_frameworker.Base.Socket.{value}
use rtc_frameworker.Base.Xhead.{Xhead, xhead_magic, view, layout}
use rtc_frameworker.Base.Xhead.Layout.{Fits, view-layout, view-append, length-layout}
use rtc_frameworker.Server.Connection.{TcpConnection, state_head, state_body, create}
use rtc_frameworker.Server.Inbox.{Inbox}
use rtc_frameworker.Server.Receive.{process_request, process_query_buffer, read_data}
use rtc_frameworker.Server.Receive.Loop.{
  loop_idle, loop_head, loop_body_done, loop_body_failed, after_body, request, Ret-cases,
}
use rtc_frameworker.Server.Receive.Reads.{
  waiting, Read, chunk, received, last_time, read_all, read_data_lem, process_request_same,
  finished,
}

module _ {ev : Libev} (json : Json) (worker : ℕ) (conn : TcpConnection ev) (h : Xhead)
    (body : Bytes) (starts : conn.current_state ≡ state_head) (first : conn.bytes_expected ≡ 36)
    (none_yet : conn.bytes_processed ≡ 0) (fits : Fits h) (magic : h.magic_num ≡ xhead_magic)
    (whole : length body ≡ h.body_len) where
  abbrev total : Bytes
  total = layout h ++ body

  length-total : length total ≡ 36 + h.body_len
  length-total = omega (arith, length-append (layout h) body, length-layout h fits)

  view_prefix : (p rest : Bytes) → p ++ rest ≡ total → 36 ≤ length p → view p ≡ h
  view_prefix p rest e l = sym (view-append p rest l) ∙ ap view e ∙ view-layout h body fits

  -- The loop's state while the body is awaited.
  abbrev awaiting : ℕ → Bytes → TcpConnection ev
  awaiting now p = record conn {
    querybuf = p;
    last_interaction_time = now;
    bytes_processed = 36;
    bytes_expected = h.body_len;
    current_state = state_body;
  }

  head_step :
      (fuel now : ℕ) (p rest : Bytes) (rtc : Inbox)
      → p ++ rest ≡ total
      → 36 ≤ length p
      → process_query_buffer json worker
          (suc fuel)
          (record conn { querybuf = p; last_interaction_time = now })
          rtc
        ≡ process_query_buffer json worker fuel (awaiting now p) rtc
  head_step fuel now p rest rtc e l =
      let v = view_prefix p rest e l in
      loop_head json worker fuel (record conn { querybuf = p; last_interaction_time = now }) rtc
        starts (omega arith) (ap (λ (x : Xhead). x.magic_num) v ∙ magic)
      ∙ ap
          (λ n.
            process_query_buffer json worker fuel (record (awaiting now p) { bytes_expected = n })
              rtc)
          (ap (λ (x : Xhead). x.body_len) v)

  request_total :
      (now : ℕ) (rtc : Inbox)
      → request json worker (awaiting now total) rtc
        ≡ process_request json worker conn (layout h) body rtc
  request_total now rtc =
      let v = view_prefix total [] (append-nil total) (omega (arith, length-total)) in
      rw (ap (λ (x : Xhead). x.body_len) v) (
        process_request_same json worker (awaiting now total) conn _ _ rtc refl refl
        ∙ ap₂ (λ a b. process_request json worker conn a b rtc) head_part body_part)
    where
      head_part : take 36 total ≡ layout h
      head_part =
          take-append 36 (layout h) body (omega (arith, length-layout h fits))
          ∙ take_all 36 (layout h) (omega (arith, length-layout h fits))

      body_part : take h.body_len (drop 36 total) ≡ body
      body_part =
          ap (λ n. take h.body_len (drop n total)) (sym (length-layout h fits))
          ∙ ap (take h.body_len) (drop-append (layout h) body)
          ∙ take_all h.body_len body (omega arith)

  body_step :
      (fuel now : ℕ) (rtc : Inbox)
      → process_query_buffer json worker (suc (suc fuel)) (awaiting now total) rtc ≡ (
          let (rtc', r) = process_request json worker conn (layout h) body rtc in
          some (finished conn h now total r, rtc', r))
  body_step fuel now rtc =
      elim (Ret-cases (process_request json worker conn (layout h) body rtc).1) [
        | inl good ↦
            loop_body_done json worker (suc fuel) (awaiting now total) rtc refl
              (omega (arith, length-total))
              (ap (λ (p : Inbox × Ret). p.1) (request_total now rtc) ∙ good)
            ∙ loop_idle json worker fuel (after_body (awaiting now total)) _
                (omega (arith, length-total))
            ∙ rw (request_total now rtc, good) refl
        | inr bad ↦
            loop_body_failed json worker (suc fuel) (awaiting now total) rtc refl
              (omega (arith, length-total))
              (ap (λ (p : Inbox × Ret). p.1) (request_total now rtc) ∙ bad)
            ∙ rw (request_total now rtc, bad) refl
      ]

  shorter :
      (p c rest : Bytes)
      → p ++ (c ++ rest) ≡ total
      → 0 < length rest
      → length (p ++ c) < h.body_len + 36
  shorter p c rest e l = omega (
    arith,
    ap length e,
    length-append p (c ++ rest),
    length-append c rest,
    length-append p c,
    length-total,
  )

  pub waiting_step :
      (t now : ℕ) (p c rest : Bytes) (rtc : Inbox)
      → p ++ (c ++ rest) ≡ total
      → 0 < length rest
      → process_query_buffer json worker 3
          (record (waiting conn h t p) { querybuf = p ++ c; last_interaction_time = now })
          rtc
        ≡ some (waiting conn h now (p ++ c), rtc, done)
  waiting_step t now p c rest rtc e l = elim (Bool-cases (ltb (length p) 36)) [
    | inl early ↦ elim (Bool-cases (ltb (length (p ++ c)) 36)) [
      | inl still ↦ rw (early, still) (loop_idle json worker 2 _ rtc (ground arith))
      | inr headed ↦
          rw (early, headed)
            (head_step 2 now (p ++ c) rest rtc (append_assoc p c rest ∙ e) (ground arith)
              ∙ loop_idle json worker 1 (awaiting now (p ++ c)) rtc (shorter p c rest e l))
    ]
    | inr late ↦
        let late' : ltb (length (p ++ c)) 36 ≡ false = ground (arith, length-append p c) in
        rw (late, late')
          (loop_idle json worker 2 (awaiting now (p ++ c)) rtc (shorter p c rest e l))
  ]

  pub finish_step :
      (t now : ℕ) (p c : Bytes) (rtc : Inbox)
      → p ++ c ≡ total
      → 0 < length c
      → process_query_buffer json worker 3
          (record (waiting conn h t p) { querybuf = p ++ c; last_interaction_time = now })
          rtc
        ≡ (let (rtc', r) = process_request json worker conn (layout h) body rtc in
            some (finished conn h now total r, rtc', r))
  finish_step t now p c rtc e l = elim (Bool-cases (ltb (length p) 36)) [
    | inl early ↦
        rw (early, e)
          (head_step 2 now total [] rtc (append-nil total) (omega (arith, length-total))
            ∙ body_step 0 now rtc)
    | inr late ↦ rw (late, e) (body_step 1 now rtc)
  ]

  abbrev outcome : ℕ → Inbox → Option (TcpConnection ev × Inbox)
  outcome now rtc =
      let (rtc', r) = process_request json worker conn (layout h) body rtc in
      some (finished conn h now total r, rtc')

  waiting_buffer : (t : ℕ) (p : Bytes) → (waiting conn h t p).querybuf ≡ p
  waiting_buffer t p = ground arith

  finish_read :
      (t : ℕ) (p : Bytes) (r : Read) (rtc : Inbox)
      → p ++ chunk r ≡ total
      → read_data json worker (waiting conn h t p) (value (chunk r)) r.now rtc ≡ (
          let (rtc', ret) = process_request json worker conn (layout h) body rtc in
          some (finished conn h r.now total ret, rtc', false))
  finish_read t p r rtc e =
      let (rtc', ret) = process_request json worker conn (layout h) body rtc in
      read_data_lem json worker (waiting conn h t p) r.first r.more r.now rtc
        (finished conn h r.now total ret) rtc' ret
        (rw (waiting_buffer t p) (finish_step t r.now p (chunk r) rtc e (omega arith)))

  waiting_read :
      (t : ℕ) (p : Bytes) (r : Read) (rest : Bytes) (rtc : Inbox)
      → p ++ (chunk r ++ rest) ≡ total
      → 0 < length rest
      → read_data json worker (waiting conn h t p) (value (chunk r)) r.now rtc
        ≡ some (waiting conn h r.now (p ++ chunk r), rtc, false)
  waiting_read t p r rest rtc e l =
      read_data_lem json worker (waiting conn h t p) r.first r.more r.now rtc
        (waiting conn h r.now (p ++ chunk r)) rtc done
        (rw (waiting_buffer t p) (waiting_step t r.now p (chunk r) rest rtc e l))

  pub read_all_from :
      (t : ℕ) (p : Bytes) (reads : List Read) (rtc : Inbox)
      → p ++ received reads ≡ total
      → length p < length total
      → read_all json worker reads (waiting conn h t p) rtc ≡ outcome (last_time t reads) rtc
  unfolding read_all
  read_all_from t p [] rtc e l = absurd (omega (arith, ap length e, length-append p []))
  read_all_from t p (r ∷ []) rtc e l =
      rw (finish_read t p r rtc (ap (◌++◌ p) (sym (append-nil (chunk r))) ∙ e), read_all) refl
  read_all_from t p (r ∷ q ∷ reads) rtc e l =
      rw (waiting_read t p r (received (q ∷ reads)) rtc e (omega arith), read_all)
        (read_all_from r.now (p ++ chunk r) (q ∷ reads) rtc (append_assoc p (chunk r) _ ∙ e) (
          omega (
            arith,
            ap length e,
            length-append p (received (r ∷ q ∷ reads)),
            length-append (chunk r) (received (q ∷ reads)),
            length-append p (chunk r),
          )))

-- A new connection whose reads add up to the bytes of one request (a header with the magic number
-- and fields in range, and a body of the announced length) handles that request exactly once, on
-- its own header and body, however the reads cut it; then the buffer holds the whole request and
-- the state says whether it succeeded.
pub read_all-create :
    {ev : Libev} (json : Json) (worker addr fd port time : ℕ) (h : Xhead) (body : Bytes)
    (reads : List Read) (rtc : Inbox)
    → Fits h
    → h.magic_num ≡ xhead_magic
    → length body ≡ h.body_len
    → received reads ≡ layout h ++ body
    → let conn = create ev addr fd port time in
      let (rtc', r) = process_request json worker conn (layout h) body rtc in
      read_all json worker reads conn rtc
      ≡ some (finished conn h (last_time time reads) (layout h ++ body) r, rtc')
unfolding create
read_all-create {ev} json worker addr fd port time h body reads rtc fits magic whole e =
    read_all_from json worker (create ev addr fd port time) h body refl refl refl fits magic whole
      time [] reads rtc e (omega (arith, length-append (layout h) body, length-layout h fits))
