-- ===== src/Server/Journey/Reading.antt =====
-- signaling_worker.cpp: the reads of a connection, seen from the worker that has it in its table.
use rtc_frameworker.Prelude.{
  get_elem?, ◌==◌, ==_iff, ℕ, ◌≡◌, List, [], ◌∷◌, Option, some, set, false, true, ◌∙◌, ap, refl,
  Option-cases, Bool-cases, inl, inr,
}
use rtc_frameworker.Prelude.Int.{pos}
use rtc_frameworker.Messages.{Bytes, RtcMsg}
use rtc_frameworker.Platform.{Json, Crc}
use rtc_frameworker.Base.EventLoop.{Libev, read, write}
use rtc_frameworker.Base.Socket.{Answer, value}
use rtc_frameworker.Server.Connection.{TcpConnection}
use rtc_frameworker.Server.Inbox.{Inbox}
use rtc_frameworker.Server.Receive.{◌>>=◌, read_data}
use rtc_frameworker.Server.Receive.Reads.{Read, chunk, read_all}
use rtc_frameworker.Server.SignalingWorker.{
  SignalingWorker, conn_at, conn_io_cb, send_rtc_msg, process_rtc_msg, read_query,
}
use rtc_frameworker.Server.SignalingWorker.Table.{conn_at-set_self, conn_at-lt}
use rtc_frameworker.Server.RtcServer as Rtc
use rtc_frameworker.Server.RtcServer.{RtcServer}
use rtc_frameworker.Server.RtcWorker as RtcWorker
use rtc_frameworker.Server.RtcWorker.{RtcWorker}
use rtc_frameworker.Server.Journey.{read_each, journey}

-- What a chain with a result gives.
pub bind-to :
    {A B : Type 0} (o : Option A) (f : A → Option B) (a : A) (b : Option B)
    → o ≡ some a
    → f a ≡ b
    → (o >>= f) ≡ b
bind-to o f a b e g = ap (λ x. x >>= f) e ∙ g

module _ {ev : Libev} (json : Json) where
  -- One read event of a connection that stays open.
  read_event :
      (w : SignalingWorker ev) (fd : ℕ) (c c' : TcpConnection ev) (answer : Answer Bytes) (now : ℕ)
      (rtc rtc' : Inbox)
      → conn_at w.conns fd ≡ some c
      → read_data json w.worker_id c answer now rtc ≡ some (c', rtc', false)
      → conn_io_cb json w (pos fd) read answer [] now rtc
        ≡ some (record w { conns = set w.conns fd (some c') }, rtc', [])
  unfolding conn_io_cb read_query
  read_event w fd c c' answer now rtc rtc' there e = rw (there, e, conn_io_cb, read_query) refl

  -- A read that is followed by others left its connection open.
  read_all-cons :
      (worker : ℕ) (r : Read) (reads : List Read) (c : TcpConnection ev) (rtc : Inbox)
      (last : TcpConnection ev × Inbox)
      → read_all json worker (r ∷ reads) c rtc ≡ some last
      → (c' : TcpConnection ev) × (rtc' : Inbox) × (read_data json worker c
            (value (chunk r))
            r.now
            rtc
          ≡ some (c', rtc', false))
        × (read_all json worker reads c' rtc' ≡ some last)
  unfolding read_all
  read_all-cons worker r reads c rtc last h =
      elim (Option-cases (read_data json worker c (value (chunk r)) r.now rtc)) [
        | inl fault ↦ cc (rw (fault, read_all) at h)
        | inr ((c', rtc', closed), e) ↦ elim (Bool-cases closed) [
          | inl shut ↦ cc (rw (e, shut, read_all) at h)
          | inr still ↦
              (c', rtc', e ∙ ap (λ b. some (c', rtc', b)) still, rw (e, still, read_all) at h)
        ]
      ]

  -- The reads of a connection do to the worker what they do to the connection: of the table they
  -- change its entry only.
  pub read_each-read_all :
      (reads : List Read) (w : SignalingWorker ev) (fd : ℕ) (c c' : TcpConnection ev)
      (rtc rtc' : Inbox)
      → conn_at w.conns fd ≡ some c
      → read_all json w.worker_id reads c rtc ≡ some (c', rtc')
      → (conns : List (Option (TcpConnection ev))) × (read_each json reads w fd rtc
          ≡ some (record w { conns = conns }, rtc'))
        × (conn_at conns fd ≡ some c')
  unfolding read_each read_all
  read_each-read_all [] w fd c c' rtc rtc' there e =
      let same : c ≡ c' = cc e in
      let same_rtc : rtc ≡ rtc' = cc e in (w.conns, rw same_rtc refl, there ∙ ap some same)
  read_each-read_all (r ∷ reads) w fd c c' rtc rtc' there e =
      let (c1, rtc1, one, rest) = read_all-cons w.worker_id r reads c rtc (c', rtc') e in
      let w1 = record w { conns = set w.conns fd (some c1) } in
      let (conns, f, at) =
        read_each-read_all reads w1 fd c1 c' rtc1 rtc'
          (conn_at-set_self w.conns fd (some c1) (conn_at-lt w.conns fd c there)) rest in
      (
        conns,
        bind-to _ _ (w1, rtc1, []) _
            (read_event w fd c c1 (value (chunk r)) r.now rtc rtc1 there one) f,
        at,
      )

  -- The journey, from what each thread does in its turn.
  pub journey-turns :
      (crc : Crc) (w w1 w2 : SignalingWorker ev) (s s' : RtcServer) (fd : ℕ) (reads : List Read)
      (index : ℕ) (block : Bytes) (answers : List (Answer ℕ)) (now : ℕ) (rtc : Inbox)
      (wk wk' : RtcWorker) (reply : RtcMsg) (sent : Bytes)
      → read_each json reads w fd s.inbox ≡ some (w1, rtc)
      → Rtc.process_rtc_msg crc (record s { inbox = rtc }) ≡ some s'
      → get_elem? s'.workers index ≡ some wk
      → RtcWorker.process_rtc_msg wk ≡ some (wk', some (w1.worker_id, reply))
      → conn_io_cb json
          (process_rtc_msg json (send_rtc_msg w1 reply).0 (some block))
          (pos fd)
          write
          (value [])
          answers
          now
          rtc
        ≡ some (w2, rtc, sent)
      → journey json crc w s fd reads index block answers now ≡ some sent
  unfolding journey
  journey-turns crc w w1 w2 s s' fd reads index block answers now rtc wk wk' reply sent a b c d e =
      let own : (w1.worker_id == w1.worker_id) ≡ true = (==_iff _ _).1 refl in
      bind-to _ _ (w1, rtc) _ a
        (bind-to _ _ s' _ b (
          bind-to _ _ wk _ c (
            bind-to _ _ (wk', some (w1.worker_id, reply)) _ d
              (rw own (bind-to _ _ (w2, rtc, sent) _ e refl)))))
