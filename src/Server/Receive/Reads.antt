-- ===== src/Server/Receive/Reads.antt =====
-- signaling_worker.cpp: the reads of one connection, and the states that a connection is in while a
-- request comes in and behind it.
use rtc_frameworker.Prelude.{
  ℕ, ◌≡◌, refl, false, List, [], ◌∷◌, ◌++◌, Option, none, some, ltb, length, if◌then◌else◌,
}
use rtc_frameworker.Messages.{Bytes, Ret, done, failed}
use rtc_frameworker.Platform.{Json}
use rtc_frameworker.Base.EventLoop.{Libev}
use rtc_frameworker.Base.Socket.{value}
use rtc_frameworker.Base.Xhead.{Xhead}
use rtc_frameworker.Server.Connection.{TcpConnection, state_body}
use rtc_frameworker.Server.Inbox.{Inbox}
use rtc_frameworker.Server.Receive.{
  process_request, push_request, process_push, process_query_buffer, read_data,
}

abbrev pub waiting : {ev : Libev} → TcpConnection ev → Xhead → ℕ → Bytes → TcpConnection ev
waiting conn h now p =
    if ltb (length p) 36
    then record conn { querybuf = p; last_interaction_time = now }
    else record conn {
      querybuf = p;
      last_interaction_time = now;
      bytes_processed = 36;
      bytes_expected = h.body_len;
      current_state = state_body;
    }

-- A read(2) that got at least one byte, and the time.
pub record Read : Type 0 where
  pub first : ℕ
  pub more : Bytes
  pub now : ℕ

abbrev pub chunk : Read → Bytes
chunk r = r.first ∷ r.more

abbrev pub received : List Read → Bytes
received [] = []
received (r ∷ reads) = chunk r ++ received reads

abbrev pub last_time : ℕ → List Read → ℕ
last_time t [] = t
last_time t (r ∷ reads) = last_time r.now reads

module _ {ev : Libev} (json : Json) (worker : ℕ) where
  -- The reads of one connection in turn; a failed request does not end them. `none` is a loop that
  -- runs on, or a read that closes the connection.
  unfoldable pub read_all : List Read → TcpConnection ev → Inbox → Option (TcpConnection ev × Inbox)
  read_all [] conn rtc = some (conn, rtc)
  read_all (r ∷ reads) conn rtc = elim (read_data json worker conn (value (chunk r)) r.now rtc) [
    | none ↦ none
    | some (conn', rtc', closed) ↦ if closed then none else read_all reads conn' rtc'
  ]

  -- The loop's answer, as `read_data` gives it.
  pub read_data_lem :
      (conn : TcpConnection ev) (b : ℕ) (bs : Bytes) (now : ℕ) (rtc : Inbox) (c : TcpConnection ev)
      (r : Inbox) (ret : Ret)
      → process_query_buffer json worker 3
          (record conn { querybuf = conn.querybuf ++ (b ∷ bs); last_interaction_time = now })
          rtc
        ≡ some (c, r, ret)
      → read_data json worker conn (value (b ∷ bs)) now rtc ≡ some (c, r, false)
  unfolding read_data
  read_data_lem conn b bs now rtc c r ret e = rw (e, read_data) refl

  -- The request depends on the connection only by its address and its descriptor.
  pub process_request_same :
      (c d : TcpConnection ev) (header body : Bytes) (rtc : Inbox)
      → c.addr ≡ d.addr
      → c.fd ≡ d.fd
      → process_request json worker c header body rtc
        ≡ process_request json worker d header body rtc
  unfolding process_request process_push push_request
  process_request_same c d header body rtc e g = rw (e, g)

abbrev pub processed_after : Ret → ℕ
processed_after done = 65535
processed_after failed = 36

-- A connection whose request, the bytes `total`, was handled with the result `r`.
abbrev pub finished : {ev : Libev} → TcpConnection ev → Xhead → ℕ → Bytes → Ret → TcpConnection ev
finished conn h now total r = record conn {
  querybuf = total;
  last_interaction_time = now;
  bytes_processed = processed_after r;
  bytes_expected = h.body_len;
  current_state = state_body;
}
