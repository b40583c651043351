-- ===== src/Server/Receive/Later.antt =====
-- signaling_worker.cpp, `process_query_buffer`: what comes in behind a request that was handled.
use rtc_frameworker.Prelude.{
  ℕ, ◌+◌, ◌<◌, ◌≡◌, sym, ap, ◌∙◌, List, [], ◌∷◌, ◌++◌, some, arith, length, length-append,
  append_assoc, append-nil, false,
}
use rtc_frameworker.Messages.{Bytes, done}
use rtc_frameworker.Platform.{Json}
use rtc_frameworker.Base.EventLoop.{Libev}
use rtc_frameworker.Base.Socket.{value}
use rtc_frameworker.Server.Connection.{TcpConnection}
use rtc_frameworker.Server.Inbox.{Inbox}
use rtc_frameworker.Server.Receive.{read_data}
use rtc_frameworker.Server.Receive.Loop.{loop_idle}
use rtc_frameworker.Server.Receive.Reads.{Read, chunk, received, last_time, read_all, read_data_lem}

module _ {ev : Libev} (json : Json) (worker : ℕ) where
  abbrev longer : TcpConnection ev → Bytes → ℕ → TcpConnection ev
  longer conn bytes now = record conn {
    querybuf = conn.querybuf ++ bytes;
    last_interaction_time = now;
  }

  ignored :
      (conn : TcpConnection ev) (r : Read) (rtc : Inbox)
      → conn.bytes_processed ≡ 65535
      → length conn.querybuf + length (chunk r) < conn.bytes_expected + 65535
      → read_data json worker conn (value (chunk r)) r.now rtc
        ≡ some (longer conn (chunk r) r.now, rtc, false)
  ignored conn r rtc p h =
      read_data_lem json worker conn r.first r.more r.now rtc (longer conn (chunk r) r.now) rtc done
        (loop_idle json worker 2 (longer conn (chunk r) r.now) rtc
          (omega (arith, p, length-append conn.querybuf (chunk r))))

  -- A connection that has handled a request, and whose whole buffer (the header, the body and what
  -- came behind them) stays below 65535 bytes more than the body of that request had: what it gets
  -- is only stored. It makes no message, and nothing is closed.
  pub read_all-later :
      (conn : TcpConnection ev) (reads : List Read) (rtc : Inbox)
      → conn.bytes_processed ≡ 65535
      → length conn.querybuf + length (received reads) < conn.bytes_expected + 65535
      → read_all json worker reads conn rtc
        ≡ some (
          record conn {
            querybuf = conn.querybuf ++ received reads;
            last_interaction_time = last_time conn.last_interaction_time reads;
          },
          rtc,
        )
  unfolding read_all
  read_all-later conn [] rtc p h =
      ap (λ q. some (record conn { querybuf = q }, rtc)) (sym (append-nil conn.querybuf))
  read_all-later conn (r ∷ reads) rtc p h =
      let l = length-append (chunk r) (received reads) in
      rw (ignored conn r rtc p (omega (arith, l)), read_all)
        (read_all-later (longer conn (chunk r) r.now) reads rtc p
            (omega (arith, l, length-append conn.querybuf (chunk r)))
          ∙ ap
              (λ q.
                some (
                  record conn { querybuf = q; last_interaction_time = last_time r.now reads },
                  rtc,
                ))
              (append_assoc conn.querybuf (chunk r) (received reads)))
