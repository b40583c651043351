-- ===== src/Server/SignalingWorker/Serving.antt =====
-- signaling_worker.cpp: the replies of a connection and the events that its watcher waits for, over
-- all callbacks.
use rtc_frameworker.Prelude.{
  ℕ, ◌≤◌, ◌<◌, ◌≡◌, refl, sym, ap, ◌∙◌, List, [], ◌∷◌, ◌++◌, Option, none, some, arith, length,
  subst,
}
use rtc_frameworker.Prelude.Int.{ℤ, pos}
use rtc_frameworker.Messages.{Bytes, RtcMsg, max_res_buf}
use rtc_frameworker.Platform.{Json}
use rtc_frameworker.Base.EventLoop.{Libev}
use rtc_frameworker.Base.Socket.{Answer}
use rtc_frameworker.Server.Connection.{TcpConnection, Slice}
use rtc_frameworker.Server.Receive.Identity.{Same}
use rtc_frameworker.Server.Reply.{write_reply, add_reply, reply_text, build_reply, respond}
use rtc_frameworker.Server.Reply.Pending.{AllWithin, IsInside}
use rtc_frameworker.Server.Reply.Stream.{write_reply_lists, write_loop-Keeps}
use rtc_frameworker.Server.Reply.Buffer.{block_size, length-memory, size-build_reply}
use rtc_frameworker.Server.Reply.Watching.{
  Watching, wanted, add_reply-Watching, write_reply-Watching,
}
use rtc_frameworker.Server.SignalingWorker.{SignalingWorker, conn_at, open_conn}
use rtc_frameworker.Server.SignalingWorker.Table.{open_conn-Watching}
use rtc_frameworker.Server.SignalingWorker.Lifecycle.{create}
use rtc_frameworker.Server.SignalingWorker.Callbacks.{Reach, AtReplies, AtReplies-map}
use rtc_frameworker.Server.SignalingWorker.Invariant.{Everywhere, Stable, Answers}
use rtc_frameworker.Server.SignalingWorker.Reachable.{Reach-Everywhere}

-- A connection in the table at the index of its descriptor: its replies lie within their memory,
-- and its watcher waits for READ, and for WRITE exactly while there are replies.
pub record Serving {ev : Libev} (j : ℕ) (c : TcpConnection ev) : Type 0 where
  pub at_fd : c.fd ≡ j
  pub watching : Watching c
  pub within : AllWithin c.reply_list
  pub inside : IsInside c.reply_list c.cur_resp_pos

AllWithin-snoc :
    (ss : List Slice) (s : Slice)
    → AllWithin ss
    → 0 < s.size
    → s.size ≤ length s.memory
    → AllWithin (ss ++ s ∷ [])
AllWithin-snoc [] s w h l = (h, l, tt)
AllWithin-snoc (t ∷ ss) s w h l = (w.0, w.1, AllWithin-snoc ss s w.2 h l)

IsInside-snoc :
    (ss : List Slice) (s : Slice) (cur : ℕ)
    → IsInside ss cur
    → 0 < s.size
    → IsInside (ss ++ s ∷ []) cur
IsInside-snoc [] s cur i h = rw i h
IsInside-snoc (t ∷ ss) s cur i h = i

module _ {ev : Libev} where
  written-Serving :
      (j : ℕ) (c : TcpConnection ev) (answers : List (Answer ℕ)) (now : ℕ)
      → Serving j c
      → Serving j (write_reply c answers now).1
  written-Serving j c answers now v =
      let (list, cur, fd) = write_reply_lists c answers now in
      let kept = write_loop-Keeps answers c.reply_list c.cur_resp_pos [] v.within v.inside in
      record {
        at_fd = fd ∙ v.at_fd;
        watching = write_reply-Watching c answers now v.within v.inside v.watching;
        within = subst (λ (ss : List Slice). AllWithin ss) (sym list) kept.within;
        inside = rw (list, cur) kept.inside;
      }

  pub received-Serving : (j : ℕ) (c c' : TcpConnection ev) → Same c' c → Serving j c → Serving j c'
  received-Serving j c c' same v =
      let (w, there, waits) = v.watching in
      record {
        at_fd = same.fd ∙ v.at_fd;
        watching = (w, same.io_watcher ∙ there, waits ∙ ap wanted (sym same.reply_list));
        within = subst (λ (ss : List Slice). AllWithin ss) (sym same.reply_list) v.within;
        inside = rw (same.reply_list, same.cur_resp_pos) v.inside;
      }

  Serving-stable : Stable {ev = ev} Serving
  unfolding open_conn
  Serving-stable = record {
    opened = λ fd addr now peer h. record {
      at_fd = refl;
      watching = open_conn-Watching addr fd now peer;
      within = tt;
      inside = refl;
    };
    written = written-Serving;
    received = received-Serving;
  }

  queued :
      (c : TcpConnection ev) (s : Slice) (fd : ℕ)
      → Serving fd c
      → 0 < s.size
      → s.size ≤ length s.memory
      → Serving fd (add_reply c s)
  unfolding add_reply
  queued c s fd v h l = record {
    at_fd = v.at_fd;
    watching = add_reply-Watching c s v.watching;
    within = AllWithin-snoc c.reply_list s v.within h l;
    inside = IsInside-snoc c.reply_list s c.cur_resp_pos v.inside h;
  }

  module _ (json : Json) where
    -- The reply to the front of the queue fits: its connection still holds the header of its
    -- request, the text has at most MAX_RES_BUF bytes, and zmalloc's block is as long as was
    -- asked for.
    abbrev pub Fitting : SignalingWorker ev → Option Bytes → Type 0
    Fitting w block =
        (msg : RtcMsg) (msgs : List RtcMsg) (fd : ℕ) (c : TcpConnection ev)
        → w.q_msg ≡ msg ∷ msgs
        → msg.fd ≡ pos fd
        → msg.conn ≡ some c.addr
        → conn_at w.conns fd ≡ some c
        → (36 ≤ length c.querybuf)
          × (length (reply_text json msg) ≤ max_res_buf)
          × ((b : Bytes) → block ≡ some b → length b ≡ block_size)

    Fitting-Answers :
        (w : SignalingWorker ev) (block : Option Bytes)
        → Fitting w block
        → Answers Serving json w block
    unfolding respond
    Fitting-Answers w none f msg msgs fd c q to_fd to_conn there v = v
    Fitting-Answers w (some b) f msg msgs fd c q to_fd to_conn there v =
        let (head, short, block) = f msg msgs fd c q to_fd to_conn there in
        let s = build_reply c.querybuf (reply_text json msg) b in
        let memory = length-memory c.querybuf (reply_text json msg) b head (block b refl) in
        let size = size-build_reply c.querybuf (reply_text json msg) b head (block b refl) in
        queued c s fd v (omega (arith, size)) (omega (arith, size, memory))

    -- In every state that a new worker reaches with replies that fit, each connection stands at the
    -- index of its descriptor, its replies lie within their memory, and its watcher waits for READ,
    -- and for WRITE exactly while there are replies: no reply is forgotten.
    pub Reach-Serving :
        (worker_id : ℕ) (timeout : ℤ) (w : SignalingWorker ev)
        (r : Reach json (create worker_id timeout) w)
        → AtReplies json Fitting r
        → Everywhere Serving w.conns
    Reach-Serving worker_id timeout w r fit =
        Reach-Everywhere Serving json worker_id timeout w r
          (AtReplies-map json Fitting (Answers Serving json) Fitting-Answers r fit) Serving-stable
