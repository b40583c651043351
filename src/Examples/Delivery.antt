-- ===== src/Examples/Delivery.antt =====
-- The theorems on the replies and the descriptors of a worker applied to a client that asks, is
-- answered, and reads a part of the answer, and to one that is silent for too long.
use rtc_frameworker.Server.Reply.{reply_text, respond, write_reply}
use rtc_frameworker.Server.Reply.Buffer.{block_size}
use rtc_frameworker.Server.Reply.Pending.{pending}
use rtc_frameworker.Server.SignalingWorker.{pop_msg, response_server_offer}
use rtc_frameworker.Server.SignalingWorker.Streams.{sent, owed, Reach-Delivers}
use rtc_frameworker.Prelude.{
  ◌≤◌, ◌∙◌, length-replicate, ℕ, ◌≡◌, refl, sym, [], ◌∷◌, ◌++◌, Option, some, arith, length, set,
  take, ap, ◌+◌,
}
use rtc_frameworker.Prelude.Int.{pos}
use rtc_frameworker.Server.SignalingWorker.Descriptors.{accepts, AllFree, Reach-closings}
use rtc_frameworker.Server.SignalingWorker.Descriptors.Closing.{closings, present}
use rtc_frameworker.Messages.{Bytes, max_res_buf}
use rtc_frameworker.Base.EventLoop.{read, write}
use rtc_frameworker.Base.Socket.{value, error, eagain}
use rtc_frameworker.Base.Xhead.{layout, view}
use rtc_frameworker.Server.Connection as Connection
use rtc_frameworker.Server.Connection.{TcpConnection, state_body}
use rtc_frameworker.Server.Inbox.{Inbox}
use rtc_frameworker.Server.SignalingWorker.{
  SignalingWorker, conn_at, new_conn, open_conn, conn_io_cb, send_rtc_msg, process_rtc_msg,
  write_reply_to, close_conn, conn_timer_cb, process_timeout, is_timed_out,
}
use rtc_frameworker.Server.Receive.{read_data, process_query_buffer, process_head}
use rtc_frameworker.Server.SignalingWorker.Lifecycle as Lifecycle
use rtc_frameworker.Server.SignalingWorker.Callbacks.{
  Reach, AtReplies, accepted, io, timer, messaged, replied, initial, after,
}
use rtc_frameworker.Examples.{without_nul, toy_libev, toy_head, toy_body, empty_inbox}
use rtc_frameworker.Examples.Workers.{push_json, nobody, idle, serving, client, a_msg}
use rtc_frameworker.Examples.Journey.{block}
use rtc_frameworker.Server.SignalingWorker.Serving.{Fitting}

-- What the client sent: a header, and the first byte of its body.
abbrev asked : Bytes
asked = layout toy_head ++ take 1 toy_body

abbrev asking : Option (SignalingWorker toy_libev × Inbox × Bytes)
asking = conn_io_cb push_json serving (pos 7) read (value asked) [] 20 empty_inbox

abbrev read_client : TcpConnection toy_libev
read_client = record client {
  querybuf = asked;
  last_interaction_time = 20;
  bytes_processed = 36;
  bytes_expected = 2;
  current_state = state_body;
}

-- The worker behind that read.
abbrev asked_worker : SignalingWorker toy_libev
asked_worker = record serving { conns = set serving.conns 7 (some read_client) }

asked_lem : asking ≡ some (asked_worker, empty_inbox, [])
unfolding conn_io_cb new_conn open_conn Lifecycle.create Connection.create layout read_data
    process_query_buffer process_head view
asked_lem = refl

-- The reply is queued, and the kernel takes 10 bytes of it.
abbrev told : SignalingWorker toy_libev
told = (send_rtc_msg asked_worker a_msg).0

abbrev answered : SignalingWorker toy_libev
answered = process_rtc_msg push_json told (some block)

abbrev written : SignalingWorker toy_libev × Bytes
written = write_reply_to answered (pos 7) (value 10 ∷ error eagain ∷ []) 30

written_lem :
    conn_io_cb push_json answered
      (pos 7)
      write
      (error eagain)
      (value 10 ∷ error eagain ∷ [])
      30
      empty_inbox
    ≡ some (written.0, empty_inbox, written.1)
unfolding conn_io_cb
written_lem = refl

run : Reach push_json idle written.0
run =
    after answered written.0
      (after told answered
        (after asked_worker told
          (after serving asked_worker
            (after idle serving initial (accepted idle 7 500 10 nobody (omega arith)))
            (io serving asked_worker (pos 7) read (value asked) [] 20 empty_inbox empty_inbox []
              asked_lem))
          (messaged asked_worker a_msg))
        (replied told (some block)))
      (io answered written.0 (pos 7) write (error eagain) (value 10 ∷ error eagain ∷ []) 30
        empty_inbox empty_inbox written.1 written_lem)

told_there : conn_at told.conns 7 ≡ some read_client
unfolding send_rtc_msg new_conn open_conn Lifecycle.create
told_there = refl

told_front : told.q_msg ≡ a_msg ∷ []
unfolding send_rtc_msg new_conn Lifecycle.create
told_front = refl

fits_here :
    (36 ≤ length read_client.querybuf)
    × (length (reply_text push_json a_msg) ≤ max_res_buf)
    × ((b : Bytes) → some block ≡ some b → length b ≡ block_size)
unfolding layout without_nul
fits_here = (
  omega arith,
  omega arith,
  λ b e.
      let same : block ≡ b = cc e in
      ap (λ (x : Bytes). length x) (sym same) ∙ length-replicate {A = ℕ} 4132 0,
)

fits : Fitting push_json told (some block)
fits msg msgs fd c front to_fd to_conn there =
    let m : msg ≡ a_msg = cc (front, told_front) in
    let f : fd ≡ 7 = cc (to_fd, m) in
    let k : c ≡ read_client = cc (there, told_there, f) in rw (m, k) fits_here

all_fit : AtReplies push_json (Fitting push_json) run
unfolding run
all_fit = (((((tt, tt), tt), tt), fits), tt)

abbrev answered_client : TcpConnection toy_libev
answered_client = respond push_json read_client a_msg (some block)

answered_there : conn_at answered.conns 7 ≡ some answered_client
unfolding process_rtc_msg pop_msg response_server_offer send_rtc_msg new_conn open_conn
    Lifecycle.create Connection.create
answered_there = refl

abbrev written_client : TcpConnection toy_libev
written_client = (write_reply answered_client (value 10 ∷ error eagain ∷ []) 30).1

written_there : conn_at written.0.conns 7 ≡ some written_client
unfolding write_reply_to process_rtc_msg pop_msg response_server_offer send_rtc_msg new_conn
    open_conn Lifecycle.create Connection.create
written_there = refl

Reach-Delivers_example :
    sent push_json run 7 ++ pending written_client.reply_list written_client.cur_resp_pos
    ≡ owed push_json run 7
Reach-Delivers_example =
    Reach-Delivers push_json 0 (pos 100) written.0 run 7 written_client all_fit written_there

-- A second client, then the first is silent for too long, and its descriptor is given again.
abbrev two_clients : SignalingWorker toy_libev
two_clients = new_conn serving (pos 8) 600 20 nobody

abbrev timed_out : SignalingWorker toy_libev
timed_out = conn_timer_cb two_clients client 1000000000

abbrev taken_again : SignalingWorker toy_libev
taken_again = new_conn timed_out (pos 7) 700 40 nobody

silent_there : conn_at two_clients.conns 7 ≡ some client
unfolding new_conn open_conn Lifecycle.create Connection.create
silent_there = refl

again : Reach push_json idle taken_again
again =
    after timed_out taken_again
      (after two_clients timed_out
        (after serving two_clients
          (after idle serving initial (accepted idle 7 500 10 nobody (omega arith)))
          (accepted serving 8 600 20 nobody (omega arith)))
        (timer two_clients 7 client 1000000000 silent_there))
      (accepted timed_out 7 700 40 nobody (omega arith))

all_free : AllFree push_json again
unfolding again new_conn open_conn conn_timer_cb process_timeout is_timed_out close_conn
    Lifecycle.create Connection.create closings
all_free = ((((tt, refl), refl), tt), refl)

accepts_twice : accepts push_json again 7 ≡ 2
unfolding again
accepts_twice = refl

closed_once : closings taken_again.closed 7 ≡ 1
unfolding new_conn open_conn conn_timer_cb process_timeout is_timed_out close_conn Lifecycle.create
    Connection.create closings
closed_once = refl

Reach-closings_example :
    accepts push_json again 7
    ≡ closings taken_again.closed 7 + present (conn_at taken_again.conns 7)
Reach-closings_example = Reach-closings push_json 0 (pos 100) taken_again again 7 all_free
