-- ===== src/Examples/Server.antt =====
-- The theorems on server/ and main.cpp applied to concrete inputs.
use rtc_frameworker.Prelude.{
  ◌<◌, ◌≤◌, ◌≡◌, refl, List, [], ◌∷◌, ◌++◌, some, arith, length, replicate, take, drop, codes,
  length-replicate, length-append, none, ℕ,
}
use rtc_frameworker.Prelude.Int.{pos}
use rtc_frameworker.Messages.{Bytes, Ret, cmdno_push, done}
use rtc_frameworker.Base.Socket.{value}
use rtc_frameworker.Base.Xhead.{layout, view, to_bytes}
use rtc_frameworker.Base.Xhead.Layout.{Fits}
use rtc_frameworker.Server.Connection as Connection
use rtc_frameworker.Server.Connection.{TcpConnection, Slice, state_body}
use rtc_frameworker.Server.Inbox.{Inbox}
use rtc_frameworker.Server.Receive.{process_request, process_query_buffer, loop_fuel}
use rtc_frameworker.Server.Receive.Loop.{
  process_query_buffer-returns, request, process_query_buffer-diverges,
}
use rtc_frameworker.Server.Receive.Reads.{Read, read_all, finished, received}
use rtc_frameworker.Server.Receive.Framing.{read_all-create}
use rtc_frameworker.Server.Receive.Later.{read_all-later}
use rtc_frameworker.Server.Reply.{write_loop, emptied, build_reply}
use rtc_frameworker.Server.Reply.Stream.{write_loop-emptied}
use rtc_frameworker.Platform.{c_string}
use rtc_frameworker.Server.Reply.Buffer.{block_size, build_reply-text, build_reply_overrun}
use rtc_frameworker.Examples.{toy_libev, toy_json, empty_inbox, toy_head, toy_body, Json}

abbrev push_json : Json
push_json = toy_json (pos cmdno_push)

-- A request that comes in two reads.
abbrev pub two_reads : List Read
two_reads =
    record { first = 1; more = take 9 (drop 1 (layout toy_head)); now = 20 }
    ∷ record { first = 0; more = drop 11 (layout toy_head) ++ toy_body; now = 30 }
    ∷ []

pub toy_head-Fits : Fits toy_head
toy_head-Fits = record {
  id = omega arith;
  version = omega arith;
  log_id = omega arith;
  provider = refl;
  magic_num = omega arith;
  reserved = omega arith;
  body_len = omega arith;
}

pub two_reads_lem : received two_reads ≡ layout toy_head ++ toy_body
unfolding layout to_bytes
two_reads_lem = refl

abbrev client : TcpConnection toy_libev
client = Connection.create toy_libev 500 7 4000 10

read_all-create_example :
    let (rtc', r) = process_request push_json 0 client (layout toy_head) toy_body empty_inbox in
    read_all push_json 0 two_reads client empty_inbox
    ≡ some (finished client toy_head 30 (layout toy_head ++ toy_body) r, rtc')
read_all-create_example =
    read_all-create push_json 0 500 7 4000 10 toy_head toy_body two_reads empty_inbox toy_head-Fits
      refl refl two_reads_lem

abbrev two_slices : List Slice
two_slices =
    record { memory = codes "abc"; size = 2 } ∷ record { memory = codes "de"; size = 2 } ∷ []

write_loop-emptied_example :
    write_loop (value 1 ∷ value 1 ∷ value 1 ∷ []) two_slices 1 [] ≡ (emptied, [], 0, codes "bde")
write_loop-emptied_example =
    write_loop-emptied (value 1 ∷ value 1 ∷ value 1 ∷ []) two_slices 1 []
      (omega arith, omega arith, (omega arith, omega arith, tt)) (omega arith)
      ((0, refl), ((0, refl), ((0, refl), tt))) (omega arith)

process_query_buffer-returns_example :
    (r : TcpConnection toy_libev × Inbox × Ret) × (process_query_buffer push_json 0 loop_fuel client
        empty_inbox
      ≡ some r)
unfolding Connection.create
process_query_buffer-returns_example =
    process_query_buffer-returns push_json 0 client empty_inbox (omega arith)

abbrev long_text : Bytes
long_text = replicate 5000 65

abbrev a_block : Bytes
a_block = replicate block_size 0

build_reply-text_example :
    ((build_reply (layout toy_head) toy_body a_block).size
      ≤ length (build_reply (layout toy_head) toy_body a_block).memory)
    × (view (
          take
            (build_reply (layout toy_head) toy_body a_block).size
            (build_reply (layout toy_head) toy_body a_block).memory)
        ≡ record (view (layout toy_head)) { body_len = 2 })
    × (drop 36 (
          take
            (build_reply (layout toy_head) toy_body a_block).size
            (build_reply (layout toy_head) toy_body a_block).memory)
        ≡ toy_body)
unfolding layout to_bytes c_string
build_reply-text_example =
    build_reply-text (layout toy_head) toy_body a_block (omega arith)
      (length-replicate {A = ℕ} block_size 0) (omega arith) refl

build_reply_overrun_example :
    length (build_reply (layout toy_head) long_text a_block).memory
    < (build_reply (layout toy_head) long_text a_block).size
unfolding layout to_bytes
build_reply_overrun_example =
    build_reply_overrun (layout toy_head) long_text a_block (omega arith)
      (length-replicate {A = ℕ} block_size 0) (omega (arith, length-replicate {A = ℕ} 5000 65))
      (omega (arith, length-replicate {A = ℕ} 5000 65))

-- A request that was handled and that only logs, with 65535 bytes behind its header.
abbrev flooded : TcpConnection toy_libev
flooded = record client {
  querybuf = layout (record toy_head { body_len = 0 }) ++ replicate 65535 0;
  bytes_expected = 0;
  bytes_processed = 65535;
  current_state = state_body;
}

flooded_long : 65535 ≤ length flooded.querybuf
flooded_long = omega (
  arith,
  length-append (layout (record toy_head { body_len = 0 })) (replicate 65535 0),
  length-replicate {A = ℕ} 65535 0,
)

flooded_handled : (rtc : Inbox) → (request (toy_json (pos 2)) 0 flooded rtc).1 ≡ done
unfolding process_request
flooded_handled rtc = refl

abbrev fuel_of_nine : ℕ
fuel_of_nine = 9

process_query_buffer-diverges_example :
    process_query_buffer (toy_json (pos 2)) 0 fuel_of_nine flooded empty_inbox ≡ none
process_query_buffer-diverges_example =
    process_query_buffer-diverges (toy_json (pos 2)) 0 flooded refl refl flooded_long
      flooded_handled fuel_of_nine empty_inbox

-- A connection whose request was handled, and a read behind it.
abbrev after_request : TcpConnection toy_libev
after_request = record client {
  querybuf = codes "a request";
  bytes_expected = 2;
  bytes_processed = 65535;
  current_state = state_body;
}

abbrev one_more : List Read
one_more = record { first = 1; more = 2 ∷ []; now = 50 } ∷ []

read_all-later_example :
    read_all push_json 0 one_more after_request empty_inbox
    ≡ some (
      record after_request {
        querybuf = codes "a request" ++ (1 ∷ 2 ∷ []);
        last_interaction_time = 50;
      },
      empty_inbox,
    )
unfolding Connection.create
read_all-later_example =
    read_all-later push_json 0 after_request one_more empty_inbox refl (omega arith)
