-- ===== src/Examples/Frontend.antt =====
-- The theorems on the front end applied to concrete requests and servers.
use rtc_frameworker.Prelude.{
  ℕ, ◌≡◌, ◌↔◌, refl, true, Bool, List, [], ◌∷◌, ◌++◌, Option, none, some, String, codes, length,
  get_elem?, concat, arith, length-replicate, if◌then◌else◌, replicate, ap, false, take, drop,
}
use rtc_frameworker.Prelude.Int.{ℤ, pos}
use rtc_frameworker.Messages.{Bytes}
use rtc_frameworker.Base.Xhead.{layout}
use rtc_frameworker.Frontend.Outcome.{returned, failed, panicked, no_server, unresolved}
use rtc_frameworker.Frontend.Header.{Header, marshal}
use rtc_frameworker.Frontend.Header.Layout.{as_xhead, marshal-layout}
use rtc_frameworker.Frontend.Streams.{Arrivals, read_full}
use rtc_frameworker.Frontend.Packets.{Request, Response, request_header, read_response}
use rtc_frameworker.Frontend.Packets.Cut.{response_in, read_response_cut}
use rtc_frameworker.Frontend.Selector.{
  RoundRobinSelector, addr_at, next_index, pick_server, resolve_all, set_server, new_selector,
}
use rtc_frameworker.Frontend.Selector.Turns.{entered, pick-turn}
use rtc_frameworker.Frontend.Client.{Client, Link, new_client, do_request, dialled}
use rtc_frameworker.Frontend.Client.Calls.{do_request-closes}
use rtc_frameworker.Frontend.Client.Servers.{after_calls, do_request-turn, do_request-unserved}
use rtc_frameworker.Frontend.Push.{Form, GoJson, XrtcPushReq, form_request, form_value, execute}
use rtc_frameworker.Frontend.Push.Checks.{IsValid, form_request-IsValid, execute-zero_uid}
use rtc_frameworker.Frontend.Text.{parse_uint}
use text.Mathlib.Text.{◌==◌ as str_eq}
use rtc_frameworker.Server.Receive.Reads.{Read, received}
use rtc_frameworker.Server.RtcServer.Routing.{route}
use rtc_frameworker.Server.RtcWorker.{offer}
use rtc_frameworker.Server.Journey.{journey}
use rtc_frameworker.Server.Journey.Request.{message}
use rtc_frameworker.Frontend.Selector.{resolve_all, set_server, new_selector}
use rtc_frameworker.Frontend.Client.{exchange}
use rtc_frameworker.Frontend.Xrpc.{find_client}
use rtc_frameworker.Frontend.Push.{success_response}
use rtc_frameworker.Frontend.Journey.{Agree, head_of, push_of, delivered, push-offer}
use rtc_frameworker.Examples.{without_nul, toy_crc, toy_body}
use rtc_frameworker.Examples.Workers.{client_there, push_json, nobody, serving}
use rtc_frameworker.Examples.Journey.{
  one_worker, one_worker-Idle, block, slow, slow-AllProgress, no_replies,
}

abbrev a_header : Header
a_header = request_header 3 2

marshal-layout_example :
    marshal a_header (replicate 40 9) ≡ returned (layout (as_xhead a_header) ++ replicate 4 9)
marshal-layout_example = marshal-layout a_header (replicate 40 9) refl

read_response_cut_example :
    read_response ((1 ∷ 2 ∷ []) ∷ (3 ∷ []) ∷ []) ≡ response_in (1 ∷ 2 ∷ 3 ∷ [])
read_response_cut_example = read_response_cut ((1 ∷ 2 ∷ []) ∷ (3 ∷ []) ∷ [])

abbrev two_servers : RoundRobinSelector ℕ
two_servers = record { addrs = 8 ∷ 9 ∷ []; cur_index = 0 }

pick-turn_example :
    (addr : ℕ) × (get_elem? {A = ℕ} (8 ∷ 9 ∷ []) 1 ≡ some addr)
    × (addr_at (entered 8 two_servers) (next_index (entered 3 two_servers)).1 ≡ returned addr)
    × ((pick_server (entered 3 two_servers)).1 ≡ returned addr)
pick-turn_example = pick-turn two_servers 3 4 (omega arith) refl

-- A name is the address of its length.
abbrev by_length : Bytes → Option ℕ
by_length name = some (length name)

abbrev refused : Bytes → Option ℕ
refused name = none

abbrev names : List Bytes
names = codes "a" ∷ codes "bc" ∷ []

-- A network on which nothing answers.
abbrev silent : ℕ → ℤ → Option Link
silent addr timeout = some (record { takes = 100; arrivals = [] })

abbrev a_request : Request
a_request = record { header = a_header; body = some (7 ∷ 8 ∷ []) }

resolved : resolve_all by_length names ≡ returned (1 ∷ 2 ∷ [])
unfolding resolve_all
resolved = refl

do_request-turn_example :
    let c =
      after_calls silent (new_client by_length names) (a_request ∷ a_request ∷ a_request ∷ []) in
    (server : Bytes) × (addr : ℕ) × (get_elem? names 1 ≡ some server)
    × (by_length server ≡ some addr)
    × ((do_request silent c a_request).1
        ≡ (dialled c addr a_request (silent addr c.connect_timeout)).0)
    × ((do_request silent c a_request).2
        ≡ (dialled c addr a_request (silent addr c.connect_timeout)).1)
do_request-turn_example =
    do_request-turn silent by_length names (1 ∷ 2 ∷ []) (a_request ∷ a_request ∷ a_request ∷ [])
      a_request (omega arith) resolved

not_set : (set_server refused names new_selector).1 ≡ failed unresolved
unfolding set_server
not_set = refl

do_request-unserved_example :
    let result =
      do_request silent
        (after_calls silent (new_client refused names) (a_request ∷ []))
        a_request in
    (result.1 ≡ failed no_server) × (result.2 ≡ none)
do_request-unserved_example =
    do_request-unserved silent refused names unresolved (a_request ∷ []) a_request not_set

-- Nothing arrives behind the request, so that the connection stays open.
left_open :
    (do_request silent (new_client by_length names) a_request).2
    ≡ some (record {
      server = 1;
      dial_timeout = pos 0;
      read_deadline = pos 500000000;
      write_deadline = pos 500000000;
      sent = layout (as_xhead a_header) ++ (7 ∷ 8 ∷ []);
      closed = false;
    })
unfolding do_request new_client layout marshal read_full
left_open = refl

do_request-closes_example : (◌≡◌ {A = Bool} false true) ↔ (
    (resp : Response) × ((do_request silent (new_client by_length names) a_request).1
      ≡ returned resp))
do_request-closes_example =
    do_request-closes silent (new_client by_length names) a_request _ left_open

-- A form with the values of the four keys.
abbrev a_form : String → Form
a_form uid key =
    if str_eq key "uid"
    then some (codes uid ∷ [])
    else if str_eq key "streamName"
    then some (toy_body ∷ [])
    else some (codes "1" ∷ [])

abbrev a_req : XrtcPushReq
a_req = record { cmdno = 1; uid = 7; stream_name = toy_body; audio = 1; video = 1 }

checked : form_request (a_form "7") ≡ returned (some a_req)
unfolding form_request parse_uint
checked = refl

form_request-IsValid_example :
    (text : Bytes) × IsValid a_req
    × (form_value (a_form "7") "uid" ≡ returned text)
    × (parse_uint text ≡ some 7)
    × (form_value (a_form "7") "streamName" ≡ returned toy_body)
form_request-IsValid_example = form_request-IsValid (a_form "7") a_req checked

-- A text is the name of the stream, and every response is a success.
abbrev go : GoJson
go = record {
  marshal = λ req. req.stream_name;
  unmarshal =
      λ body. some (record { err_no = pos 0; err_msg = codes "process success"; offer = offer });
}

execute-zero_uid_example : execute go silent [] 5 (a_form "00") ≡ ([], panicked, none)
execute-zero_uid_example = execute-zero_uid go silent [] 5 1 (a_form "00") [] refl

-- Each byte in a piece of its own.
bytewise : Bytes → Arrivals
bytewise [] = []
bytewise (b ∷ bs) = (b ∷ []) ∷ bytewise bs

concat-bytewise : (bytes : Bytes) → concat (bytewise bytes) ≡ bytes
unfolding bytewise
concat-bytewise [] = refl
concat-bytewise (b ∷ bs) = ap (◌∷◌ b) (concat-bytewise bs)

abbrev request_bytes : Bytes
request_bytes = layout (head_of 3 toy_body) ++ toy_body

-- The request in two reads.
abbrev its_reads : List Read
its_reads =
    record { first = 0; more = take 20 (drop 1 request_bytes); now = 20 }
    ∷ record { first = 0; more = drop 22 request_bytes; now = 30 }
    ∷ []

arrived : received its_reads ≡ request_bytes
unfolding layout
arrived = refl

abbrev answered : Arrivals
answered = delivered bytewise (
    journey push_json toy_crc serving one_worker 7 its_reads
      (route toy_crc 1 (message (push_of a_req) serving.worker_id 500 7 3)) block (slow 100) 40)

abbrev one_client : Client ℕ
one_client = new_client by_length names

one_Agree : Agree go push_json a_req toy_body
one_Agree = record {
  parses = refl;
  says = record { cmdno = refl; uid = refl; stream_name = refl; audio = refl; video = refl };
  reads = refl;
}

picks_first : (pick_server one_client.selector).1 ≡ returned 1
unfolding new_client pick_server
picks_first = refl

found : find_client (codes "xrpc.xrtc") ((codes "xrpc.xrtc", one_client) ∷ []) ≡ some one_client
unfolding find_client
found = refl

abbrev network : ℕ → ℤ → Option Link
network addr timeout = some (record { takes = 100; arrivals = answered })

push-offer_example :
    let result = execute go network ((codes "xrpc.xrtc", one_client) ∷ []) 3 (a_form "7") in
    (result.1 ≡ returned (success_response offer))
    × (result.2 ≡ some (exchange one_client 1 (received its_reads) true))
unfolding without_nul
push-offer_example =
    push-offer push_json toy_crc go network ((codes "xrpc.xrtc", one_client) ∷ []) one_client 1 100
      bytewise (a_form "7") a_req 3 serving one_worker 1 6 500 10 40 nobody its_reads toy_body block
      (slow 100) checked (omega arith) (omega arith) found picks_first refl concat-bytewise
      (omega arith) one_Agree arrived no_replies client_there one_worker-Idle
      (length-replicate {A = ℕ} 4132 0) (omega arith) (slow-AllProgress 100) (omega arith)
