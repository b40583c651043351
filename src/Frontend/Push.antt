-- ===== src/Frontend/Push.antt =====
-- signaling/src/action/push.go: the action that makes a push request of a form, and answers with the
-- offer of the media server.
pub mod Checks
use rtc_frameworker.Prelude.{
  ℕ, Bool, true, false, ◌||◌, List, [], ◌∷◌, Option, none, some, codes, same_bytes, ◌==◌,
  if◌then◌else◌, String,
}
use rtc_frameworker.Prelude.Int.{ℤ, pos, ◌==ℤ◌}
use rtc_frameworker.Messages.{Bytes}
use rtc_frameworker.Frontend.Outcome.{Outcome, returned, failed, panicked, ◌>>=◌}
use rtc_frameworker.Frontend.Text.{parse_uint}
use rtc_frameworker.Frontend.Client.{Client, Exchange, Link}
use rtc_frameworker.Frontend.Xrpc.{call}

abbrev pub param_err : ℕ
param_err = 1

abbrev pub network_err : ℕ
network_err = 2

abbrev pub cmdno_push : ℕ
cmdno_push = 1

pub record XrtcPushReq : Type 0 where
  pub cmdno : ℕ
  pub uid : ℕ
  pub stream_name : Bytes
  pub audio : ℕ
  pub video : ℕ

pub record XrtcPushResp : Type 0 where
  pub err_no : ℤ
  pub err_msg : Bytes
  pub offer : Bytes

-- `comHttpResp`; the data is there in a success only.
pub record ComHttpResp : Type 0 where
  pub error_no : ℕ
  pub error_msg : Bytes
  pub offer : Option Bytes

-- encoding/json: the text of a request, and a response in a text, or `none` for an error.
pub record GoJson : Type 0 where
  pub marshal : XrtcPushReq → Bytes
  pub unmarshal : Bytes → Option XrtcPushResp

-- The values of each key of the form.
abbrev pub Form : Type 0
Form = String → Option (List Bytes)

-- `values[0]` if the key is there, and else the empty text.
unfoldable pub form_value : Form → String → Outcome Bytes
form_value form key = elim (form key) [
  | none ↦ returned []
  | some [] ↦ panicked
  | some (value ∷ _) ↦ returned value
]

-- 0 for an empty text or "0", and else 1.
unfoldable pub flag : Bytes → ℕ
flag text = if same_bytes text [] || same_bytes text (codes "0") then 0 else 1

-- The check of the user's number: `none` where an error was answered. For the number 0 there is no
-- error, so that taking its text panics.
unfoldable pub check_uid : Option ℕ → Outcome (Option ℕ)
check_uid none = returned none
check_uid (some uid) = if uid == 0 then panicked else returned (some uid)

-- The request of a user and a stream name, with the flags of the form.
unfoldable pub with_flags : Form → ℕ → Bytes → Outcome (Option XrtcPushReq)
unfolding form_value flag
with_flags form uid name = form_value form "audio" >>= (λ audio.
    form_value form "video" >>= (λ video. returned (
      some (record {
        cmdno = cmdno_push;
        uid = uid;
        stream_name = name;
        audio = flag audio;
        video = flag video;
      }))))

-- The rest of the checks, behind that of the user.
unfoldable pub with_uid : Form → Option ℕ → Outcome (Option XrtcPushReq)
unfolding form_value with_flags
with_uid form none = returned none
with_uid form (some uid) =
    form_value form "streamName"
    >>= (λ name. if same_bytes name [] then returned none else with_flags form uid name)

-- The request behind the checks of `Execute`: `none` where a parameter error was answered.
unfoldable pub form_request : Form → Outcome (Option XrtcPushReq)
unfolding form_value check_uid with_uid
form_request form =
    form_value form "uid" >>= (λ text. check_uid (parse_uint text) >>= (λ uid. with_uid form uid))

abbrev pub error_response : ℕ → ComHttpResp
error_response number = record {
  error_no = number;
  error_msg = codes "process error";
  offer = none;
}

abbrev pub success_response : Bytes → ComHttpResp
success_response sdp = record { error_no = 0; error_msg = codes "success"; offer = some sdp }

-- The answer to what `Call` returned.
unfoldable pub answer_to : GoJson → Outcome Bytes → Outcome ComHttpResp
answer_to json panicked = panicked
answer_to json (failed e) = returned (error_response network_err)
answer_to json (returned body) = elim (json.unmarshal body) [
  | none ↦ returned (error_response network_err)
  | some resp ↦
      if resp.err_no ==ℤ pos 0
      then returned (success_response resp.offer)
      else returned (error_response network_err)
]

module _ {Addr : Type 0} where
  -- The call of the checked request.
  unfoldable pub proceed :
      GoJson
      → (Addr → ℤ → Option Link)
      → List (Bytes × Client Addr)
      → ℕ
      → Outcome (Option XrtcPushReq)
      → List (Bytes × Client Addr) × Outcome ComHttpResp × Option (Exchange Addr)
  unfolding call answer_to
  proceed json dial clients log_id panicked = (clients, panicked, none)
  proceed json dial clients log_id (failed e) = (clients, failed e, none)
  proceed json dial clients log_id (returned none) =
      (clients, returned (error_response param_err), none)
  proceed json dial clients log_id (returned (some req)) =
      let result = call dial clients (codes "xrtc") (json.marshal req) log_id in
      (result.0, answer_to json result.1, result.2)

  -- `Execute`: the clients behind it, what it answers, and the connection if one was made.
  unfoldable pub execute :
      GoJson
      → (Addr → ℤ → Option Link)
      → List (Bytes × Client Addr)
      → ℕ
      → Form
      → List (Bytes × Client Addr) × Outcome ComHttpResp × Option (Exchange Addr)
  unfolding form_request proceed
  execute json dial clients log_id form = proceed json dial clients log_id (form_request form)
