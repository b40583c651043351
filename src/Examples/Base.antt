-- ===== src/Examples/Base.antt =====
-- The theorems on base/ applied to concrete inputs.
use rtc_frameworker.Prelude.{
  ℕ, ◌≤◌, ◌≡◌, refl, true, false, List, [], ◌∷◌, none, some, length, codes, ◌⊎◌,
}
use rtc_frameworker.Prelude.Int.{pos}
use rtc_frameworker.Messages.{Bytes, done}
use rtc_frameworker.Base.LockFreeQueue.{create}
use rtc_frameworker.Base.LockFreeQueue.Fifo.{Op, put, get, run, answers, create-run-answers}
use rtc_frameworker.Base.Socket.{
  ServerCalls, Errno, value, error, other, minus_one, create_tcp_server,
}
use rtc_frameworker.Base.Socket.Results.{create_tcp_server_cases}
use rtc_frameworker.Base.Conf.{GeneralConf, general_steps, load_general_conf}
use rtc_frameworker.Base.Conf.Loading.{load_general_conf-done}
use rtc_frameworker.Base.Log.{there, opened_anew, not_opened, XrtcLog, ls_info, ls_error}
use rtc_frameworker.Base.Log.Delivery as Delivery
use rtc_frameworker.Base.Log.Delivery.{Event, logged, rounds}
use rtc_frameworker.Examples.{toy_yaml}

abbrev calls : List (Op ℕ)
calls = get ∷ put 5 ∷ put 6 ∷ get ∷ put 7 ∷ get ∷ get ∷ get ∷ []

create-run-answers_example : run calls (create 0) ≡ some (answers calls [])
create-run-answers_example = create-run-answers 0 calls

abbrev refused : ServerCalls
refused = record {
  socket = value 3;
  setsockopt = error other;
  inet_aton = true;
  bind = value 0;
  listen = value 0;
}

create_tcp_server_cases_example :
    ((fd r : ℕ) × (create_tcp_server [] refused ≡ (pos fd, some fd))
      × (refused.socket ≡ value fd)
      × (refused.setsockopt ≡ value r))
    ⊎ ((e : Errno) × (create_tcp_server [] refused ≡ (minus_one, none))
        × (refused.socket ≡ error e))
    ⊎ ((r : ℕ) × (create_tcp_server [] refused ≡ (minus_one, none))
        × (refused.setsockopt ≡ value r))
    ⊎ ((fd : ℕ) × (e : Errno) × (create_tcp_server [] refused ≡ (minus_one, some fd))
        × (refused.socket ≡ value fd)
        × (refused.setsockopt ≡ error e))
create_tcp_server_cases_example = create_tcp_server_cases [] refused

abbrev blank : GeneralConf
blank = record { log_dir = []; log_level = []; log_name = []; log_to_stderr = false }

abbrev filled : GeneralConf
filled = record {
  log_dir = codes "c";
  log_level = codes "c";
  log_name = codes "c";
  log_to_stderr = true;
}

filled_lem : load_general_conf toy_yaml (codes "c") blank ≡ (done, filled)
unfolding load_general_conf general_steps
filled_lem = refl

load_general_conf-done_example :
    (1 ≤ length (codes "c"))
    × (length (codes "c") ≤ 1024)
    × ((n : Bytes) × (toy_yaml.load_file (codes "c") ≡ some n)
        × (toy_yaml.as_string n ("log" ∷ "log_dir" ∷ []) ≡ some filled.log_dir)
        × (toy_yaml.as_string n ("log" ∷ "log_name" ∷ []) ≡ some filled.log_name)
        × (toy_yaml.as_string n ("log" ∷ "log_level" ∷ []) ≡ some filled.log_level)
        × (toy_yaml.as_bool n ("log" ∷ "log_to_stderr" ∷ []) ≡ some filled.log_to_stderr))
load_general_conf-done_example = load_general_conf-done toy_yaml (codes "c") blank filled filled_lem

abbrev a_log : XrtcLog
a_log = record {
  log_dir = [];
  log_level = [];
  log_name = [];
  out_file = [];
  err_file = [];
  out_is_open = true;
  err_is_open = true;
  sink = some ls_info;
  to_stderr = false;
  log_queue = [];
  err_queue = [];
  log_thread = true;
  running = true;
}

abbrev happened : List Event
happened =
    logged (codes "t") (codes "a") ls_info
    ∷ rounds there not_opened
    ∷ logged (codes "u") (codes "b") ls_error
    ∷ rounds (opened_anew []) there
    ∷ []
