-- ===== src/Base/Log.antt =====
-- xrtcserver/rtcserver/src/base/log.hpp and log.cpp: log messages wait in two queues until a thread
-- writes them to two files. The two mutexes make each queue operation and each round's drain of a
-- queue one step; the texts of time stamps are an argument.
pub mod Delivery
use rtc_frameworker.Prelude.{
  ℕ, String, Bool, true, false, ◌&&◌, not, Option, none, some, List, [], ◌∷◌, ◌++◌, concat,
  if◌then◌else◌, same_bytes, codes,
}
use rtc_frameworker.Messages.{Bytes, Ret, done, failed}

-- rtc::LoggingSeverity, in its order.
pub data Severity : Type 0 where
  ls_verbose ls_info ls_warning ls_error ls_none : Severity

-- `severity >= rtc::WARNING`.
abbrev pub at_least_warning : Severity → Bool
at_least_warning ls_verbose = false
at_least_warning ls_info = false
at_least_warning _ = true

unfoldable pub get_log_severity : Bytes → Severity
get_log_severity level =
    if same_bytes level (codes "INFO")
    then ls_info
    else if same_bytes level (codes "WARNING")
    then ls_warning
    else if same_bytes level (codes "ERROR")
    then ls_error
    else if same_bytes level (codes "VERBOSE")
    then ls_verbose
    else if same_bytes level (codes "NONE")
    then ls_none
    else ls_info

-- Each file of the log directory has its bytes, and whether it is open. `sink` is the severity from
-- which the logging library hands its messages on, once it was told; `to_stderr` is its flag.
pub record XrtcLog : Type 0 where
  pub log_dir : Bytes
  pub log_level : Bytes
  pub log_name : Bytes
  pub out_file : Bytes
  pub err_file : Bytes
  pub out_is_open : Bool
  pub err_is_open : Bool
  pub sink : Option Severity
  pub to_stderr : Bool
  pub log_queue : List Bytes
  pub err_queue : List Bytes
  pub log_thread : Bool
  pub running : Bool

abbrev pub endl : Bytes
endl = 10 ∷ []

unfoldable pub create : Bytes → Bytes → Bytes → XrtcLog
create dir level name = record {
  log_dir = dir;
  log_level = level;
  log_name = name;
  out_file = [];
  err_file = [];
  out_is_open = false;
  err_is_open = false;
  sink = none;
  to_stderr = false;
  log_queue = [];
  err_queue = [];
  log_thread = false;
  running = false;
}

-- What the system answers: mkdir succeeded or the directory exists, and each file if it was opened
-- for appending, with what it held.
pub record Opening : Type 0 where
  pub dir_made : Bool
  pub dir_exists : Bool
  pub out_open : Bool
  pub err_open : Bool
  pub out_held : Bytes
  pub err_held : Bytes

unfoldable pub init_log : XrtcLog → Opening → Ret × XrtcLog
unfolding get_log_severity
init_log l o =
    let added = record l { sink = some (get_log_severity l.log_level) } in
    let out = record added { out_file = o.out_held; out_is_open = true } in
    if not o.dir_made && not o.dir_exists
    then (failed, added)
    else if not o.out_open
    then (failed, added)
    else if not o.err_open
    then (failed, out)
    else (done, record out { err_file = o.err_held; err_is_open = true })

unfoldable pub set_log_to_stderr : XrtcLog → Bool → XrtcLog
set_log_to_stderr l flag = record l { to_stderr = flag }

-- The thread's body is `round`, below.
unfoldable pub start_log_thread : XrtcLog → Ret × XrtcLog
start_log_thread l =
    if l.running then (failed, l) else (done, record l { running = true; log_thread = true })

-- `while (!queue.empty())`: the text that the pops give, in order.
unfoldable pub drain : List Bytes → Bytes → Bytes
drain [] ss = ss
drain (m ∷ q) ss = drain q (ss ++ m)

-- What a round finds of a file: stat(2) finds it, or it does not, and opening it for appending
-- succeeds, with what the file then holds, or fails.
pub data Found : Type 0 where
  there : Found
  opened_anew : (held : Bytes) → Found
  not_opened : Found

-- A file's bytes, and whether the stream has it open, behind that.
unfoldable pub reopen : Found → Bytes × Bool → Bytes × Bool
reopen there file = file
reopen (opened_anew held) file = (held, true)
reopen not_opened (bytes, is_open) = (bytes, false)

-- The text of a queue that is not empty goes to its file with a line end. A stream that has no file
-- open drops it.
unfoldable pub flush_queue : List Bytes → Bytes × Bool → Bytes × Bool
unfolding drain
flush_queue [] file = file
flush_queue (m ∷ q) (bytes, true) = (bytes ++ (drain (m ∷ q) [] ++ endl), true)
flush_queue (m ∷ q) (bytes, false) = (bytes, false)

-- One round of the log thread, from what it finds of the two files.
unfoldable pub round : XrtcLog → Found → Found → XrtcLog
unfolding reopen flush_queue
round l out err =
    let out_file = flush_queue l.log_queue (reopen out (l.out_file, l.out_is_open)) in
    let err_file = flush_queue l.err_queue (reopen err (l.err_file, l.err_is_open)) in
    record l {
      out_file = out_file.0;
      out_is_open = out_file.1;
      err_file = err_file.0;
      err_is_open = err_file.1;
      log_queue = [];
      err_queue = [];
    }

-- The thread leaves its loop when it next reads the flag; `join` waits for that.
unfoldable pub stop_log_thread : XrtcLog → XrtcLog
stop_log_thread l = record l { running = false; log_thread = false }

-- The files are closed; the sink stays with the logging library.
unfoldable pub destroy : XrtcLog → XrtcLog
unfolding stop_log_thread
destroy l = record (stop_log_thread l) { out_is_open = false; err_is_open = false }

-- `none` is a call that waits for the thread, which goes on while its flag is set.
unfoldable pub join_log_thread : XrtcLog → Option XrtcLog
join_log_thread l = if l.log_thread && l.running then none else some l

unfoldable pub on_log_message : XrtcLog → Bytes → Bytes → Severity → XrtcLog
on_log_message l stamp message severity =
    let line = stamp ++ (b' ' ∷ b'-' ∷ b' ' ∷ message) in
    if at_least_warning severity
    then record l { err_queue = l.err_queue ++ line ∷ [] }
    else record l { log_queue = l.log_queue ++ line ∷ [] }
