-- ===== src/Base/Log/Delivery.antt =====
-- log.cpp: what the messages and the rounds of the log thread make of each file and its queue.
use rtc_frameworker.Prelude.{
  ◌≡◌, sym, ◌∙◌, Bool, true, false, List, [], ◌∷◌, ◌++◌, concat, append_assoc, append-nil,
  if◌then◌else◌, not,
}
use rtc_frameworker.Messages.{Bytes}
use rtc_frameworker.Base.Log.{
  XrtcLog, Severity, at_least_warning, endl, drain, round, Found, reopen, on_log_message,
}

-- What happens to a log: a message, or a round of the thread, with what it finds of the files.
pub data Event : Type 0 where
  logged : (stamp message : Bytes) → Severity → Event
  rounds : (out err : Found) → Event

pub step : XrtcLog → Event → XrtcLog
step l (logged stamp message severity) = on_log_message l stamp message severity
step l (rounds out err) = round l out err

pub run : XrtcLog → List Event → XrtcLog
run l [] = l
run l (e ∷ es) = run (step l e) es

abbrev pub line : Bytes → Bytes → Bytes
line stamp message = stamp ++ (b' ' ∷ b'-' ∷ b' ' ∷ message)

-- The events whose message belongs to the error file (`true`) or to the other one.
abbrev belongs : Bool → Severity → Bool
belongs true s = at_least_warning s
belongs false s = not (at_least_warning s)

-- What a round finds of that file.
abbrev found : Bool → Found → Found → Found
found true out err = err
found false out err = out

-- What waits goes to the file as one line, if it is open.
abbrev batch : List Bytes → Bytes × Bool → Bytes × Bool
batch [] file = file
batch (m ∷ ms) (bytes, is_open) =
    (if is_open then bytes ++ (concat (m ∷ ms) ++ endl) else bytes, is_open)

-- A file and its queue as the events make them.
pub expected :
    Bool → List Event → (file : Bytes × Bool) (pending : List Bytes) → (Bytes × Bool) × List Bytes
expected which [] file pending = (file, pending)
expected which (logged stamp message s ∷ es) file pending =
    expected which es file (if belongs which s then pending ++ line stamp message ∷ [] else pending)
expected which (rounds out err ∷ es) file pending =
    expected which es (batch pending (reopen (found which out err) file)) []

pub drain-concat : (q : List Bytes) (ss : Bytes) → drain q ss ≡ ss ++ concat q
unfolding drain
drain-concat [] ss = sym (append-nil ss)
drain-concat (m ∷ q) ss = drain-concat q (ss ++ m) ∙ append_assoc ss m (concat q)

-- The two files with their streams, and the queues in front of them.
abbrev pub out : XrtcLog → (Bytes × Bool) × List Bytes
out l = ((l.out_file, l.out_is_open), l.log_queue)

abbrev pub err : XrtcLog → (Bytes × Bool) × List Bytes
err l = ((l.err_file, l.err_is_open), l.err_queue)
