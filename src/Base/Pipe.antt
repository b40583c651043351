-- ===== src/Base/Pipe.antt =====
-- The pipe on which each server and worker is notified: pipe(2), with one int to a message.
use rtc_frameworker.Prelude.{List, [], ◌∷◌, ◌++◌, Bool, true, if◌then◌else◌}
use rtc_frameworker.Prelude.Int.{ℤ}
use rtc_frameworker.Messages.{Ret, done, failed}

-- `accepts` is the kernel's choice: whether write(2) takes a whole int when these are unread.
pub record Pipe : Type 0 where
  pub unread : List ℤ
  pub accepts : List ℤ → Bool

abbrev pub roomy : Pipe
roomy = record { unread = []; accepts = λ _. true }

-- `write(fd, &msg, sizeof(msg))`, and whether it wrote four bytes.
unfoldable pub send : Pipe → ℤ → Pipe × Ret
send p msg =
    if p.accepts p.unread then (record p { unread = p.unread ++ msg ∷ [] }, done) else (p, failed)
