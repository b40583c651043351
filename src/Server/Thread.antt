-- ===== src/Server/Thread.antt =====
-- The std::thread that each worker and each server of xrtcserver/rtcserver/src/server/ keeps a
-- pointer to: what `start`, `join` and the destructor do with it.
use rtc_frameworker.Prelude.{Bool, true, false, Option, none, some, if◌then◌else◌, ◌≡◌, refl}

-- A null pointer, a thread that `join` was not called for, and one that it was.
pub data Thread : Type 0 where
  no_thread joinable joined : Thread

-- The test `if (thread_)`.
abbrev pub has_thread : Thread → Bool
has_thread no_thread = false
has_thread joinable = true
has_thread joined = true

-- `if (thread_ && thread_->joinable()) thread_->join()`, where the argument says whether the thread
-- still runs its event loop. `none` is a call that has not returned yet.
unfoldable pub join_thread : Bool → Thread → Option Thread
join_thread looping no_thread = some no_thread
join_thread looping joined = some joined
join_thread looping joinable = if looping then none else some joined

-- A thread that has left its event loop is joined.
pub join_thread-left :
    (looping : Bool) (t : Thread)
    → looping ≡ false
    → t ≡ joinable
    → join_thread looping t ≡ some joined
unfolding join_thread
join_thread-left looping t l e = rw (l, e) refl

-- `delete thread_`, if there is one. `none` is std::terminate, which the destructor of a thread
-- that was not joined calls.
unfoldable pub delete_thread : Thread → Option Thread
delete_thread no_thread = some no_thread
delete_thread joined = some no_thread
delete_thread joinable = none
