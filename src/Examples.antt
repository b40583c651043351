-- ===== src/Examples.antt =====
-- Concrete libraries and objects on which the theorems are applied.
pub mod Base
pub mod Server
pub mod Workers
pub mod Queue
pub mod Setup
pub mod Journey
pub mod Delivery
pub mod Ending
pub mod Frontend
use rtc_frameworker.Prelude.{
  inl, inr, Bool-cases, ℕ, ◌+◌, ◌%◌, ◌^◌, ◌<◌, ◌≡◌, refl, Bool, true, false, List, [], ◌∷◌, ◌++◌,
  Option, none, some, arith, length, replicate, codes, Bool-cases, if◌then◌else◌, ◌==◌, ap,
}
use rtc_frameworker.Prelude.Int.{ℤ, pos}
use rtc_frameworker.Messages.{Bytes}
use rtc_frameworker.Platform.{Json, Crc, c_string}
use rtc_frameworker.Base.Conf.{Yaml}
use rtc_frameworker.Base.EventLoop.{Libev}
use rtc_frameworker.Base.Pipe.{roomy}
use rtc_frameworker.Base.Xhead.{Xhead, xhead_magic}
use rtc_frameworker.Server.Inbox.{Inbox}

-- A watcher with its descriptor, its events and whether it is active.
pub record ToyIo : Type 0 where
  pub fd : ℤ
  pub events : ℕ
  pub active : Bool

abbrev pub toy_libev : Libev
toy_libev = record {
  Io = ToyIo;
  Timer = Bool;
  Sec = ℕ;
  io_init = record { fd = pos 0; events = 0; active = false };
  io_set = λ w fd m. record w { fd = fd; events = m };
  io_start = λ w. record w { active = true };
  io_stop = λ w. record w { active = false };
  io_active = λ w. w.active;
  io_events = λ w. w.events;
  io_fd = λ w. w.fd;
  timer_init = false;
  timer_set = λ t a b. t;
  timer_set_repeat = λ t s. t;
  timer_start = λ t. true;
  timer_again = λ t. true;
  timer_stop = λ t. false;
  timer_active = λ t. t;
  zero_sec = 0;
  to_sec = λ n. n;
  init_inactive = refl;
  set_events = λ w fd m h. omega arith;
  set_fd = λ w fd m. refl;
  start_active = λ w. refl;
  start_events = λ w. refl;
  start_fd = λ w. refl;
  stop_active = λ w. refl;
  again_active = λ t s. refl;
  timer_start_active = λ t. refl;
  timer_stop_active = λ t. refl;
}

-- A document is its text; every number in it is the command, and every string the whole text.
-- A text without its NULs.
unfoldable pub without_nul : Bytes → Bytes
without_nul [] = []
without_nul (b ∷ bs) = let rest = without_nul bs in if b == 0 then rest else b ∷ rest

pub without_nul_lem : (bs : Bytes) → c_string (without_nul bs) ≡ without_nul bs
unfolding c_string without_nul
without_nul_lem [] = refl
without_nul_lem (b ∷ bs) = elim (Bool-cases (b == 0)) [
  | inl e ↦ rw e (without_nul_lem bs)
  | inr e ↦ rw (e, e) (ap (λ t. b ∷ t) (without_nul_lem bs))
]

abbrev pub toy_json : ℤ → Json
toy_json cmdno = record {
  Value = Bytes;
  parse = λ text. some text;
  as_int = λ v key. some cmdno;
  as_uint64 = λ v key. some 7;
  as_string = λ v key. some v;
  write = λ err_no err_msg sdp. without_nul (err_msg ++ sdp);
  escapes = λ err_no err_msg sdp. without_nul_lem (err_msg ++ sdp);
}

abbrev pub toy_crc : Crc
toy_crc = record { compute = λ s. length s % 2 ^ 32; fits = λ s. omega arith }

abbrev pub toy_yaml : Yaml
toy_yaml = record {
  Node = Bytes;
  load_file = λ file. some file;
  as_string = λ n keys. some n;
  as_int = λ n keys. some (pos 2);
  as_bool = λ n keys. some true;
}

abbrev pub empty_inbox : Inbox
empty_inbox = record { q_msg = []; notify_pipe = roomy }

abbrev pub toy_head : Xhead
toy_head = record {
  id = 1;
  version = 2;
  log_id = 3;
  provider = replicate 16 0;
  magic_num = xhead_magic;
  reserved = 0;
  body_len = 2;
}

abbrev pub toy_body : Bytes
toy_body = codes "ab"
