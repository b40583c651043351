-- ===== src/Base/Conf.antt =====
-- xrtcserver/rtcserver/src/base/conf.hpp and conf.cpp, and what the servers' configuration loading
-- shares with it: a `try` block of assignments from YAML nodes. yaml-cpp is the interface `Yaml`.
pub mod Loading
use rtc_frameworker.Prelude.{
  ℕ, String, Bool, true, false, ◌||◌, List, [], ◌∷◌, Option, none, some, ltb, length, if◌then◌else◌,
}
use rtc_frameworker.Prelude.Int.{ℤ}
use rtc_frameworker.Messages.{Bytes, Ret, done, failed}

-- `none` is a `YAML::Exception`. A value is named by the keys that lead to it.
pub record Yaml : Type 1 where
  pub Node : Type 0
  pub load_file : Bytes → Option Node
  pub as_string : Node → List String → Option Bytes
  pub as_int : Node → List String → Option ℤ
  pub as_bool : Node → List String → Option Bool

-- The assignments of a `try` block in order. A throw keeps what was assigned before it.
abbrev pub try_all : {S : Type 0} → List (S → Option S) → S → Ret × S
try_all [] s = (done, s)
try_all (f ∷ fs) s = elim (f s) [ none ↦ (failed, s) | some s' ↦ try_all fs s' ]

-- One assignment of a value that may throw.
abbrev pub assign : {A S : Type 0} → Option A → (S → A → S) → S → Option S
assign none put s = none
assign (some a) put s = some (put s a)

pub record GeneralConf : Type 0 where
  pub log_dir : Bytes
  pub log_level : Bytes
  pub log_name : Bytes
  pub log_to_stderr : Bool

module _ (yaml : Yaml) where
  unfoldable pub general_steps : yaml.Node → List (GeneralConf → Option GeneralConf)
  general_steps n =
      assign (yaml.as_string n ("log" ∷ "log_dir" ∷ [])) (λ c v. record c { log_dir = v })
      ∷ assign (yaml.as_string n ("log" ∷ "log_name" ∷ [])) (λ c v. record c { log_name = v })
      ∷ assign (yaml.as_string n ("log" ∷ "log_level" ∷ [])) (λ c v. record c { log_level = v })
      ∷ assign (yaml.as_bool n ("log" ∷ "log_to_stderr" ∷ []))
          (λ c v. record c { log_to_stderr = v })
      ∷ []

  abbrev pub bad_file_name : Bytes → Bool
  bad_file_name [] = true
  bad_file_name (b ∷ bs) = ltb 1024 (length (b ∷ bs))

  unfoldable pub load_general_conf : Bytes → GeneralConf → Ret × GeneralConf
  load_general_conf conf_file conf =
      if bad_file_name conf_file then (failed, conf) else elim (yaml.load_file conf_file) [
        | none ↦ (failed, conf)
        | some n ↦ try_all (general_steps n) conf
      ]
