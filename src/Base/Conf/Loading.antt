-- ===== src/Base/Conf/Loading.antt =====
-- conf.cpp: what `Load_Genaral_Conf` has filled in when it reports success.
use rtc_frameworker.Prelude.{
  ◌≤◌, ◌≡◌, [], ◌∷◌, some, arith, length, Bool-cases, inl, inr, Option-cases, ltb,
}
use rtc_frameworker.Messages.{Bytes, done}
use rtc_frameworker.Base.Conf.{Yaml, GeneralConf, try_all, load_general_conf, general_steps}

general_steps-done :
    (yaml : Yaml) (n : yaml.Node) (old new : GeneralConf)
    → try_all (general_steps yaml n) old ≡ (done, new)
    → (yaml.as_string n ("log" ∷ "log_dir" ∷ []) ≡ some new.log_dir)
      × (yaml.as_string n ("log" ∷ "log_name" ∷ []) ≡ some new.log_name)
      × (yaml.as_string n ("log" ∷ "log_level" ∷ []) ≡ some new.log_level)
      × (yaml.as_bool n ("log" ∷ "log_to_stderr" ∷ []) ≡ some new.log_to_stderr)
unfolding general_steps
general_steps-done yaml n old new h = ground arith

-- Success means that the name had 1 to 1024 bytes, the file was loaded, and each of the four fields
-- holds the value of its own key.
pub load_general_conf-done :
    (yaml : Yaml) (file : Bytes) (old new : GeneralConf)
    → load_general_conf yaml file old ≡ (done, new)
    → (1 ≤ length file)
      × (length file ≤ 1024)
      × ((n : yaml.Node) × (yaml.load_file file ≡ some n)
          × (yaml.as_string n ("log" ∷ "log_dir" ∷ []) ≡ some new.log_dir)
          × (yaml.as_string n ("log" ∷ "log_name" ∷ []) ≡ some new.log_name)
          × (yaml.as_string n ("log" ∷ "log_level" ∷ []) ≡ some new.log_level)
          × (yaml.as_bool n ("log" ∷ "log_to_stderr" ∷ []) ≡ some new.log_to_stderr))
unfolding load_general_conf
load_general_conf-done yaml [] old new h = cc
load_general_conf-done yaml (b ∷ bs) old new h = elim (Bool-cases (ltb 1024 (length (b ∷ bs)))) [
  | inl long ↦ cc (rw (long, load_general_conf) at h)
  | inr fits ↦ elim (Option-cases (yaml.load_file (b ∷ bs))) [
    | inl e ↦ cc (rw (fits, e, load_general_conf) at h)
    | inr (n, e) ↦
        let h' : try_all (general_steps yaml n) old ≡ (done, new) =
          rw (fits, e, load_general_conf) at h in
        (
          omega arith,
          ground arith,
          let (a, b', c, d) = general_steps-done yaml n old new h' in (n, e, a, b', c, d),
        )
  ]
]
