-- ===== src/Main.antt =====
-- xrtcserver/rtcserver/src/main.cpp: the order in which the parts are set up, and the signals.
pub mod Startup
pub mod Shutdown
use rtc_frameworker.Prelude.{
  ℕ, String, ◌==◌, ◌||◌, Bool, true, false, List, [], ◌∷◌, Option, none, some, if◌then◌else◌,
}
use rtc_frameworker.Messages.{Bytes, Ret, done, failed}
use rtc_frameworker.Base.EventLoop.{Libev}
use rtc_frameworker.Base.Conf.{GeneralConf}
use rtc_frameworker.Base.Log.{XrtcLog, Opening}
use rtc_frameworker.Base.Log as Log
use rtc_frameworker.Server.RtcServer.{RtcServer}
use rtc_frameworker.Server.RtcServer as Rtc
use rtc_frameworker.Server.SignalingServer.{SignalingServer}
use rtc_frameworker.Server.SignalingServer as Signaling

-- The global pointers.
pub record Globals (ev : Libev) : Type 0 where
  pub conf : Option GeneralConf
  pub log : Option XrtcLog
  pub signaling_server : Option (SignalingServer ev)
  pub rtc_server : Option RtcServer

-- A call through a global pointer that is not null.
abbrev pub on_some : {A : Type 0} → (A → A) → Option A → Option A
on_some f none = none
on_some f (some a) = some (f a)

module _ {ev : Libev} where
  -- `load` is what Load_Genaral_Conf makes of the new object.
  unfoldable pub init_general_conf : Globals ev → Bytes → Ret × GeneralConf → Ret × Globals ev
  init_general_conf g [] load = (failed, g)
  init_general_conf g (b ∷ bs) (r, conf) = (r, record g { conf = some conf })

  unfoldable pub init_log : Globals ev → GeneralConf → Opening → Ret × Globals ev
  init_log g conf o =
      let (r, l) = Log.init_log (Log.create conf.log_dir conf.log_level conf.log_name) o in
      elim r [
        | failed ↦ (failed, record g { log = some l })
        | done ↦ (done, record g { log = some (Log.start_log_thread l).1 })
      ]

  -- The two servers, from what their `Init` makes of a new object.
  unfoldable pub init_signaling_server : Globals ev → Ret × SignalingServer ev → Ret × Globals ev
  init_signaling_server g (r, s) = (r, record g { signaling_server = some s })

  unfoldable pub init_rtc_server : Globals ev → Ret × RtcServer → Ret × Globals ev
  init_rtc_server g (r, s) = (r, record g { rtc_server = some s })

  -- The setup of `main` up to the two `join` calls: each part in turn, until one fails. What each
  -- `Init` made of its new object is an argument.
  unfoldable pub setup :
      Bytes
      → Ret × GeneralConf
      → Opening
      → Ret × SignalingServer ev
      → Ret × RtcServer
      → Ret × Globals ev
  unfolding init_general_conf init_log init_signaling_server init_rtc_server
  setup conf_file load o signaling rtc =
      let g : Globals ev = record {
        conf = none;
        log = none;
        signaling_server = none;
        rtc_server = none;
      } in
      let (r1, g1) = init_general_conf g conf_file load in
      let (r2, g2) = init_log g1 load.1 o in
      let told = record g2 {
        log = on_some (λ l. Log.set_log_to_stderr l load.1.log_to_stderr) g2.log;
      } in
      let (r3, g3) = init_signaling_server told signaling in
      let (r4, g4) = init_rtc_server g3 rtc in
      elim r1 [
        | failed ↦ (failed, g1)
        | done ↦ elim r2 [
          | failed ↦ (failed, g2)
          | done ↦ elim r3 [
            | failed ↦ (failed, g3)
            | done ↦ elim r4 [
              | failed ↦ (failed, g4)
              | done ↦ (
                done,
                record g4 {
                  signaling_server = on_some (λ s. (Signaling.start s).1) g4.signaling_server;
                  rtc_server = on_some (λ s. (Rtc.start s).1) g4.rtc_server;
                },
              )
            ]
          ]
        ]
      ]

  -- SIGINT is 2 and SIGTERM is 15.
  unfoldable pub process_signal : Globals ev → ℕ → Globals ev
  process_signal g sig =
      if sig == 2 || sig == 15
      then record g {
        signaling_server = on_some Signaling.stop g.signaling_server;
        rtc_server = on_some Rtc.stop g.rtc_server;
      }
      else g
