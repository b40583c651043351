-- ===== src/Main/Startup.antt =====
-- main.cpp: what is set up when the setup ends, and what a signal asks for.
use rtc_frameworker.Prelude.{◌≡◌, none, some, arith}
use rtc_frameworker.Messages.{Bytes, Ret, done, failed}
use rtc_frameworker.Base.EventLoop.{Libev}
use rtc_frameworker.Base.Conf.{GeneralConf}
use rtc_frameworker.Base.Log.{Opening}
use rtc_frameworker.Server.RtcServer.{RtcServer}
use rtc_frameworker.Server.RtcServer as Rtc
use rtc_frameworker.Server.SignalingServer.{SignalingServer}
use rtc_frameworker.Server.SignalingServer as Signaling
use rtc_frameworker.Main.{
  setup, init_general_conf, init_log, init_signaling_server, init_rtc_server,
}

module _ {ev : Libev} where
  -- A setup that ends well set both servers up and asked their threads to start: no part failed.
  pub setup-done :
      (conf_file : Bytes) (load : Ret × GeneralConf) (o : Opening)
      (signaling : Ret × SignalingServer ev) (rtc : Ret × RtcServer)
      → (setup conf_file load o signaling rtc).0 ≡ done
      → (load.0 ≡ done)
        × (signaling.0 ≡ done)
        × (rtc.0 ≡ done)
        × ((setup conf_file load o signaling rtc).1.signaling_server
            ≡ some (Signaling.start signaling.1).1)
        × ((setup conf_file load o signaling rtc).1.rtc_server ≡ some (Rtc.start rtc.1).1)
  unfolding setup init_general_conf init_log init_signaling_server init_rtc_server
  setup-done conf_file load o signaling rtc h = ground arith

  -- A part that fails is the last that is tried: without a signaling server there is no RTC server,
  -- and the signaling server's threads are not started.
  pub setup-signaling_failed :
      (conf_file : Bytes) (load : Ret × GeneralConf) (o : Opening)
      (signaling : Ret × SignalingServer ev) (rtc : Ret × RtcServer)
      → signaling.0 ≡ failed
      → ((setup conf_file load o signaling rtc).0 ≡ failed)
        × ((setup conf_file load o signaling rtc).1.rtc_server ≡ none)
  unfolding setup init_general_conf init_log init_signaling_server init_rtc_server
  setup-signaling_failed conf_file load o signaling rtc h = ground arith
