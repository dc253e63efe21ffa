-- ===== src/Firmware/Startup.antt =====
-- The LED behind the start-up.
use pico2w_grbl_bridge.Base.{
  none, some, Option, true, false, some, ap, false, Option, Bool, true, ℕ, ◌≡◌, ◌≢◌, refl, arith,
  List, [], ◌∷◌,
}
use pico2w_grbl_bridge.SharedState.Heartbeat.{take_led_pulse, Heartbeat}
use pico2w_grbl_bridge.SharedState.Shared.{Shared}
use pico2w_grbl_bridge.WifiConfig.{Wifi}
use pico2w_grbl_bridge.Led.{
  task_normal, init, task_got_ip, notify_got_ip, Led, Phase, boot, got_ip, normal, led_task,
  task_in,
}
use pico2w_grbl_bridge.Firmware.{
  finish, poll_pending, Credentials, Core0, Clock, drive, pass, startup,
}

abbrev past_boot : Phase → Bool
past_boot boot = false
past_boot got_ip = true
past_boot normal = true

task_in-past_boot :
    (p : Phase) (now : ℕ) (l : Led) (h : Heartbeat)
    → past_boot p ≡ true
    → past_boot l.phase ≡ true
    → past_boot (task_in p now l h).0.phase ≡ true
unfolding task_got_ip task_normal take_led_pulse
task_in-past_boot boot now l h q e = cc
task_in-past_boot got_ip now l h q e = ground arith
task_in-past_boot normal now l h q e = ground arith

module _ {F : Type 0} where
  -- the passes of the loop, whether or not the watchdog or a reboot would end it
  unfoldable pub run : List Clock → Core0 F → Core0 F
  run [] c = c
  run (k ∷ ks) c = run ks (pass k c).0

  drive-past_boot :
      (k : Clock) (c : Core0 F)
      → past_boot c.led.phase ≡ true
      → past_boot (drive k c).0.led.phase ≡ true
  unfolding drive led_task
  drive-past_boot k c e = task_in-past_boot c.led.phase k.led_now c.led c.shared.heartbeat e e

  finish-past_boot :
      (apply : Option Credentials) (k : Clock) (c : Core0 F)
      → past_boot c.led.phase ≡ true
      → past_boot (finish apply k c).0.led.phase ≡ true
  finish-past_boot none k c e = drive-past_boot k c e
  finish-past_boot (some creds) k c e = e

  run-past_boot :
      (ks : List Clock) (c : Core0 F)
      → past_boot c.led.phase ≡ true
      → past_boot (run ks c).led.phase ≡ true
  unfolding run pass
  run-past_boot [] c e = e
  run-past_boot (k ∷ ks) c e = run-past_boot ks (pass k c).0 (
      finish-past_boot (poll_pending k.pending_now c.wifi).0 k
        (record c { wifi = (poll_pending k.pending_now c.wifi).1 }) e)

  -- Whatever the bring-up leaves and however often core0's loop runs, the LED is past its boot
  -- phase: the fast blink of that phase is never shown.
  run-startup-phase :
      (ks : List Clock) (init_now ip_now loop_now : ℕ) (s : Shared F) (wifi : Wifi)
      → (run ks (startup init_now ip_now loop_now s wifi)).led.phase ≢ boot
  unfolding startup notify_got_ip init
  run-startup-phase ks init_now ip_now loop_now s wifi e =
      let past = run-past_boot ks (startup init_now ip_now loop_now s wifi) refl in
      let c : past_boot (run ks (startup init_now ip_now loop_now s wifi)).led.phase ≡ false =
        ap past_boot e in
      cc
