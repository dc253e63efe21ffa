-- ===== src/Firmware.antt =====
-- src/main.c: core0's start-up and main loop, with the watchdog. What a pass meets from outside is
-- an argument: the time at each call that reads the clock, and the liveness counter of core1.
pub mod Watchdog
pub mod Startup
pub mod Update
pub mod Program
pub mod StatusPoll
pub mod Names
mod Tests
use pico2w_grbl_bridge.Base.{
  ℕ, ◌+◌, ◌*◌, Bool, true, false, not, Option, none, some, List, [], ◌∷◌, ltb, ◌==◌, if◌then◌else◌,
}
use pico2w_grbl_bridge.SharedState.Heartbeat.{Heartbeat, core1_tick_count}
use pico2w_grbl_bridge.SharedState.Shared.{Shared, set_connected}
use pico2w_grbl_bridge.WifiConfig.{Wifi, Credentials, poll_pending}
use pico2w_grbl_bridge.WifiConfig
use pico2w_grbl_bridge.WifiConfig.Flash.{CfgRecord}
use pico2w_grbl_bridge.WifiConfig.Bringup.{Boot, wifi_config_bringup}
use pico2w_grbl_bridge.Led
use pico2w_grbl_bridge.Led.{Led}

abbrev pub core1_stall_timeout_ms : ℕ
core1_stall_timeout_ms = 3000

-- `last_core1_tick`, `last_core1_progress`, `core1_flagged_stalled`
pub record Watch : Type 0 where
  pub last_core1_tick : ℕ
  pub last_core1_progress : ℕ
  pub core1_flagged_stalled : Bool

-- What the watchdog part of a pass does: feed it, or take the link for disconnected.
pub record Verdict : Type 0 where
  pub feed : Bool
  pub disconnect : Bool

-- `if (tick != last_core1_tick) { .. }`
unfoldable pub note_progress : ℕ → ℕ → Watch → Watch
note_progress tick now w =
    if not (tick == w.last_core1_tick)
    then record { last_core1_tick = tick; last_core1_progress = now; core1_flagged_stalled = false }
    else w

-- `if (absolute_time_diff_us(..) < ..) .. else if (!core1_flagged_stalled) ..`
unfoldable pub judge : ℕ → Watch → Verdict × Watch
judge now w =
    if ltb now (w.last_core1_progress + core1_stall_timeout_ms * 1000)
    then (record { feed = true; disconnect = false }, w)
    else if not w.core1_flagged_stalled
    then (record { feed = false; disconnect = true }, record w { core1_flagged_stalled = true })
    else (record { feed = false; disconnect = false }, w)

-- both, at the times of the two reads of the clock
unfoldable pub watch : ℕ → ℕ → ℕ → Watch → Verdict × Watch
unfolding note_progress judge
watch tick progress_now now w = judge now (note_progress tick progress_now w)

-- What core0 works on.
pub record Core0 (F : Type 0) : Type 0 where
  pub shared : Shared F
  pub wifi : Wifi
  pub led : Led
  pub watch_state : Watch

pub record Clock : Type 0 where
  pub pending_now : ℕ
  pub led_now : ℕ
  pub progress_now : ℕ
  pub watch_now : ℕ

-- How a pass ends: with the credentials to save before the reboot, from which it does not return,
-- or with whether the watchdog was fed.
pub data Outcome : Type 0 where
  reboot : Credentials → Outcome
  looped : Bool → Outcome

module _ {F : Type 0} where
  -- the loop body behind `wifi_config_poll_pending`
  unfoldable pub drive : Clock → Core0 F → Core0 F × Outcome
  drive k c =
      let (led', heartbeat') = Led.led_task k.led_now c.led c.shared.heartbeat in
      let lit : Shared F = record c.shared { heartbeat = heartbeat' } in
      let (v, watch') =
        watch (core1_tick_count lit.core1_ticks) k.progress_now k.watch_now c.watch_state in
      (
        record c {
          shared = if v.disconnect then set_connected false lit else lit;
          led = led';
          watch_state = watch';
        },
        looped v.feed,
      )

  abbrev finish : Option Credentials → Clock → Core0 F → Core0 F × Outcome
  finish none k c = drive k c
  finish (some creds) k c = (c, reboot creds)

  -- one pass of the `while (true)` loop behind `cyw43_arch_poll`, whose callbacks are those of
  -- src/http_server.c
  unfoldable pub pass : Clock → Core0 F → Core0 F × Outcome
  pass k c =
      let (apply, wifi') = poll_pending k.pending_now c.wifi in
      finish apply k (record c { wifi = wifi' })

  -- from `led_init` to the loop, for what `wifi_config_bringup` leaves
  unfoldable pub startup : ℕ → ℕ → ℕ → Shared F → Wifi → Core0 F
  startup init_now ip_now loop_now s wifi = record {
    shared = s;
    wifi = wifi;
    led = Led.notify_got_ip ip_now (Led.init init_now Led.initial);
    watch_state = record {
      last_core1_tick = core1_tick_count s.core1_ticks;
      last_core1_progress = loop_now;
      core1_flagged_stalled = false;
    };
  }

  -- `main` up to its loop, where core1 has made `s` of the shared state by then: what flash holds,
  -- and what the loop starts with
  unfoldable pub boot_up : Boot → CfgRecord → ℕ → ℕ → ℕ → Shared F → CfgRecord × Core0 F
  unfolding wifi_config_bringup startup
  boot_up b flash init_now ip_now loop_now s =
      let (flash', wifi) = wifi_config_bringup b flash WifiConfig.initial in
      (flash', startup init_now ip_now loop_now s wifi)
