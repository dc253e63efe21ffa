-- ===== src/WifiConfig.antt =====
-- src/wifi_config.h and the pending update of src/wifi_config.c. The text fields are the strings
-- that their buffers hold.
pub mod Flash
pub mod Bringup
use pico2w_grbl_bridge.Base.{
  ℕ, ◌+◌, ◌*◌, Bool, true, false, ◌&&◌, Option, none, some, [], leb, if◌then◌else◌, Bytes,
}

abbrev pub wifi_ssid_max_len : ℕ
wifi_ssid_max_len = 32

abbrev pub wifi_pass_max_len : ℕ
wifi_pass_max_len = 64

-- `wifi_credentials_t`
pub record Credentials : Type 0 where
  pub ssid : Bytes
  pub password : Bytes

pub data Mode : Type 0 where
  sta ap : Mode

-- the statics `current_mode`, `ap_ssid`, `pending_apply`, `pending_creds`, `pending_deadline`
pub record Wifi : Type 0 where
  pub current_mode : Mode
  pub ap_ssid : Bytes
  pub pending_apply : Bool
  pub pending_creds : Credentials
  pub pending_deadline : ℕ

abbrev pub initial : Wifi
initial = record {
  current_mode = ap;
  ap_ssid = [];
  pending_apply = false;
  pending_creds = record { ssid = []; password = [] };
  pending_deadline = 0;
}

-- `wifi_config_schedule_apply`, at time `now` in microseconds
unfoldable pub schedule_apply : Credentials → ℕ → ℕ → Wifi → Wifi
schedule_apply creds delay_ms now w = record w {
  pending_creds = creds;
  pending_deadline = now + delay_ms * 1000;
  pending_apply = true;
}

-- `wifi_config_poll_pending`: `some` holds the credentials that `wifi_config_apply_and_reboot`,
-- which does not return, is called with.
unfoldable pub poll_pending : ℕ → Wifi → Option Credentials × Wifi
poll_pending now w =
    if w.pending_apply && leb w.pending_deadline now
    then (some w.pending_creds, record w { pending_apply = false })
    else (none, w)
