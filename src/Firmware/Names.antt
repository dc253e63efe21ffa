-- ===== src/Firmware/Names.antt =====
-- The access point's name fits its buffer from the start on, as the HTTP server's theorems ask.
use pico2w_grbl_bridge.Base.{ℕ, ◌≤◌, ◌≡◌, none, some, arith, length, Option, Bool, Bytes}
use pico2w_grbl_bridge.Floats.{Floats}
use pico2w_grbl_bridge.SharedState.Shared.{Shared}
use pico2w_grbl_bridge.WifiConfig
use pico2w_grbl_bridge.WifiConfig.{Wifi, Credentials, poll_pending, schedule_apply}
use pico2w_grbl_bridge.WifiConfig.Flash.{CfgRecord, wifi_config_load}
use pico2w_grbl_bridge.WifiConfig.Bringup.{
  Boot, choose_creds, connect, start_ap_mode, wifi_config_bringup,
}
use pico2w_grbl_bridge.WifiConfig.Bringup.Start.{length-ap_ssid_of}
use pico2w_grbl_bridge.Api.Dispatch.{credentials_of, Site, api_dispatch, handle_wifi_post, accept}
use pico2w_grbl_bridge.Firmware.{Core0, Clock, pass, drive, boot_up}

length-connect :
    (b : Boot) (o : Option (Credentials × Bool)) (flash : CfgRecord) (w : Wifi)
    → length w.ap_ssid ≤ 31
    → length (connect b o flash w).1.ap_ssid ≤ 31
unfolding connect start_ap_mode
length-connect b none flash w h = length-ap_ssid_of b.id
length-connect b (some (creds, from_flash)) flash w h = ground (arith, length-ap_ssid_of b.id)

pub length-boot_up :
    {F : Type 0} (b : Boot) (flash : CfgRecord) (init_now ip_now loop_now : ℕ) (s : Shared F)
    → length (boot_up b flash init_now ip_now loop_now s).1.wifi.ap_ssid ≤ 31
unfolding boot_up wifi_config_bringup
length-boot_up b flash init_now ip_now loop_now s =
    length-connect b (choose_creds b (wifi_config_load flash)) flash WifiConfig.initial
      (omega arith)

pub pass-ap_ssid :
    {F : Type 0} (clock : Clock) (c : Core0 F) → (pass clock c).0.wifi.ap_ssid ≡ c.wifi.ap_ssid
unfolding pass drive poll_pending
pass-ap_ssid clock c = ground arith

accept-ap_ssid :
    (ssid : Bytes) (creds : Credentials) (cap_len now : ℕ) (w : Wifi)
    → (accept ssid creds cap_len now w).1.ap_ssid ≡ w.ap_ssid
unfolding schedule_apply
accept-ap_ssid ssid creds cap_len now w = ground arith

pub api_dispatch-ap_ssid :
    (fl : Floats) (index_html method path body : Bytes) (cap_len now : ℕ) (site : Site fl.Real)
    → (api_dispatch fl index_html method path body cap_len now site).1.wifi.ap_ssid
      ≡ site.wifi.ap_ssid
unfolding api_dispatch handle_wifi_post
api_dispatch-ap_ssid fl index_html method path body cap_len now site =
    let creds : Credentials = credentials_of body in
    ground (arith, accept-ap_ssid creds.ssid creds cap_len now site.wifi)
