-- ===== src/WifiConfig/Bringup.antt =====
-- How WiFi comes up, of src/wifi_config.c.
pub mod Start
use pico2w_grbl_bridge.Base.{
  ◌-◌, Bool, true, false, Option, none, some, ◌++◌, length, take, drop, leb, ◌==◌, if◌then◌else◌,
  Bytes, codes,
}
use pico2w_grbl_bridge.CString.{strncpy}
use pico2w_grbl_bridge.WifiConfig.{Wifi, sta, ap, Credentials, wifi_ssid_max_len, wifi_pass_max_len}
use pico2w_grbl_bridge.WifiConfig.Flash.{CfgRecord, Execute, wifi_config_load, wifi_config_save}

-- the access point's name, for the board's id
unfoldable pub ap_ssid_of : Bytes → Bytes
ap_ssid_of id =
    take 31 (codes "ScannerRig-" ++ (if leb 4 (length id) then drop (length id - 4) id else id))

-- `start_ap_mode`
unfoldable pub start_ap_mode : Bytes → Wifi → Wifi
unfolding ap_ssid_of
start_ap_mode id w = record w { ap_ssid = ap_ssid_of id; current_mode = ap }

-- What a start meets: the build's `WIFI_SSID_DEFAULT` and `WIFI_PASSWORD_DEFAULT`, the board's id,
-- whether the station connects with given credentials, and what `flash_safe_execute` does.
pub record Boot : Type 0 where
  pub ssid_default : Bytes
  pub password_default : Bytes
  pub id : Bytes
  pub connects : Credentials → Bool
  pub execute : Execute

-- `creds` and `from_flash`, if `have_creds`
unfoldable pub choose_creds : Boot → Option Credentials → Option (Credentials × Bool)
unfolding strncpy
choose_creds b (some creds) = some (creds, true)
choose_creds b none =
    if length b.ssid_default == 0
    then none
    else some (
      record {
        ssid = strncpy wifi_ssid_max_len b.ssid_default;
        password = strncpy wifi_pass_max_len b.password_default;
      },
      false,
    )

-- `if (have_creds) { .. }`, and what follows
unfoldable pub connect : Boot → Option (Credentials × Bool) → CfgRecord → Wifi → CfgRecord × Wifi
unfolding start_ap_mode wifi_config_save
connect b none flash w = (flash, start_ap_mode b.id w)
connect b (some (creds, from_flash)) flash w =
    if b.connects creds
    then (
      if from_flash then flash else (wifi_config_save b.execute creds flash).0,
      record w { current_mode = sta },
    )
    else (flash, start_ap_mode b.id w)

-- `wifi_config_bringup`, which returns the `current_mode`
unfoldable pub wifi_config_bringup : Boot → CfgRecord → Wifi → CfgRecord × Wifi
unfolding wifi_config_load choose_creds connect
wifi_config_bringup b flash w = connect b (choose_creds b (wifi_config_load flash)) flash w
