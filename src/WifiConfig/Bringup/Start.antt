-- ===== src/WifiConfig/Bringup/Start.antt =====
-- The mode that WiFi comes up in, and what flash holds then.
use pico2w_grbl_bridge.CString.Laws.{strncpy_given, IsText, length-strncpy, strncpy-IsText}
use pico2w_grbl_bridge.CString.{strncpy}
use pico2w_grbl_bridge.Base.{
  ◌∙◌, ◌-◌, drop, leb, if◌then◌else◌, ◌==◌, ◌++◌, codes, none, ap, ◌≤◌, ◌≡◌, ◌≢◌, refl, ◌⊎◌, inl,
  inr, true, false, some, [], arith, length, length-take, Bytes, Bool-cases,
}
use pico2w_grbl_bridge.WifiConfig.{Wifi, sta, ap as ap_mode, Credentials}
use pico2w_grbl_bridge.WifiConfig.Flash.{
  CfgRecord, Execute, wifi_config_load, wifi_config_save, apply_and_reboot,
}
use pico2w_grbl_bridge.WifiConfig.Flash.Roundtrip.{Fit, load-save}
use pico2w_grbl_bridge.WifiConfig.Bringup.{
  Boot, ap_ssid_of, choose_creds, connect, wifi_config_bringup,
}

-- The name fits the buffer of 32 bytes.
pub length-ap_ssid_of : (id : Bytes) → length (ap_ssid_of id) ≤ 31
unfolding ap_ssid_of
length-ap_ssid_of id = omega (
  arith,
  length-take 31
      (codes "ScannerRig-" ++ (if leb 4 (length id) then drop (length id - 4) id else id)),
)

-- A start with the credentials `creds`.
abbrev pub Tried : Boot → Credentials → Wifi → Wifi → Type 0
Tried b creds w w' =
    ((b.connects creds ≡ true) × (w'.current_mode ≡ sta) × (w'.ap_ssid ≡ w.ap_ssid))
    ⊎ ((b.connects creds ≡ false) × (w'.current_mode ≡ ap_mode) × (w'.ap_ssid ≡ ap_ssid_of b.id))

from_flash_lem :
    (b : Boot) (flash : CfgRecord) (w : Wifi) (creds : Credentials)
    → wifi_config_load flash ≡ some creds
    → (let (flash', w') = wifi_config_bringup b flash w in (flash' ≡ flash) × Tried b creds w w')
unfolding wifi_config_bringup choose_creds connect
from_flash_lem b flash w creds h = elim (Bool-cases (b.connects creds)) [
  | inl yes' ↦ rw (h, yes') (refl, inl (refl, refl, refl))
  | inr no' ↦ rw (h, no') (refl, inr (refl, refl, refl))
]

-- An update that is applied takes effect at the next start: the credentials are loaded from flash
-- and tried, flash stays as it is, and the mode is STA if the station connects with them and AP,
-- with the board's own name, if not. (The credentials fit their fields and have a name, and the
-- function that writes flash is called.)
pub update_takes_effect :
    (x : Execute) (b : Boot) (creds : Credentials) (flash : CfgRecord) (w : Wifi)
    → Fit creds
    → creds.ssid ≢ []
    → x.called ≡ true
    → (let saved = apply_and_reboot x creds flash in
        let (flash', w') = wifi_config_bringup b saved w in (flash' ≡ saved) × Tried b creds w w')
unfolding apply_and_reboot
update_takes_effect x b creds flash w f given called =
    from_flash_lem b (wifi_config_save x creds flash).0 w creds
      (load-save x creds flash f given called)

abbrev pub default_creds : Boot → Credentials
default_creds b = record {
  ssid = strncpy 32 b.ssid_default;
  password = strncpy 64 b.password_default;
}

default_connects :
    (b : Boot) (flash : CfgRecord) (w : Wifi)
    → wifi_config_load flash ≡ none
    → b.ssid_default ≢ []
    → b.connects (default_creds b) ≡ true
    → (wifi_config_bringup b flash w).0 ≡ (wifi_config_save b.execute (default_creds b) flash).0
unfolding wifi_config_bringup choose_creds connect
default_connects b flash w empty given connected =
    let is_set : (length b.ssid_default == 0) ≡ false = ground (arith, given) in
    rw (empty, is_set, connected) refl

-- If flash holds nothing that can be used and the station connects with the build's default, flash
-- holds the default from then on: the next start, whatever build it is of, loads it from flash and
-- tries it. (The default has a name, and the function that writes flash is called.)
default_is_saved :
    (b b' : Boot) (flash : CfgRecord) (w w' : Wifi)
    → wifi_config_load flash ≡ none
    → IsText b.ssid_default
    → b.ssid_default ≢ []
    → b.connects (default_creds b) ≡ true
    → b.execute.called ≡ true
    → (let saved = (wifi_config_bringup b flash w).0 in
        let (flash', w'') = wifi_config_bringup b' saved w' in
        (flash' ≡ saved) × Tried b' (default_creds b) w' w'')
default_is_saved b b' flash w w' empty text given connected called =
    from_flash_lem b' (wifi_config_bringup b flash w).0 w' (default_creds b) (
      ap wifi_config_load (default_connects b flash w empty given connected)
      ∙ load-save b.execute (default_creds b) flash fit (strncpy_given 31 b.ssid_default text given)
          called)
  where
    fit : Fit (default_creds b)
    fit = record {
      ssid_text = strncpy-IsText 32 b.ssid_default;
      ssid_fits = length-strncpy 32 b.ssid_default;
      password_text = strncpy-IsText 64 b.password_default;
      password_fits = length-strncpy 64 b.password_default;
    }
