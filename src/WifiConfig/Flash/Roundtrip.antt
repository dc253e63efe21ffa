-- ===== src/WifiConfig/Flash/Roundtrip.antt =====
-- What is saved is loaded again.
use pico2w_grbl_bridge.Base.{
  ap₂, not, ==_iff, none, if◌then◌else◌, false, ◌==◌, take, ℕ, suc, ◌+◌, ◌-◌, ◌≤◌, ◌≡◌, ◌≢◌, refl,
  ap, ◌∙◌, true, some, [], ◌∷◌, ◌++◌, arith, length, replicate, take_all, Bytes,
}
use pico2w_grbl_bridge.CString.{c_str, strncpy}
use pico2w_grbl_bridge.CString.Laws.{IsText, strncpy_of_IsText}
use pico2w_grbl_bridge.WifiConfig.{Credentials}
use pico2w_grbl_bridge.WifiConfig.Flash.{
  checked, crc32_calc, CfgRecord, Execute, filled, record_of, usable, wifi_config_load,
  wifi_config_save,
}

-- Credentials that the fields of a record hold.
pub record Fit (creds : Credentials) : Type 0 where
  pub ssid_text : IsText creds.ssid
  pub ssid_fits : length creds.ssid ≤ 32
  pub password_text : IsText creds.password
  pub password_fits : length creds.password ≤ 64

-- An array that is filled up with NULs holds the text that is in it.
c_str_filled : (s : Bytes) (n : ℕ) → IsText s → c_str (s ++ replicate (suc n) 0) ≡ s
unfolding c_str
c_str_filled [] n h = refl
c_str_filled (c ∷ s) n h = ground (arith, c_str_filled s n h.1)

strncpy-filled : (n : ℕ) (s : Bytes) → IsText s → length s ≤ n → strncpy n (filled n s) ≡ s
unfolding filled strncpy
strncpy-filled n s h fits =
    let copied : strncpy n s ≡ s = strncpy_of_IsText n s h fits in
    let pad : n + 1 - length s ≡ suc (n - length s) = omega (arith, fits) in
    ap (λ u. strncpy n (u ++ replicate (n + 1 - length u) 0)) copied
    ∙ ap (λ k. strncpy n (s ++ replicate k 0)) pad
    ∙ ap (take n) (c_str_filled s (n - length s) h)
    ∙ take_all n s fits

load-record_of :
    (creds : Credentials) → Fit creds → wifi_config_load (record_of creds) ≡ usable creds
unfolding wifi_config_load record_of
load-record_of creds f =
    let crc : ℕ = crc32_calc (checked (record_of creds)) in
    let intact : (crc == crc) ≡ true = (==_iff crc crc).1 refl in
    let ssid = strncpy-filled 32 creds.ssid f.ssid_text f.ssid_fits in
    let password = strncpy-filled 64 creds.password f.password_text f.password_fits in
    ap
      (λ b.
        if not b
        then none
        else usable (record {
          ssid = strncpy 32 (filled 32 creds.ssid);
          password = strncpy 64 (filled 64 creds.password);
        }))
      intact
    ∙ ap₂ (λ s p. usable (record { ssid = s; password = p })) ssid password

-- Credentials that fit their fields and have a name are loaded again at the next start after they
-- were saved, whatever was in flash before. (`flash_safe_execute` calls the function.)
pub load-save :
    (x : Execute) (creds : Credentials) (flash : CfgRecord)
    → Fit creds
    → creds.ssid ≢ []
    → x.called ≡ true
    → wifi_config_load (wifi_config_save x creds flash).0 ≡ some creds
unfolding wifi_config_save
load-save x creds flash f given called =
    let named : (length creds.ssid == 0) ≡ false = ground (arith, given) in
    ap (λ b. wifi_config_load (if b then record_of creds else flash)) called
    ∙ load-record_of creds f
    ∙ ap (λ b. if b then none else some creds) named
