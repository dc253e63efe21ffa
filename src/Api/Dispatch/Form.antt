-- ===== src/Api/Dispatch/Form.antt =====
-- From the WiFi form to the reboot.
use pico2w_grbl_bridge.Base.{
  ℕ, ◌+◌, ◌≤◌, ◌≢◌, ◌≡◌, refl, ap, ◌∙◌, none, some, [], ◌∷◌, ◌++◌, arith, length, ltb, take_all,
  if◌then◌else◌, Bytes,
}
use pico2w_grbl_bridge.CString.{c_str}
use pico2w_grbl_bridge.CString.Laws.{IsText, c_str_of_IsText}
use pico2w_grbl_bridge.CString.Tokens.{Clean, split_at-append}
use pico2w_grbl_bridge.WifiConfig.{Wifi, Credentials, poll_pending, schedule_apply}
use pico2w_grbl_bridge.Api.Gcode.{trim_end}
use pico2w_grbl_bridge.Api.Dispatch.{
  false, take, credentials_of, strip_newlines, handle_wifi_post, accept,
}

-- An SSID and a password that the form can send as they are: they fit, hold no NUL, and do not end
-- in what is trimmed; the SSID is not empty and has no newline.
pub record IsPlain (ssid password : Bytes) : Type 0 where
  pub ssid_given : ssid ≢ []
  pub one_line : Clean (b'\n' ∷ []) ssid
  pub ssid_text : IsText ssid
  pub ssid_trimmed : trim_end ssid ≡ ssid
  pub ssid_fits : length ssid ≤ 32
  pub password_text : IsText password
  pub password_trimmed : strip_newlines password ≡ password
  pub password_fits : length password ≤ 64

stored : (max_len : ℕ) (s : Bytes) → IsText s → length s ≤ max_len → c_str (take max_len s) ≡ s
stored max_len s text fits = ap c_str (take_all max_len s fits) ∙ c_str_of_IsText s text

credentials_of_form :
    (ssid password : Bytes)
    → IsPlain ssid password
    → credentials_of (ssid ++ (b'\n' ∷ password)) ≡ record { ssid = ssid; password = password }
unfolding credentials_of
credentials_of_form ssid password p = rw (
  split_at-append b'\n' ssid password p.one_line,
  p.ssid_trimmed,
  p.password_trimmed,
  stored 32 ssid p.ssid_text p.ssid_fits,
  stored 64 password p.password_text p.password_fits,
)

accept_given :
    (ssid : Bytes) (creds : Credentials) (cap_len now : ℕ) (w : Wifi)
    → ssid ≢ []
    → ((accept ssid creds cap_len now w).0.status ≡ 200)
      × ((accept ssid creds cap_len now w).1 ≡ schedule_apply creds 800 now w)
accept_given [] creds cap_len now w given = absurd (given refl)
accept_given (c ∷ ssid) creds cap_len now w given = (refl, refl)

-- A POST of an SSID, a newline and a password is answered 200, and a poll of core0's loop at time
-- `later` saves exactly that SSID and password and reboots if 800 ms have gone by; before, it does
-- nothing, and leaves the update pending as it was. (The SSID is not empty and has no newline; both fit their buffers, hold no NUL and do
-- not end in what is trimmed.)
pub poll_pending-handle_wifi_post :
    (ssid password : Bytes) (cap_len now later : ℕ) (w : Wifi)
    → IsPlain ssid password
    → (let (r, w') = handle_wifi_post (ssid ++ (b'\n' ∷ password)) cap_len now w in
        (r.status ≡ 200)
        × (poll_pending later w' ≡ (
            if ltb later (now + 800000) then (none, w') else (
              some (record { ssid = ssid; password = password }),
              record w' { pending_apply = false },
            ))))
unfolding handle_wifi_post poll_pending schedule_apply
poll_pending-handle_wifi_post ssid password cap_len now later w p =
    let creds : Credentials = record { ssid = ssid; password = password } in
    rw (credentials_of_form ssid password p)
      (ground (arith, accept_given ssid creds cap_len now w p.ssid_given))
