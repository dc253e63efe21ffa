-- ===== src/Firmware/Update.antt =====
-- From the WiFi form to the next start.
mod Tests
use mathlib.Core.Path.{subst}
use pico2w_grbl_bridge.Base.{
  false, ltb, if◌then◌else◌, ℕ, ◌+◌, ◌≤◌, ◌≡◌, refl, sym, ap, ◌∙◌, true, some, none, Option, ◌∷◌,
  ◌++◌, arith, drop, Bytes, codes,
}
use pico2w_grbl_bridge.Floats.{Floats}
use pico2w_grbl_bridge.CString.{str_eq}
use pico2w_grbl_bridge.SharedState.Shared.{Shared}
use pico2w_grbl_bridge.WifiConfig
use pico2w_grbl_bridge.WifiConfig.{Wifi, Credentials, poll_pending}
use pico2w_grbl_bridge.WifiConfig.Flash.{CfgRecord, Execute, apply_and_reboot}
use pico2w_grbl_bridge.WifiConfig.Flash.Roundtrip.{Fit}
use pico2w_grbl_bridge.WifiConfig.Bringup.{Boot}
use pico2w_grbl_bridge.WifiConfig.Bringup.Start.{Tried, update_takes_effect}
use pico2w_grbl_bridge.Api.Dispatch.{Site, api_dispatch, handle_wifi_post}
use pico2w_grbl_bridge.Api.Dispatch.Form.{IsPlain, poll_pending-handle_wifi_post}
use pico2w_grbl_bridge.HttpServer.Conn.{fresh}
use pico2w_grbl_bridge.HttpServer.Callbacks.{After, Env, on_recv}
use pico2w_grbl_bridge.HttpServer.Callbacks.Shape.{IsRequest}
use pico2w_grbl_bridge.HttpServer.Callbacks.Answer.{HasLine, request_answered}
use pico2w_grbl_bridge.Firmware.{Core0, Clock, Outcome, reboot, looped, pass, boot_up}

-- what flash holds at the next start, if `flash` is what it held
abbrev pub flash_after : Execute → Outcome → CfgRecord → CfgRecord
flash_after x (reboot creds) flash = apply_and_reboot x creds flash
flash_after x (looped fed) flash = flash

plain-Fit :
    (ssid password : Bytes)
    → IsPlain ssid password
    → Fit (record { ssid = ssid; password = password })
plain-Fit ssid password p = record {
  ssid_text = p.ssid_text;
  ssid_fits = p.ssid_fits;
  password_text = p.password_text;
  password_fits = p.password_fits;
}

pass-reboot :
    {F : Type 0} (clock : Clock) (c : Core0 F) (creds : Credentials)
    → (poll_pending clock.pending_now c.wifi).0 ≡ some creds
    → (pass clock c).1 ≡ reboot creds
unfolding pass
pass-reboot clock c creds h = rw h refl

dispatch_form :
    (fl : Floats) (index_html body : Bytes) (now : ℕ) (site : Site fl.Real)
    → (api_dispatch fl index_html (codes "POST") (codes "/api/wifi") body 7168 now site).1.wifi
      ≡ (handle_wifi_post body 7168 now site.wifi).1
unfolding api_dispatch str_eq
dispatch_form fl index_html body now site = refl

module _ (fl : Floats) (index_html : Bytes) (r : Bytes) (k n accepted : ℕ)
    (q : IsRequest r k n) where
  open fl use {Real}

  -- the WiFi state behind the request
  form_received :
      (ssid password : Bytes) (query : Option Bytes)
      → HasLine r k (codes "POST") (codes "/api/wifi") query
      → drop (k + 4) r ≡ ssid ++ b'\n' ∷ password
      → (e : Env) (site : Site Real)
      → (on_recv fl index_html e (some r) (fresh accepted) site).site.wifi
        ≡ (handle_wifi_post (ssid ++ b'\n' ∷ password) 7168 e.now site.wifi).1
  form_received ssid password query l body e site =
      ap (λ (a : After Real). a.site.wifi)
        (request_answered fl index_html r k n accepted q (codes "POST") (codes "/api/wifi") query l
          e site)
      ∙ dispatch_form fl index_html (drop (k + 4) r) e.now site
      ∙ ap (λ b. (handle_wifi_post b 7168 e.now site.wifi).1) body

  -- A WiFi update through all its stages: lwIP receives a POST to /api/wifi with an SSID and a
  -- password in its body, a pass of core0's loop 800 ms later or more saves and reboots, and the
  -- next start loads them from flash and tries them. It comes up in STA mode if the station connects
  -- with them and in AP mode with the board's own name if not, and leaves flash as it is. (The
  -- request fits the buffer and is whole; the SSID and the password are what the form sends as they
  -- are: not too long, without NUL, the SSID not empty and on one line, no blanks that are trimmed;
  -- nothing has changed the pending update in between, and `flash_safe_execute` calls the function
  -- that writes.)
  pub posted_takes_effect :
      (ssid password : Bytes) (query : Option Bytes)
      → HasLine r k (codes "POST") (codes "/api/wifi") query
      → drop (k + 4) r ≡ ssid ++ b'\n' ∷ password
      → IsPlain ssid password
      → (e : Env) (site : Site Real) (c : Core0 Real) (clock : Clock)
      → c.wifi ≡ (on_recv fl index_html e (some r) (fresh accepted) site).site.wifi
      → e.now + 800000 ≤ clock.pending_now
      → (x : Execute) (b : Boot) (flash : CfgRecord) (init_now ip_now loop_now : ℕ)
        (s : Shared Real)
      → x.called ≡ true
      → (let saved = flash_after x (pass clock c).1 flash in
          let (flash', c') = boot_up b saved init_now ip_now loop_now s in
          (flash' ≡ saved)
          × Tried b (record { ssid = ssid; password = password }) WifiConfig.initial c'.wifi)
  unfolding boot_up
  posted_takes_effect ssid password query l body p e site c clock wifi_is late x b flash init_now
        ip_now loop_now s called =
      let creds : Credentials = record { ssid = ssid; password = password } in
      let w' : Wifi = (handle_wifi_post (ssid ++ b'\n' ∷ password) 7168 e.now site.wifi).1 in
      let waits : ltb clock.pending_now (e.now + 800000) ≡ false = ground (arith, late) in
      let due : (poll_pending clock.pending_now c.wifi).0 ≡ some creds =
        ap (λ w. (poll_pending clock.pending_now w).0)
          (wifi_is ∙ form_received ssid password query l body e site)
        ∙ ap (λ (o : Option Credentials × Wifi). o.0)
            ((poll_pending-handle_wifi_post ssid password 7168 e.now clock.pending_now site.wifi
                p).1
              ∙ ap
                  (λ early.
                    if early then (none, w') else (some creds, record w' { pending_apply = false }))
                  waits) in
      let saved : flash_after x (pass clock c).1 flash ≡ apply_and_reboot x creds flash =
        ap (λ o. flash_after x o flash) (pass-reboot clock c creds due) in
      subst
        (λ f.
          (let (flash', c') = boot_up b f init_now ip_now loop_now s in
            (flash' ≡ f) × Tried b creds WifiConfig.initial c'.wifi))
        (sym saved)
        (update_takes_effect x b creds flash WifiConfig.initial (plain-Fit ssid password p)
          p.ssid_given called)
