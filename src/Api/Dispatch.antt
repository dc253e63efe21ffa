-- ===== src/Api/Dispatch.antt =====
-- `api_dispatch` of src/api_handlers.c, and the small handlers. The web page is generated when the
-- firmware is built: its bytes are an argument.
pub mod Safe
pub mod Form
pub mod Fits
mod Tests
use pico2w_grbl_bridge.Base.{
  ℕ, ◌-◌, Bool, true, false, ◌&&◌, Option, none, some, List, [], ◌∷◌, ◌++◌, length, take, ◌==◌,
  ◌||◌, if◌then◌else◌, Bytes, codes,
}
use pico2w_grbl_bridge.CString.{c_str, str_eq, split_at, is_space}
use pico2w_grbl_bridge.Floats.{Floats}
use pico2w_grbl_bridge.SharedState.Shared.{Shared, clear_alarm, request_realtime}
use pico2w_grbl_bridge.WifiConfig.{
  Wifi, Credentials, wifi_ssid_max_len, wifi_pass_max_len, schedule_apply,
}
use pico2w_grbl_bridge.Api.Output.{Response}
use pico2w_grbl_bridge.Api.Status.{handle_status, mode_name}
use pico2w_grbl_bridge.Api.Gcode.{handle_gcode_post, trim_end}

-- all that the handlers change
pub record Site (F : Type 0) : Type 0 where
  pub shared : Shared F
  pub wifi : Wifi

abbrev ok_json : Bytes → ℕ → Response
ok_json text cap_len = record {
  status = 200;
  status_text = codes "OK";
  content_type = codes "application/json";
  body = take (cap_len - 1) text;
  body_len = length text;
}

-- `not_found`
unfoldable pub not_found : ℕ → Response
not_found cap_len = record (ok_json (codes "{\"error\":\"not found\"}") cap_len) {
  status = 404;
  status_text = codes "Not Found";
}

abbrev pub wifi_text : Wifi → Bytes
wifi_text w =
    codes "{\"mode\":\""
    ++ (mode_name w.current_mode ++ (codes "\",\"ap_ssid\":\"" ++ (w.ap_ssid ++ codes "\"}")))

-- `handle_wifi_get`
unfoldable pub handle_wifi_get : ℕ → Wifi → Response
handle_wifi_get cap_len w = ok_json (wifi_text w) cap_len

-- the part of the body before the first '\n', and behind it if there is one
abbrev pub ssid_line : Bytes → Option (Bytes × Bytes) → Bytes
ssid_line body none = body
ssid_line body (some (before, behind)) = before

-- `while (pw_end > pw_start && (body[pw_end - 1] == '\r' || body[pw_end - 1] == '\n')) pw_end--;`
abbrev strip_step : ℕ → Bytes → Bytes
strip_step c [] = if c == b'\r' || c == b'\n' then [] else c ∷ []
strip_step c (d ∷ t) = c ∷ d ∷ t

unfoldable pub strip_newlines : Bytes → Bytes
strip_newlines [] = []
strip_newlines (c ∷ s) = strip_step c (strip_newlines s)

abbrev pub password_of : Option (Bytes × Bytes) → Bytes
password_of none = []
password_of (some (before, behind)) = take wifi_pass_max_len (strip_newlines behind)

-- `creds`, as the strings that its buffers hold
unfoldable pub credentials_of : Bytes → Credentials
unfolding strip_newlines
credentials_of body = record {
  ssid = c_str (take wifi_ssid_max_len (trim_end (ssid_line body (split_at b'\n' body))));
  password = c_str (password_of (split_at b'\n' body));
}

abbrev pub accept : Bytes → Credentials → ℕ → ℕ → Wifi → Response × Wifi
accept [] creds cap_len now w = (
  record (ok_json (codes "{\"error\":\"ssid required\"}") cap_len) {
    status = 400;
    status_text = codes "Bad Request";
  },
  w,
)
accept (c ∷ ssid) creds cap_len now w =
    (ok_json (codes "{\"ok\":true,\"rebooting\":true}") cap_len, schedule_apply creds 800 now w)

-- `handle_wifi_post`, at time `now`
unfoldable pub handle_wifi_post : Bytes → ℕ → ℕ → Wifi → Response × Wifi
handle_wifi_post body cap_len now w =
    let creds : Credentials = credentials_of body in accept creds.ssid creds cap_len now w

-- `handle_realtime`
unfoldable pub handle_realtime : {F : Type 0} → ℕ → ℕ → Shared F → Response × Shared F
handle_realtime which cap_len s =
    (ok_json (codes "{\"ok\":true}") cap_len, request_realtime which (clear_alarm s))

module _ {F : Type 0} where
  abbrev pub on_shared : (Shared F → Response × Shared F) → Site F → Response × Site F
  on_shared f site = let (r, shared') = f site.shared in (r, record site { shared = shared' })

  abbrev pub on_wifi : (Wifi → Response × Wifi) → Site F → Response × Site F
  on_wifi f site = let (r, wifi') = f site.wifi in (r, record site { wifi = wifi' })

-- `api_dispatch`, at time `now`
unfoldable pub api_dispatch :
    (fl : Floats) → Bytes → Bytes → Bytes → Bytes → ℕ → ℕ → Site fl.Real → Response × Site fl.Real
api_dispatch fl index_html method path body cap_len now site =
    let is_get : Bool = str_eq method (codes "GET") in
    let is_post : Bool = str_eq method (codes "POST") in
    if is_get && str_eq path (codes "/")
    then (
      record {
        status = 200;
        status_text = codes "OK";
        content_type = codes "text/html; charset=utf-8";
        body = index_html;
        body_len = length index_html;
      },
      site,
    )
    else if is_get && str_eq path (codes "/api/status")
    then (handle_status fl cap_len site.shared site.wifi, site)
    else if is_post && str_eq path (codes "/api/gcode")
    then on_shared (handle_gcode_post body cap_len) site
    else if is_post && str_eq path (codes "/api/hold")
    then on_shared (handle_realtime b'!' cap_len) site
    else if is_post && str_eq path (codes "/api/resume")
    then on_shared (handle_realtime b'~' cap_len) site
    else if is_post && str_eq path (codes "/api/reset")
    then on_shared (handle_realtime 0x18 cap_len) site
    else if is_get && str_eq path (codes "/api/wifi")
    then (handle_wifi_get cap_len site.wifi, site)
    else if is_post && str_eq path (codes "/api/wifi")
    then on_wifi (handle_wifi_post body cap_len now) site
    else (not_found cap_len, site)
