-- ===== src/Api/Dispatch/Fits.antt =====
-- The bounds that every response keeps.
use pico2w_grbl_bridge.Base.{
  ℕ, ◌≤◌, ◌<◌, ◌≡◌, arith, length, length-take, length-append, take, ◌-◌, [], ◌∷◌, ◌++◌, Bytes,
  codes,
}
use pico2w_grbl_bridge.Floats.{Floats}
use pico2w_grbl_bridge.SharedState.Shared.{Shared}
use pico2w_grbl_bridge.WifiConfig.{Wifi, Mode, sta, ap, Credentials}
use pico2w_grbl_bridge.Api.Output.{Response, body_len_of}
use pico2w_grbl_bridge.Api.Status.{handle_status, mode_name}
use pico2w_grbl_bridge.Api.Status.Fits.{handle_status_fits}
use pico2w_grbl_bridge.Api.Gcode.{handle_gcode_post, reply_text, submit_all, segments_from}
use pico2w_grbl_bridge.Api.Dispatch.{
  wifi_text, Site, api_dispatch, not_found, handle_wifi_get, handle_wifi_post, handle_realtime,
  accept, credentials_of,
}

-- A status of three digits, short texts for the response's head, and as many bytes in the body as
-- are announced.
pub record Fits (r : Response) : Type 0 where
  pub status_small : r.status < 1000
  pub text_short : length r.status_text ≤ 19
  pub type_short : length r.content_type ≤ 24
  pub body_whole : length r.body ≡ r.body_len

-- A text that is cut to its buffer of `cap_len` bytes is as long as is announced.
cut_whole :
    (cap_len : ℕ) (text : Bytes)
    → 0 < cap_len
    → length (take (cap_len - 1) text) ≡ body_len_of cap_len (length text)
cut_whole cap_len text h = ground (arith, length-take (cap_len - 1) text)

uncut_whole : (text : Bytes) → length text ≤ 7167 → length (take 7167 text) ≡ length text
uncut_whole text h = omega (arith, length-take 7167 text)

length-mode_name : (m : Mode) → length (mode_name m) ≤ 3
length-mode_name sta = omega arith
length-mode_name ap = omega arith

handle_gcode_post-Fits :
    {F : Type 0} (body : Bytes) (s : Shared F) → Fits (handle_gcode_post body 7168 s).0
unfolding handle_gcode_post
handle_gcode_post-Fits body s = record {
  status_small = ground arith;
  text_short = ground arith;
  type_short = omega arith;
  body_whole =
      cut_whole 7168
        (reply_text (
          submit_all (segments_from [] body)
            (record { total = 0; queued = 0; rejected = 0; queue = s.queue })))
        (omega arith);
}

handle_status-Fits :
    (fl : Floats) (s : Shared fl.Real) (w : Wifi) → Fits (handle_status fl 7168 s w)
unfolding handle_status
handle_status-Fits fl s w = record {
  status_small = omega arith;
  text_short = omega arith;
  type_short = omega arith;
  body_whole = (handle_status_fits fl 7168 s w (omega arith)).0;
}

handle_wifi_get-Fits : (w : Wifi) → length w.ap_ssid ≤ 31 → Fits (handle_wifi_get 7168 w)
unfolding handle_wifi_get
handle_wifi_get-Fits w short = record {
  status_small = omega arith;
  text_short = omega arith;
  type_short = omega arith;
  body_whole = uncut_whole (wifi_text w) (
      omega (
        arith,
        length-mode_name w.current_mode,
        length-append (mode_name w.current_mode)
            (codes "\",\"ap_ssid\":\"" ++ (w.ap_ssid ++ codes "\"}")),
        length-append w.ap_ssid (codes "\"}"),
      ));
}

accept-Fits :
    (ssid : Bytes) (creds : Credentials) (now : ℕ) (w : Wifi)
    → Fits (accept ssid creds 7168 now w).0
accept-Fits [] creds now w = omega arith
accept-Fits (c ∷ ssid) creds now w = omega arith

handle_wifi_post-Fits :
    (body : Bytes) (now : ℕ) (w : Wifi) → Fits (handle_wifi_post body 7168 now w).0
unfolding handle_wifi_post
handle_wifi_post-Fits body now w =
    let creds : Credentials = credentials_of body in accept-Fits creds.ssid creds now w

-- Every response of `api_dispatch` into the server's buffer has a status below 1000, a status text
-- of at most 19 bytes, a content type of at most 24, and exactly the announced number of bytes in
-- its body. (The name of the access point fits its buffer.)
pub api_dispatch-Fits :
    (fl : Floats) (index_html method path body : Bytes) (now : ℕ) (site : Site fl.Real)
    → length site.wifi.ap_ssid ≤ 31
    → Fits (api_dispatch fl index_html method path body 7168 now site).0
unfolding api_dispatch not_found handle_realtime
api_dispatch-Fits fl index_html method path body now site short = ground (
  arith,
  handle_status-Fits fl site.shared site.wifi,
  handle_gcode_post-Fits body site.shared,
  handle_wifi_get-Fits site.wifi short,
  handle_wifi_post-Fits body now site.wifi,
)
