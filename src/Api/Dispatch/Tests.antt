-- ===== src/Api/Dispatch/Tests.antt =====
-- Tests of the dispatcher.
use pico2w_grbl_bridge.Base.{◌∷◌, arith, some, ◌++◌, refl, ℕ, ◌≡◌, codes, []}
use pico2w_grbl_bridge.Floats.Examples.{strokes}
use pico2w_grbl_bridge.SharedState.Shared
use pico2w_grbl_bridge.WifiConfig
use pico2w_grbl_bridge.CString.{str_eq}
use pico2w_grbl_bridge.Api.Dispatch.{false, Site, api_dispatch}
use pico2w_grbl_bridge.CString.{mem_byte}
use pico2w_grbl_bridge.WifiConfig.{poll_pending}
use pico2w_grbl_bridge.Api.Gcode.{trim_end}
use pico2w_grbl_bridge.Api.Dispatch.{strip_newlines, handle_wifi_post}
use pico2w_grbl_bridge.Api.Dispatch.Form.{IsPlain, poll_pending-handle_wifi_post}
use pico2w_grbl_bridge.Api.Dispatch.Safe.{api_dispatch_safe}

abbrev fresh : Site ℕ
fresh = record { shared = Shared.initial 0; wifi = WifiConfig.initial }

api_dispatch_safe_example :
    (api_dispatch strokes [] (codes "GET") (codes "/api/gcode") (codes "G0 X1") 512 0 fresh).1
    ≡ fresh
api_dispatch_safe_example =
    unfold str_eq in
    api_dispatch_safe strokes [] (codes "GET") (codes "/api/gcode") (codes "G0 X1") 512 0 fresh refl

home-IsPlain : IsPlain (codes "Home net") (codes "secret 1")
unfolding mem_byte trim_end strip_newlines
home-IsPlain = record {
  ssid_given = λ e. cc;
  one_line = ground arith;
  ssid_text = ground arith;
  ssid_trimmed = refl;
  ssid_fits = omega arith;
  password_text = ground arith;
  password_trimmed = refl;
  password_fits = omega arith;
}

poll_pending-handle_wifi_post_example :
    let (r, w') =
      handle_wifi_post
        (codes "Home net" ++ (b'\n' ∷ codes "secret 1"))
        7168
        1000
        WifiConfig.initial in
    (r.status ≡ 200)
    × (poll_pending 801000 w' ≡ (
      some (record { ssid = codes "Home net"; password = codes "secret 1" }),
      record w' { pending_apply = false },
    ))
poll_pending-handle_wifi_post_example =
    poll_pending-handle_wifi_post (codes "Home net") (codes "secret 1") 7168 1000 801000
      WifiConfig.initial home-IsPlain
