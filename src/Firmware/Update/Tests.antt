-- ===== src/Firmware/Update/Tests.antt =====
-- A WiFi update from the form to the next start.
use pico2w_grbl_bridge.HttpServer.Examples.{env, site}
use pico2w_grbl_bridge.Base.{◌≡◌, [], refl, true, some, none, codes, arith, Bytes, ℕ}
use pico2w_grbl_bridge.Floats.Examples.{strokes}
use pico2w_grbl_bridge.CString.{strtol, mem_byte}
use pico2w_grbl_bridge.SharedState.Shared
use pico2w_grbl_bridge.WifiConfig
use pico2w_grbl_bridge.WifiConfig.{Credentials}
use pico2w_grbl_bridge.WifiConfig.Flash.{CfgRecord, Execute}
use pico2w_grbl_bridge.WifiConfig.Bringup.{Boot}
use pico2w_grbl_bridge.WifiConfig.Bringup.Start.{Tried}
use pico2w_grbl_bridge.Api.Gcode.{trim_end}
use pico2w_grbl_bridge.Api.Dispatch.{strip_newlines}
use pico2w_grbl_bridge.Api.Dispatch.Form.{IsPlain}
use pico2w_grbl_bridge.HttpServer.Find.{case_find}
use pico2w_grbl_bridge.HttpServer.Conn.{fresh}
use pico2w_grbl_bridge.HttpServer.Callbacks.{number_at, on_recv}
use pico2w_grbl_bridge.HttpServer.Callbacks.Shape.{IsRequest}
use pico2w_grbl_bridge.HttpServer.Callbacks.Answer.{HasLine}
use pico2w_grbl_bridge.Firmware.{Core0, Clock, pass, startup, boot_up}
use pico2w_grbl_bridge.Firmware.Update.{flash_after, posted_takes_effect}

abbrev form : Bytes
form = codes "POST /api/wifi HTTP/1.1\r\nContent-Length: 6\r\n\r\nnet\npw"

form-IsRequest : IsRequest form 42 6
unfolding case_find number_at strtol
form-IsRequest = record {
  header_ends = refl;
  length_is = refl;
  number_inside = ground arith;
  whole = refl;
  small = omega arith;
}

form-HasLine : HasLine form 42 (codes "POST") (codes "/api/wifi") none
form-HasLine = record {
  rest = codes "HTTP/1.1\r\nContent-Length: 6\r\n\r\n";
  line_is = refl;
  method_is = omega arith;
  method_fits = omega arith;
  path_is = omega arith;
  path_fits = omega arith;
  path_given = λ e. cc;
  query_is = tt;
}

net-IsPlain : IsPlain (codes "net") (codes "pw")
unfolding mem_byte trim_end strip_newlines
net-IsPlain = record {
  ssid_given = λ e. cc;
  one_line = ground arith;
  ssid_text = ground arith;
  ssid_trimmed = refl;
  ssid_fits = omega arith;
  password_text = ground arith;
  password_trimmed = refl;
  password_fits = omega arith;
}

abbrev net : Credentials
net = record { ssid = codes "net"; password = codes "pw" }

abbrev done : Execute
done = record { called = true; ok = true }

abbrev blank : CfgRecord
blank = record { magic = 0xFFFFFFFF; ssid = []; password = []; crc32 = 0xFFFFFFFF }

abbrev restart : Boot
restart = record {
  ssid_default = [];
  password_default = [];
  id = codes "E66058388374A12B";
  connects = λ creds. true;
  execute = done;
}

abbrev later : Clock
later = record { pending_now = 900000; led_now = 900001; progress_now = 900002; watch_now = 900003 }

abbrev received : Core0 ℕ
received = record (startup 0 5 6 (Shared.initial 0) WifiConfig.initial) {
  wifi = (on_recv strokes [] env (some form) (fresh 5) site).site.wifi;
}

posted_takes_effect_example :
    let saved = flash_after done (pass later received).1 blank in
    let (flash', c') = boot_up restart saved 0 5 6 site.shared in
    (flash' ≡ saved) × Tried restart net WifiConfig.initial c'.wifi
posted_takes_effect_example =
    posted_takes_effect strokes [] form 42 6 5 form-IsRequest (codes "net") (codes "pw") none
      form-HasLine refl net-IsPlain env site received later refl (omega arith) done restart blank 0
      5 6 (Shared.initial 0) refl
