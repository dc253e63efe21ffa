-- ===== src/Api/Gcode/Tests.antt =====
-- Tests of the G-code handler.
use pico2w_grbl_bridge.Base.{arith, ◌==◌, ◌&&◌, if◌then◌else◌, map, ◌++◌, ◌≡◌, codes, [], Bytes}
use pico2w_grbl_bridge.CString.{strncpy}
use pico2w_grbl_bridge.SharedState.Shared
use pico2w_grbl_bridge.SharedState.Shared.{Shared}
use pico2w_grbl_bridge.SharedState.Queue.Laws.{IsValid, contents}
use pico2w_grbl_bridge.Api.Gcode.{ℕ, length, ltb, take, handle_gcode_post}
use pico2w_grbl_bridge.Api.Gcode.Counts.{handle_gcode_post-effect}
use pico2w_grbl_bridge.Api.Gcode.Lines.{gcode_lines}

abbrev idle : Shared ℕ
idle = Shared.initial 0

abbrev body : Bytes
body = codes "G0 X1\r\n\n  G1 Y2 "

handle_gcode_post-effect_example :
    let (r, s') = handle_gcode_post body 256 idle in
    (contents s'.queue ≡ [] ++ take 32 (map (strncpy 95) (gcode_lines body)))
    × (r.status ≡ (if ltb 0 (length (gcode_lines body)) && 0 == 32 then 503 else 200))
    × (s'.machine.alarm ≡ [])
    × IsValid s'.queue
handle_gcode_post-effect_example = handle_gcode_post-effect body 256 idle (omega arith)
