-- ===== src/Api/Status.antt =====
-- `handle_status` of src/api_handlers.c: the JSON of `/api/status`, as the texts and strings that
-- its calls of `japp` and `json_escape_append` append, in their order.
pub mod Fits
pub mod Render
pub mod Tree
pub mod Text
pub mod Valid
pub mod Parts
pub mod Room
pub mod Examples
mod Tests
use pico2w_grbl_bridge.Base.{
  ℕ, zero, suc, ◌+◌, ◌-◌, ◌<◌, min, Bool, true, false, List, [], ◌∷◌, ◌++◌, get_or, joined, ◌==◌,
  if◌then◌else◌, Bytes, codes,
}
use pico2w_grbl_bridge.CString.Decimal.{decimal}
use pico2w_grbl_bridge.Floats.{Floats}
use pico2w_grbl_bridge.SharedState.Sizes.{grbl_max_axes}
use pico2w_grbl_bridge.SharedState.Machine
use pico2w_grbl_bridge.SharedState.Machine.{MachineState}
use pico2w_grbl_bridge.SharedState.Console
use pico2w_grbl_bridge.SharedState.Filtered
use pico2w_grbl_bridge.SharedState.Shared.{Shared}
use pico2w_grbl_bridge.WifiConfig.{Wifi, Mode, sta, ap}
use pico2w_grbl_bridge.Api.Output.{
  Response, Output, empty, Piece, plain, escaped, append_all, body_len_of,
}

abbrev pub status_console_lines : ℕ
status_console_lines = 12

abbrev pub status_filtered_lines : ℕ
status_filtered_lines = 30

abbrev true_or_false : Bool → Bytes
true_or_false b = if b then codes "true" else codes "false"

-- `i ? "," : ""`
abbrev comma : ℕ → Bytes
comma i = if i == 0 then [] else codes ","

abbrev pub mode_name : Mode → Bytes
mode_name ap = codes "ap"
mode_name sta = codes "sta"

-- the loops over `console` and `filtered`: `i`, and the lines that are left
unfoldable pub line_pieces : ℕ → List Bytes → List Piece
line_pieces i [] = []
line_pieces i (line ∷ lines) =
    plain (comma i ++ codes "\"") ∷ escaped line ∷ plain (codes "\"") ∷ line_pieces (i + 1) lines

-- the loop over `filtered_seq`
unfoldable pub seq_pieces : ℕ → List ℕ → List Piece
seq_pieces i [] = []
seq_pieces i (seq ∷ seqs) = plain (comma i ++ decimal seq) ∷ seq_pieces (i + 1) seqs

-- `if (s[0])`
unfoldable pub alarm_pieces : Bytes → List Piece
alarm_pieces [] = plain (codes "null") ∷ []
alarm_pieces (c ∷ s) = plain (codes "\"") ∷ escaped (c ∷ s) ∷ plain (codes "\"") ∷ []

unfoldable pub wcs_pieces : Bytes → List Piece
wcs_pieces [] = plain (codes ",\"wcs\":null") ∷ []
wcs_pieces (c ∷ s) = plain (codes ",\"wcs\":\"" ++ (c ∷ s) ++ codes "\"") ∷ []

module _ (fl : Floats) where
  open fl use {Real, zero_real, print}

  -- `for (uint8_t i = 0; i < st.naxes && i < GRBL_MAX_AXES; i++)`, with the rounds left
  unfoldable pub axis_pieces : ℕ → ℕ → List Real → List Piece
  axis_pieces zero i axes = []
  axis_pieces (suc left) i axes =
      plain (comma i ++ print 3 (get_or axes i zero_real)) ∷ axis_pieces left (i + 1) axes

  unfoldable pub status_pieces :
      MachineState Real → List Bytes → List ℕ → List Bytes → Wifi → List Piece
  unfolding line_pieces seq_pieces alarm_pieces wcs_pieces axis_pieces
  status_pieces st console seqs filtered wifi =
      let naxes : ℕ = min st.naxes grbl_max_axes in
      joined (
        (plain (
            joined (
              codes "{\"connected\":"
              ∷ true_or_false st.connected
              ∷ codes ",\"status\":\""
              ∷ st.status
              ∷ codes "\",\"naxes\":"
              ∷ decimal st.naxes
              ∷ codes ",\"mpos\":["
              ∷ []))
          ∷ [])
        ∷ axis_pieces naxes 0 st.mpos
        ∷ (plain (
              joined
                (codes "],\"has_wpos\":" ∷ true_or_false st.has_wpos ∷ codes ",\"wpos\":[" ∷ []))
            ∷ [])
        ∷ axis_pieces naxes 0 st.wpos
        ∷ (plain (
              joined (
                codes "],\"feed\":"
                ∷ print 3 st.feed
                ∷ codes ",\"speed\":"
                ∷ print 3 st.speed
                ∷ codes ",\"alarm\":"
                ∷ []))
            ∷ [])
        ∷ alarm_pieces st.alarm
        ∷ (plain (
              if st.has_table
              then joined (
                  codes ",\"table\":"
                  ∷ print 2 st.table_deg
                  ∷ codes ",\"table_abs\":"
                  ∷ print 2 st.table_abs_deg
                  ∷ [])
              else codes ",\"table\":null,\"table_abs\":null")
            ∷ plain (
                if st.has_servo
                then codes ",\"servo\":" ++ print 2 st.servo_deg
                else codes ",\"servo\":null")
            ∷ [])
        ∷ wcs_pieces st.wcs
        ∷ (plain (
              joined (
                codes ",\"wifi_mode\":\""
                ∷ mode_name wifi.current_mode
                ∷ codes "\",\"ap_ssid\":\""
                ∷ wifi.ap_ssid
                ∷ codes "\",\"last_status_ms\":"
                ∷ decimal st.last_status_ms
                ∷ codes ",\"console\":["
                ∷ []))
            ∷ [])
        ∷ line_pieces 0 console
        ∷ (plain (codes "],\"console_filtered\":[") ∷ [])
        ∷ line_pieces 0 filtered
        ∷ (plain (codes "],\"console_filtered_seq\":[") ∷ [])
        ∷ seq_pieces 0 seqs
        ∷ (plain (codes "]}") ∷ [])
        ∷ [])

  -- `handle_status`, with a buffer of `cap_len` bytes
  unfoldable pub handle_status : ℕ → Shared Real → Wifi → Response
  handle_status cap_len s wifi =
      let (seqs, filtered) = Filtered.snapshot s.filtered status_filtered_lines in
      let o : Output =
        append_all cap_len
          (status_pieces (Machine.get s.machine) (Console.snapshot s.console status_console_lines)
            seqs filtered wifi)
          empty in
      record {
        status = 200;
        status_text = codes "OK";
        content_type = codes "application/json";
        body = o.text;
        body_len = body_len_of cap_len o.pos;
      }
