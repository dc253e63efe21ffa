-- ===== src/Api/Status/Tree.antt =====
-- The value that `/api/status` answers with.
use pico2w_grbl_bridge.Base.{
  ℕ, zero, suc, ◌+◌, min, Bool, List, [], ◌∷◌, get_or, if◌then◌else◌, Bytes, codes,
}
use pico2w_grbl_bridge.CString.Decimal.{decimal}
use pico2w_grbl_bridge.Floats.{Floats}
use pico2w_grbl_bridge.SharedState.Machine
use pico2w_grbl_bridge.SharedState.Console
use pico2w_grbl_bridge.SharedState.Filtered
use pico2w_grbl_bridge.SharedState.Shared.{Shared}
use pico2w_grbl_bridge.SharedState.Machine.{MachineState}
use pico2w_grbl_bridge.WifiConfig.{Wifi}
use pico2w_grbl_bridge.Api.Output.Json.{visible}
use pico2w_grbl_bridge.Api.Status.{mode_name, status_filtered_lines, status_console_lines}
use pico2w_grbl_bridge.Json.{
  Json, Items, Fields, null, bool, number, string, array, object, no_items, item, no_fields, field,
}

unfoldable pub strings : List Bytes → Items
unfolding visible
strings [] = no_items
strings (line ∷ lines) = item (string (visible line)) (strings lines)

unfoldable pub numbers : List Bytes → Items
numbers [] = no_items
numbers (text ∷ texts) = item (number text) (numbers texts)

unfoldable pub sequence : List ℕ → Items
unfolding decimal
sequence [] = no_items
sequence (n ∷ ns) = item (number (decimal n)) (sequence ns)

-- `null` for a text that is empty
abbrev pub text_or_null : Bytes → Json
text_or_null [] = null
text_or_null (c ∷ s) = string (visible (c ∷ s))

abbrev pub number_if : Bool → Bytes → Json
number_if given text = if given then number text else null

module _ (fl : Floats) where
  open fl use {Real, zero_real, print}

  -- the numbers of the first axes
  unfoldable pub axes : ℕ → ℕ → List Real → List Bytes
  axes zero i values = []
  axes (suc left) i values = print 3 (get_or values i zero_real) ∷ axes left (i + 1) values

  -- The text fields are the ones that the firmware escapes, or that hold nothing to escape.
  abbrev pub logs : List Bytes → List ℕ → List Bytes → Fields
  logs console seqs filtered = field (codes "console") (array (strings console)) (
      field (codes "console_filtered") (array (strings filtered))
        (field (codes "console_filtered_seq") (array (sequence seqs)) no_fields))

  abbrev pub wifi_fields : MachineState Real → Wifi → Fields → Fields
  wifi_fields st wifi fs = field (codes "wifi_mode") (string (mode_name wifi.current_mode)) (
      field (codes "ap_ssid") (string wifi.ap_ssid)
        (field (codes "last_status_ms") (number (decimal st.last_status_ms)) fs))

  abbrev pub rig_fields : MachineState Real → Fields → Fields
  rig_fields st fs = field (codes "alarm") (text_or_null st.alarm) (
      field (codes "table") (number_if st.has_table (print 2 st.table_deg)) (
        field (codes "table_abs") (number_if st.has_table (print 2 st.table_abs_deg)) (
          field (codes "servo") (number_if st.has_servo (print 2 st.servo_deg))
            (field (codes "wcs") (text_or_null st.wcs) fs))))

  abbrev pub axis_fields : MachineState Real → Fields → Fields
  axis_fields st fs =
      let n : ℕ = min st.naxes 6 in
      field (codes "naxes") (number (decimal st.naxes)) (
        field (codes "mpos") (array (numbers (axes n 0 st.mpos))) (
          field (codes "has_wpos") (bool st.has_wpos) (
            field (codes "wpos") (array (numbers (axes n 0 st.wpos))) (
              field (codes "feed") (number (print 3 st.feed))
                (field (codes "speed") (number (print 3 st.speed)) fs)))))

  unfoldable pub status_json : MachineState Real → List Bytes → List ℕ → List Bytes → Wifi → Json
  unfolding strings numbers sequence axes
  status_json st console seqs filtered wifi = object (
      field (codes "connected") (bool st.connected) (
        field (codes "status") (string st.status)
          (axis_fields st (rig_fields st (wifi_fields st wifi (logs console seqs filtered))))))

  -- what the state of the firmware says
  abbrev pub status_value : Shared Real → Wifi → Json
  status_value s wifi =
      let (seqs, filtered) = Filtered.snapshot s.filtered status_filtered_lines in
      status_json (Machine.get s.machine) (Console.snapshot s.console status_console_lines) seqs
        filtered wifi
