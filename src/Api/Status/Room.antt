-- ===== src/Api/Status/Room.antt =====
-- How long the JSON of the status is.
use pico2w_grbl_bridge.SharedState.Filtered.{Filtered}
use pico2w_grbl_bridge.SharedState.Console.{Console}
use pico2w_grbl_bridge.Base.{
  ℕ, zero, suc, ◌+◌, ◌*◌, ◌^◌, min, ◌<◌, ◌≤◌, ◌≡◌, Bool, List, [], some, arith, length, get_or,
  Bytes, codes,
}
use pico2w_grbl_bridge.Floats.{Floats}
use pico2w_grbl_bridge.SharedState.Machine
use pico2w_grbl_bridge.SharedState.Machine.{MachineState}
use pico2w_grbl_bridge.SharedState.Console
use pico2w_grbl_bridge.SharedState.Filtered
use pico2w_grbl_bridge.SharedState.Shared.{Shared}
use pico2w_grbl_bridge.WifiConfig.{Wifi}
use pico2w_grbl_bridge.Api.Output.Json.{visible}
use pico2w_grbl_bridge.Api.Status.Tree.{
  strings, numbers, number_if, axes, status_json, status_value, logs, wifi_fields, rig_fields,
  axis_fields,
}
use pico2w_grbl_bridge.Json.{Fields, number, array}
use pico2w_grbl_bridge.Json.Text.{quoted, json_text}
use pico2w_grbl_bridge.Json.Size.{
  Fits, FieldsFit, ItemsFit, field-Fits, no_fields_fit, item-Fits, no_items_fit, array-Fits,
  object-Fits, string-Fits, number-Fits, bool-Fits, weaken, weaken_items, weaken_fields,
}
use pico2w_grbl_bridge.Api.Status.Parts.{
  AllShort, AllWords, word-Fits, strings_fit, sequence_fits, text-Fits, number_if-Fits, mode-Fits,
  length-console, length-filtered,
}
use pico2w_grbl_bridge.Api.Status.{handle_status}
use pico2w_grbl_bridge.Api.Status.Text.{HasCleanTexts}
use pico2w_grbl_bridge.Api.Status.Valid.{HasNumbers, body_is_json}
use pico2w_grbl_bridge.Json.{read_json}

module _ (fl : Floats) where
  open fl use {Real, zero_real, print}

  -- `%.*f` with two or three decimals writes at most 44 bytes: a sign, 39 digits, a point, decimals.
  abbrev pub PrintsShort : Type 0
  PrintsShort = (x : Real) → (length (print 2 x) ≤ 44) × (length (print 3 x) ≤ 44)

  axes_fit :
      (n i : ℕ) (values : List Real)
      → PrintsShort
      → ItemsFit (n * 45 + 1) (numbers (axes fl n i values))
  unfolding axes numbers
  axes_fit zero i values short = weaken_items (omega arith) no_items_fit
  axes_fit (suc n) i values short = weaken_items (omega arith) (
      item-Fits
        (number-Fits (print 3 (get_or values i zero_real)) 44 (short (get_or values i zero_real)).1)
        (axes_fit n (i + 1) values short))

  -- Texts and numbers are within their sizes.
  pub record HasSizes (s : Shared Real) (wifi : Wifi) : Type 0 where
    pub status_within : length (quoted s.machine.status) ≤ 15
    pub naxes_within : s.machine.naxes < 2 ^ 32
    pub alarm_within : length (quoted (visible s.machine.alarm)) ≤ 158
    pub wcs_within : length (quoted (visible s.machine.wcs)) ≤ 7
    pub ap_ssid_within : length (quoted wifi.ap_ssid) ≤ 32
    pub last_status_within : s.machine.last_status_ms < 2 ^ 32
    pub console_within : AllShort 119 (Console.snapshot s.console 12)
    pub filtered_within : AllShort 119 (Filtered.snapshot s.filtered 30).1
    pub seqs_within : AllWords (Filtered.snapshot s.filtered 30).0

  lines_fit :
      (lines : List Bytes) (n : ℕ)
      → length lines ≤ n
      → AllShort 119 lines
      → Fits (n * 122 + 2) (array (strings lines))
  lines_fit lines n le h = weaken (omega arith) (array-Fits (strings_fit 119 lines h))

  axis_array-Fits :
      (n : ℕ) (values : List Real)
      → PrintsShort
      → Fits 272 (array (numbers (axes fl (min n 6) 0 values)))
  axis_array-Fits n values short =
      weaken (omega arith) (array-Fits (axes_fit (min n 6) 0 values short))

  logs_fit :
      (s : Shared Real) (wifi : Wifi)
      → HasSizes s wifi
      → (let (seqs, filtered) = Filtered.snapshot s.filtered 30 in
          FieldsFit 5519 (logs fl (Console.snapshot s.console 12) seqs filtered))
  unfolding quoted
  logs_fit s wifi h =
      let (seqs, filtered) = Filtered.snapshot s.filtered 30 in
      let lengths = length-filtered s.filtered 30 in
      weaken_fields (omega (arith, lengths.0)) (
        field-Fits (codes "console")
          (lines_fit (Console.snapshot s.console 12) 12 (length-console s.console 12)
            h.console_within)
          (field-Fits (codes "console_filtered") (lines_fit filtered 30 lengths.1 h.filtered_within)
            (field-Fits (codes "console_filtered_seq")
              (array-Fits (sequence_fits seqs h.seqs_within)) no_fields_fit)))

  wifi_fit :
      {m : ℕ} {fs : Fields} (s : Shared Real) (wifi : Wifi)
      → HasSizes s wifi
      → FieldsFit m fs
      → FieldsFit (91 + m) (wifi_fields fl s.machine wifi fs)
  unfolding quoted
  wifi_fit s wifi h g = weaken_fields (omega arith) (
      field-Fits (codes "wifi_mode") (mode-Fits wifi.current_mode) (
        field-Fits (codes "ap_ssid") (string-Fits wifi.ap_ssid 32 h.ap_ssid_within) (
          field-Fits (codes "last_status_ms")
            (word-Fits s.machine.last_status_ms h.last_status_within) g)))

  rig_fit :
      {m : ℕ} {fs : Fields} (s : Shared Real) (wifi : Wifi)
      → PrintsShort
      → HasSizes s wifi
      → FieldsFit m fs
      → FieldsFit (348 + m) (rig_fields fl s.machine fs)
  unfolding quoted
  rig_fit s wifi short h g =
      let st = s.machine in
      let if_given : (b : Bool) (x : Real) → Fits 44 (number_if b (print 2 x)) =
        λ b x. number_if-Fits b (print 2 x) (short x).0 in
      weaken_fields (omega arith) (
        field-Fits (codes "alarm") (text-Fits st.alarm 158 h.alarm_within (omega arith)) (
          field-Fits (codes "table") (if_given st.has_table st.table_deg) (
            field-Fits (codes "table_abs") (if_given st.has_table st.table_abs_deg) (
              field-Fits (codes "servo") (if_given st.has_servo st.servo_deg)
                (field-Fits (codes "wcs") (text-Fits st.wcs 7 h.wcs_within (omega arith)) g)))))

  axis_fit :
      {m : ℕ} {fs : Fields} (s : Shared Real) (wifi : Wifi)
      → PrintsShort
      → HasSizes s wifi
      → FieldsFit m fs
      → FieldsFit (701 + m) (axis_fields fl s.machine fs)
  unfolding quoted
  axis_fit s wifi short h g =
      let st = s.machine in
      let shown : (x : Real) → Fits 44 (number (print 3 x)) =
        λ x. number-Fits (print 3 x) 44 (short x).1 in
      weaken_fields (omega arith) (
        field-Fits (codes "naxes") (word-Fits st.naxes h.naxes_within) (
          field-Fits (codes "mpos") (axis_array-Fits st.naxes st.mpos short) (
            field-Fits (codes "has_wpos") (bool-Fits st.has_wpos) (
              field-Fits (codes "wpos") (axis_array-Fits st.naxes st.wpos short) (
                field-Fits (codes "feed") (shown st.feed)
                  (field-Fits (codes "speed") (shown st.speed) g))))))

  status_has_room :
      (s : Shared Real) (wifi : Wifi)
      → PrintsShort
      → HasSizes s wifi
      → length (json_text (status_value fl s wifi) []) + 2 < 7168
  unfolding status_json quoted Machine.get
  status_has_room s wifi short h =
      let fits = object-Fits (
        field-Fits (codes "connected") (bool-Fits s.machine.connected) (
          field-Fits (codes "status") (string-Fits s.machine.status 15 h.status_within) (
            axis_fit s wifi short h
              (rig_fit s wifi short h (wifi_fit s wifi h (logs_fit s wifi h)))))) in
      omega (arith, fits.value_within [])

  -- What /api/status answers with is JSON, and says what the firmware knows: read as JSON, the body is
  -- the object with exactly the fields of the machine state, the newest lines of both logs without
  -- their control characters, the numbers of the filtered lines, and the WiFi state. (The buffer has the
  -- 7168 bytes of the server, `%.*f` writes numbers of at most 44 bytes with two or three decimals, each log line takes at most 119
  -- bytes with its escapes, every text and number is within its size in src/shared_state.h, and
  -- the status word, the coordinate system and the access point's name need no escapes.)
  pub status_is_json :
      (s : Shared Real) (wifi : Wifi)
      → HasCleanTexts fl (Machine.get s.machine) wifi
      → HasNumbers fl (Machine.get s.machine)
      → PrintsShort
      → HasSizes s wifi
      → read_json (handle_status fl 7168 s wifi).body ≡ some (status_value fl s wifi)
  status_is_json s wifi clean numbers short sizes =
      body_is_json fl 7168 s wifi clean numbers (status_has_room s wifi short sizes)
