-- ===== src/Api/Status/Valid.antt =====
-- The status response is JSON, and says what the firmware knows.
use pico2w_grbl_bridge.Base.{
  ℕ, zero, suc, ◌+◌, min, ◌<◌, ◌≡◌, refl, ap, ◌∙◌, true, false, some, List, [], ◌∷◌, arith, length,
  get_or, Bytes, codes, ltb, Bool-cases, inl, inr, Bool, not, ◌&&◌,
}
use pico2w_grbl_bridge.Floats.{Floats}
use pico2w_grbl_bridge.SharedState.Machine
use pico2w_grbl_bridge.SharedState.Machine.{MachineState}
use pico2w_grbl_bridge.SharedState.Console
use pico2w_grbl_bridge.SharedState.Filtered
use pico2w_grbl_bridge.SharedState.Shared.{Shared}
use pico2w_grbl_bridge.WifiConfig.{Wifi, Mode, sta, ap as access_point}
use pico2w_grbl_bridge.Api.Output.{empty, Output}
use pico2w_grbl_bridge.Api.Output.Json.{visible}
use pico2w_grbl_bridge.Api.Status.{
  status_pieces, handle_status, status_console_lines, status_filtered_lines, mode_name,
}
use pico2w_grbl_bridge.Api.Status.Render.{append_all-render}
use pico2w_grbl_bridge.Api.Status.Tree.{
  strings, numbers, sequence, text_or_null, number_if, axes, status_json, status_value,
}
use pico2w_grbl_bridge.Api.Status.Text.{IsClean, HasCleanTexts, render-status_pieces}
use pico2w_grbl_bridge.Json.{read_json}
use pico2w_grbl_bridge.Json.Number.{is_number}
use pico2w_grbl_bridge.Json.Decimal.{is_number-decimal}
use pico2w_grbl_bridge.Json.Text.{json_text, IsShown, IsGood, AreGood}
use pico2w_grbl_bridge.Json.RoundTrip.{read_json-json_text}

visible-IsShown : (s : Bytes) → IsShown (visible s)
unfolding visible
visible-IsShown [] = tt
visible-IsShown (c ∷ s) = elim (Bool-cases (ltb c 0x20)) [
  | inl control ↦ rw control (visible-IsShown s)
  | inr shown ↦ rw shown (shown, visible-IsShown s)
]

IsClean-IsShown : (s : Bytes) → IsClean s → IsShown s
IsClean-IsShown [] h = tt
IsClean-IsShown (c ∷ s) h = (h.1, IsClean-IsShown s h.2)

strings-AreGood : (lines : List Bytes) → AreGood (strings lines)
unfolding strings
strings-AreGood [] = tt
strings-AreGood (line ∷ lines) = (visible-IsShown line, strings-AreGood lines)

sequence-AreGood : (ns : List ℕ) → AreGood (sequence ns)
unfolding sequence
sequence-AreGood [] = tt
sequence-AreGood (n ∷ ns) = (is_number-decimal n, sequence-AreGood ns)

text_or_null-IsGood : (s : Bytes) → IsGood (text_or_null s)
text_or_null-IsGood [] = tt
text_or_null-IsGood (c ∷ s) = visible-IsShown (c ∷ s)

number_if-IsGood : (given : Bool) (t : Bytes) → is_number t ≡ true → IsGood (number_if given t)
number_if-IsGood true t h = h
number_if-IsGood false t h = tt

abbrev all_shown : Bytes → Bool
all_shown [] = true
all_shown (c ∷ s) = not (ltb c 0x20) && all_shown s

name-IsShown : (s : Bytes) → all_shown s ≡ true → IsShown s
name-IsShown [] h = tt
name-IsShown (c ∷ s) h = ground (arith, name-IsShown s)

member : {P Q : Type 0} (key : Bytes) → all_shown key ≡ true → P → Q → IsShown key × P × Q
member key shown good rest = (name-IsShown key shown, good, rest)

mode-IsShown : (m : Mode) → IsShown (mode_name m)
mode-IsShown access_point = name-IsShown (codes "ap") refl
mode-IsShown sta = name-IsShown (codes "sta") refl

module _ (fl : Floats) where
  open fl use {Real, zero_real, print}

  -- `%.*f` writes a number, not `nan` or `inf`.
  abbrev pub Prints : ℕ → Real → Type 0
  Prints decimals x = is_number (print decimals x) ≡ true

  pub record HasNumbers (st : MachineState Real) : Type 0 where
    pub mpos_prints : (i : ℕ) → Prints 3 (get_or st.mpos i zero_real)
    pub wpos_prints : (i : ℕ) → Prints 3 (get_or st.wpos i zero_real)
    pub feed_prints : Prints 3 st.feed
    pub speed_prints : Prints 3 st.speed
    pub table_prints : Prints 2 st.table_deg
    pub table_abs_prints : Prints 2 st.table_abs_deg
    pub servo_prints : Prints 2 st.servo_deg

  axes-AreGood :
      (n i : ℕ) (values : List Real)
      → ((j : ℕ) → Prints 3 (get_or values j zero_real))
      → AreGood (numbers (axes fl n i values))
  unfolding axes numbers
  axes-AreGood zero i values h = tt
  axes-AreGood (suc n) i values h = (h i, axes-AreGood n (i + 1) values h)

  status_json-IsGood :
      (st : MachineState Real) (console : List Bytes) (seqs : List ℕ) (filtered : List Bytes)
      (wifi : Wifi)
      → HasCleanTexts fl st wifi
      → HasNumbers st
      → IsGood (status_json fl st console seqs filtered wifi)
  unfolding status_json
  status_json-IsGood st console seqs filtered wifi h p =
      let n : ℕ = min st.naxes 6 in
      member (codes "connected") refl tt (
        member (codes "status") refl (IsClean-IsShown st.status h.status_clean) (
          member (codes "naxes") refl (is_number-decimal st.naxes) (
            member (codes "mpos") refl (axes-AreGood n 0 st.mpos p.mpos_prints) (
              member (codes "has_wpos") refl tt (
                member (codes "wpos") refl (axes-AreGood n 0 st.wpos p.wpos_prints) (
                  member (codes "feed") refl p.feed_prints (
                    member (codes "speed") refl p.speed_prints (
                      member (codes "alarm") refl (text_or_null-IsGood st.alarm) (
                        member (codes "table") refl
                          (number_if-IsGood st.has_table (print 2 st.table_deg) p.table_prints)
                          (member (codes "table_abs") refl
                            (number_if-IsGood st.has_table (print 2 st.table_abs_deg)
                              p.table_abs_prints)
                            (member (codes "servo") refl
                              (number_if-IsGood st.has_servo (print 2 st.servo_deg) p.servo_prints)
                              (member (codes "wcs") refl (text_or_null-IsGood st.wcs) (
                                member (codes "wifi_mode") refl (mode-IsShown wifi.current_mode) (
                                  member (codes "ap_ssid") refl
                                    (IsClean-IsShown wifi.ap_ssid h.ap_ssid_clean)
                                    (member (codes "last_status_ms") refl
                                      (is_number-decimal st.last_status_ms)
                                      (member (codes "console") refl (strings-AreGood console) (
                                        member (codes "console_filtered") refl
                                          (strings-AreGood filtered)
                                          (member (codes "console_filtered_seq") refl
                                            (sequence-AreGood seqs) tt))))))))))))))))))

  -- The status texts hold no characters that need escapes, `%.*f` writes numbers, and the JSON has room
  -- in the buffer: then the body, read as JSON, is the object with exactly the fields of the
  -- machine state, the lines of both logs without their control characters, the numbers of the filtered
  -- lines, and the WiFi state.
  pub body_is_json :
      (cap_len : ℕ) (s : Shared Real) (wifi : Wifi)
      → HasCleanTexts fl (Machine.get s.machine) wifi
      → HasNumbers (Machine.get s.machine)
      → length (json_text (status_value fl s wifi) []) + 2 < cap_len
      → read_json (handle_status fl cap_len s wifi).body ≡ some (status_value fl s wifi)
  unfolding handle_status
  body_is_json cap_len s wifi clean prints room =
      let st = Machine.get s.machine in
      let (seqs, filtered) = Filtered.snapshot s.filtered status_filtered_lines in
      let console = Console.snapshot s.console status_console_lines in
      let same = render-status_pieces fl st console seqs filtered wifi clean in
      ap (λ o. read_json (Output.text o))
        (append_all-render cap_len (status_pieces fl st console seqs filtered wifi) empty refl
          (omega (arith, room, ap length same)))
      ∙ ap read_json same
      ∙ read_json-json_text (status_json fl st console seqs filtered wifi)
          (status_json-IsGood st console seqs filtered wifi clean prints)
