-- ===== src/Api/Status/Text.antt =====
-- The pieces of `handle_status` are the text of its value.
use pico2w_grbl_bridge.Base.{
  ℕ, zero, suc, ◌+◌, ◌≡◌, refl, ap, ◌∙◌, Bool, true, false, ◌||◌, List, [], ◌∷◌, ◌++◌, append_assoc,
  arith, ltb, ◌==◌, if◌then◌else◌, get_or, Bytes, codes, ap₂, sym, ◌<◌,
}
use pico2w_grbl_bridge.CString.Decimal.{decimal}
use pico2w_grbl_bridge.Floats.{Floats}
use pico2w_grbl_bridge.SharedState.Machine.{MachineState}
use pico2w_grbl_bridge.WifiConfig.{Wifi, Mode, sta, ap as access_point}
use pico2w_grbl_bridge.Api.Output.Json.{visible, escapes}
use pico2w_grbl_bridge.Api.Status.{
  mode_name, line_pieces, seq_pieces, alarm_pieces, wcs_pieces, axis_pieces, status_pieces,
  true_or_false, comma,
}
use pico2w_grbl_bridge.Api.Status.Render.{render, render-append}
use pico2w_grbl_bridge.Api.Status.Tree.{
  strings, numbers, sequence, text_or_null, number_if, axes, status_json,
}
use pico2w_grbl_bridge.Json.{bool, number}
use pico2w_grbl_bridge.Json.Text.{quoted, json_text, items_text, more_items_text}

-- Nothing to escape, and nothing that is dropped.
abbrev pub IsClean : Bytes → Type 0
IsClean [] = Unit
IsClean (c ∷ s) = ((c == b'"' || c == b'\\') ≡ false) × (ltb c 0x20 ≡ false) × IsClean s

quoted-visible : (s : Bytes) → quoted (visible s) ≡ escapes s
unfolding quoted visible escapes
quoted-visible [] = refl
quoted-visible (c ∷ s) = ground (arith, quoted-visible s)

quoted_clean : (s : Bytes) → IsClean s → quoted s ≡ s
unfolding quoted
quoted_clean [] h = refl
quoted_clean (c ∷ s) h = rw h.0 (ap (λ t. c ∷ t) (quoted_clean s h.2))

later_comma : (i : ℕ) → 0 < i → comma i ≡ codes ","
later_comma i h = ground arith

escapes_clean : (s : Bytes) → IsClean s → escapes s ≡ s
unfolding escapes
escapes_clean [] h = refl
escapes_clean (c ∷ s) h = rw (h.0, h.1) (ap (λ t. c ∷ t) (escapes_clean s h.2))

more_lines :
    (i : ℕ) (lines : List Bytes) (rest : Bytes)
    → 0 < i
    → render (line_pieces i lines) (b']' ∷ rest) ≡ more_items_text (strings lines) rest
unfolding render line_pieces strings more_items_text
more_lines i [] rest h = refl
more_lines i (line ∷ lines) rest h = rw (later_comma i h) (
    ap₂ (λ t u. b',' ∷ b'"' ∷ (t ++ b'"' ∷ u)) (sym (quoted-visible line))
      (more_lines (i + 1) lines rest (omega arith)))

lines_text :
    (lines : List Bytes) (rest : Bytes)
    → render (line_pieces 0 lines) (b']' ∷ rest) ≡ items_text (strings lines) rest
unfolding render line_pieces strings items_text
lines_text [] rest = refl
lines_text (line ∷ lines) rest =
    ap₂ (λ t u. b'"' ∷ (t ++ b'"' ∷ u)) (sym (quoted-visible line))
      (more_lines 1 lines rest (omega arith))

more_seqs :
    (i : ℕ) (seqs : List ℕ) (rest : Bytes)
    → 0 < i
    → render (seq_pieces i seqs) (b']' ∷ rest) ≡ more_items_text (sequence seqs) rest
unfolding render seq_pieces sequence more_items_text
more_seqs i [] rest h = refl
more_seqs i (n ∷ seqs) rest h =
    rw (later_comma i h)
      (ap (λ u. b',' ∷ (decimal n ++ u)) (more_seqs (i + 1) seqs rest (omega arith)))

seqs_text :
    (seqs : List ℕ) (rest : Bytes)
    → render (seq_pieces 0 seqs) (b']' ∷ rest) ≡ items_text (sequence seqs) rest
unfolding render seq_pieces sequence items_text
seqs_text [] rest = refl
seqs_text (n ∷ seqs) rest = ap (λ u. decimal n ++ u) (more_seqs 1 seqs rest (omega arith))

module _ (fl : Floats) where
  open fl use {Real, zero_real, print}

  more_axes :
      (left i : ℕ) (values : List Real) (rest : Bytes)
      → 0 < i
      → render (axis_pieces fl left i values) (b']' ∷ rest)
        ≡ more_items_text (numbers (axes fl left i values)) rest
  unfolding render axis_pieces numbers axes more_items_text
  more_axes zero i values rest h = refl
  more_axes (suc left) i values rest h = rw (later_comma i h) (
      ap (λ u. b',' ∷ (print 3 (get_or values i zero_real) ++ u))
        (more_axes left (i + 1) values rest (omega arith)))

  axes_text :
      (n : ℕ) (values : List Real) (rest : Bytes)
      → render (axis_pieces fl n 0 values) (b']' ∷ rest)
        ≡ items_text (numbers (axes fl n 0 values)) rest
  unfolding render axis_pieces numbers axes items_text
  axes_text zero values rest = refl
  axes_text (suc n) values rest =
      ap (λ u. print 3 (get_or values 0 zero_real) ++ u) (more_axes n 1 values rest (omega arith))

alarm_text : (s rest : Bytes) → render (alarm_pieces s) rest ≡ json_text (text_or_null s) rest
unfolding render alarm_pieces json_text
alarm_text [] rest = refl
alarm_text (c ∷ s) rest = ap (λ t. b'"' ∷ (t ++ b'"' ∷ rest)) (sym (quoted-visible (c ∷ s)))

-- `wcs` goes unescaped.
wcs_text :
    (s : Bytes)
    → IsClean s
    → (rest : Bytes)
    → render (wcs_pieces s) rest ≡ codes ",\"wcs\":" ++ json_text (text_or_null s) rest
unfolding render wcs_pieces json_text
wcs_text [] h rest = refl
wcs_text (c ∷ s) h rest =
    ap (λ t. codes ",\"wcs\":\"" ++ t)
      (append_assoc (c ∷ s) (b'"' ∷ []) rest
        ∙ ap (λ t. t ++ b'"' ∷ rest) (sym (quoted-visible (c ∷ s) ∙ escapes_clean (c ∷ s) h)))

number_text : (t rest : Bytes) → json_text (number t) rest ≡ t ++ rest
unfolding json_text
number_text t rest = refl

table_text :
    (b : Bool) (t u rest : Bytes)
    → (if b
          then codes ",\"table\":" ++ (t ++ (codes ",\"table_abs\":" ++ u))
          else codes ",\"table\":null,\"table_abs\":null")
        ++ rest
      ≡ codes ",\"table\":"
        ++ json_text (number_if b t) (codes ",\"table_abs\":" ++ json_text (number_if b u) rest)
unfolding json_text
table_text true t u rest =
    ap (λ v. codes ",\"table\":" ++ v) (append_assoc t (codes ",\"table_abs\":" ++ u) rest)
table_text false t u rest = refl

servo_text :
    (b : Bool) (t rest : Bytes)
    → (if b then codes ",\"servo\":" ++ t else codes ",\"servo\":null") ++ rest
      ≡ codes ",\"servo\":" ++ json_text (number_if b t) rest
unfolding json_text
servo_text true t rest = refl
servo_text false t rest = refl

quoted_mode : (m : Mode) → quoted (mode_name m) ≡ mode_name m
unfolding quoted
quoted_mode access_point = refl
quoted_mode sta = refl

bool_text : (b : Bool) (rest : Bytes) → json_text (bool b) rest ≡ true_or_false b ++ rest
unfolding json_text
bool_text true rest = refl
bool_text false rest = refl

module _ (fl : Floats) where
  open fl use {Real, print}

  -- What the firmware inserts as it is needs no escapes.
  pub record HasCleanTexts (st : MachineState Real) (wifi : Wifi) : Type 0 where
    pub status_clean : IsClean st.status
    pub wcs_clean : IsClean st.wcs
    pub ap_ssid_clean : IsClean wifi.ap_ssid

  pub render-status_pieces :
      (st : MachineState Real) (console : List Bytes) (seqs : List ℕ) (filtered : List Bytes)
      (wifi : Wifi)
      → HasCleanTexts st wifi
      → render (status_pieces fl st console seqs filtered wifi) []
        ≡ json_text (status_json fl st console seqs filtered wifi) []
  unfolding status_pieces status_json render json_text quoted
  render-status_pieces st console seqs filtered wifi h =
      rw
        (
          quoted_clean st.status h.status_clean,
          quoted_clean wifi.ap_ssid h.ap_ssid_clean,
          quoted_mode wifi.current_mode,
        )
        (simp
          (
            render-append,
            append_assoc,
            axes_text fl,
            lines_text,
            seqs_text,
            alarm_text,
            table_text,
            servo_text,
            bool_text,
            number_text,
            wcs_text st.wcs h.wcs_clean,
          )
          refl)
