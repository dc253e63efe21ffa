-- ===== src/GrblLink/Report/Meaning.antt =====
-- What the loop of `parse_status_report` makes of one printed field.
use pico2w_grbl_bridge.Base.{
  min, ◌≡◌, ◌≢◌, refl, sym, ap, ◌∙◌, false, List, [], ◌∷◌, arith, length, Bytes, codes,
}
use pico2w_grbl_bridge.CString.{mem_byte, str_eq, split_at}
use pico2w_grbl_bridge.CString.Tokens.{Clean, Clean-append, split_at-append}
use pico2w_grbl_bridge.Floats.{Floats}
use pico2w_grbl_bridge.GrblLink.Report.{parse_csv_floats, Fields, assign, assign_split}
use pico2w_grbl_bridge.GrblLink.Report.Print.{
  csv, Field, mpos, wpos, wco, fs, tbl, tblabs, st3215, wcs, other, key, value, print_field,
  meaning, overlay,
}
use pico2w_grbl_bridge.GrblLink.Report.Values.{
  stops, IsPrinter, length-overlay, Clean-csv, parse_csv_floats-csv,
}

abbrev Unknown : Bytes → Type 0
Unknown k =
    (str_eq k (codes "MPos") ≡ false)
    × (str_eq k (codes "WPos") ≡ false)
    × (str_eq k (codes "WCO") ≡ false)
    × (str_eq k (codes "FS") ≡ false)
    × (str_eq k (codes "TBL") ≡ false)
    × (str_eq k (codes "TBLABS") ≡ false)
    × (str_eq k (codes "ST3215") ≡ false)
    × (str_eq k (codes "WCS") ≡ false)

-- Text fields hold no bar and no NUL; the key of another field is none of those that are read, and
-- holds no colon.
abbrev pub IsField : {F : Type 0} → Field F → Type 0
IsField (wcs text) = Clean stops text
IsField (other k v) = Clean stops k × Clean (codes ":") k × Clean stops v × Unknown k
IsField _ = Unit

abbrev pub AllFields : {F : Type 0} → List (Field F) → Type 0
AllFields [] = Unit
AllFields (f ∷ fields) = IsField f × AllFields fields

-- The arrays of `parse_status_report` have six entries.
abbrev pub HasAxes : {F : Type 0} → Fields F → Type 0
HasAxes f = (length f.mpos ≡ 6) × (length f.wpos ≡ 6) × (length f.wco ≡ 6)

pub meaning-HasAxes : {F : Type 0} (d : Field F) (f : Fields F) → HasAxes f → HasAxes (meaning d f)
unfolding meaning
meaning-HasAxes (mpos xs) f h = (length-overlay xs f.mpos ∙ h.0, h.1, h.2)
meaning-HasAxes (wpos xs) f h = (h.0, length-overlay xs f.wpos ∙ h.1, h.2)
meaning-HasAxes (wco xs) f h = (h.0, h.1, length-overlay xs f.wco ∙ h.2)
meaning-HasAxes _ f h = h

module _ (fl : Floats) (show : fl.Real → Bytes) (printer : IsPrinter fl show) where
  open fl use {Real}

  six :
      (xs out : List Real)
      → length out ≡ 6
      → parse_csv_floats fl (csv show xs) out 6 ≡ (min 6 (length xs), overlay xs out)
  six xs out e =
      ap (parse_csv_floats fl (csv show xs) out) (sym e)
      ∙ parse_csv_floats-csv fl show printer xs out
      ∙ ap (λ k. (k, overlay xs out)) {x = min (length xs) (length out)} (omega arith)

  assign-meaning :
      (d : Field Real) (f : Fields Real)
      → IsField d
      → HasAxes f
      → assign fl (key show d) (value show d) f ≡ meaning d f
  unfolding assign key value meaning str_eq
  assign-meaning (mpos xs) f h a = rw (six xs f.mpos a.0) (ground arith)
  assign-meaning (wpos xs) f h a = rw (six xs f.wpos a.1) (ground arith)
  assign-meaning (wco xs) f h a = rw (six xs f.wco a.2) (ground arith)
  assign-meaning (fs x y) f h a =
      rw (parse_csv_floats-csv fl show printer (x ∷ y ∷ []) (fl.zero_real ∷ fl.zero_real ∷ []))
  assign-meaning (tbl x) f h a =
      rw (parse_csv_floats-csv fl show printer (x ∷ []) (f.table_deg ∷ []))
  assign-meaning (tblabs x) f h a =
      rw (parse_csv_floats-csv fl show printer (x ∷ []) (f.table_abs_deg ∷ []))
  assign-meaning (st3215 x) f h a =
      rw (parse_csv_floats-csv fl show printer (x ∷ []) (f.servo_deg ∷ []))
  assign-meaning (wcs text) f h a = refl
  assign-meaning (other k v) f h a = ground arith

  Clean-key :
      (d : Field Real) → IsField d → Clean stops (key show d) × Clean (codes ":") (key show d)
  unfolding key mem_byte
  Clean-key (other k v) h = (h.0, h.1)
  Clean-key _ h = ground arith

  Clean-value : (d : Field Real) → IsField d → Clean stops (value show d)
  unfolding value mem_byte
  Clean-value (mpos xs) h = Clean-csv fl show printer xs
  Clean-value (wpos xs) h = Clean-csv fl show printer xs
  Clean-value (wco xs) h = Clean-csv fl show printer xs
  Clean-value (fs x y) h = Clean-csv fl show printer (x ∷ y ∷ [])
  Clean-value (tbl x) h = Clean-csv fl show printer (x ∷ [])
  Clean-value (tblabs x) h = Clean-csv fl show printer (x ∷ [])
  Clean-value (st3215 x) h = Clean-csv fl show printer (x ∷ [])
  Clean-value (wcs text) h = h
  Clean-value (other k v) h = h.2

  pub Clean-print_field : (d : Field Real) → IsField d → Clean stops (print_field show d)
  unfolding print_field mem_byte
  Clean-print_field d h =
      Clean-append stops (key show d) (b':' ∷ value show d) (Clean-key d h).0
        (refl, Clean-value d h)

  pub print_field-ne_nil : (d : Field Real) → print_field show d ≢ []
  unfolding print_field key value
  print_field-ne_nil (other [] v) = λ e. cc
  print_field-ne_nil (other (c ∷ k) v) = λ e. cc
  print_field-ne_nil _ = λ e. cc

  pub assign-print_field :
      (d : Field Real) (f : Fields Real)
      → IsField d
      → HasAxes f
      → assign_split fl (split_at b':' (print_field show d)) f ≡ meaning d f
  unfolding print_field
  assign-print_field d f h a =
      ap (λ o. assign_split fl o f)
        (split_at-append b':' (key show d) (value show d) (Clean-key d h).1)
      ∙ assign-meaning d f h a
