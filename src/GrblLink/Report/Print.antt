-- ===== src/GrblLink/Report/Print.antt =====
-- The status reports as grblHAL writes them, and what they mean. `show` is how the controller
-- prints a number.
use pico2w_grbl_bridge.Base.{min, true, List, [], ◌∷◌, ◌++◌, length, ltb, Bytes, codes}
use pico2w_grbl_bridge.CString.{strncpy}
use pico2w_grbl_bridge.GrblLink.Report.{Fields}

pub data Field (F : Type 0) : Type 0 where
  mpos : List F → Field F
  wpos : List F → Field F
  wco : List F → Field F
  fs : F → F → Field F
  tbl : F → Field F
  tblabs : F → Field F
  st3215 : F → Field F
  wcs : Bytes → Field F
  other : Bytes → Bytes → Field F

module _ {F : Type 0} (show : F → Bytes) where
  unfoldable pub csv : List F → Bytes
  csv [] = []
  csv (x ∷ []) = show x
  csv (x ∷ y ∷ xs) = show x ++ (b',' ∷ csv (y ∷ xs))

  unfoldable pub key : Field F → Bytes
  key (mpos xs) = codes "MPos"
  key (wpos xs) = codes "WPos"
  key (wco xs) = codes "WCO"
  key (fs x y) = codes "FS"
  key (tbl x) = codes "TBL"
  key (tblabs x) = codes "TBLABS"
  key (st3215 x) = codes "ST3215"
  key (wcs text) = codes "WCS"
  key (other k v) = k

  unfoldable pub value : Field F → Bytes
  unfolding csv
  value (mpos xs) = csv xs
  value (wpos xs) = csv xs
  value (wco xs) = csv xs
  value (fs x y) = csv (x ∷ y ∷ [])
  value (tbl x) = csv (x ∷ [])
  value (tblabs x) = csv (x ∷ [])
  value (st3215 x) = csv (x ∷ [])
  value (wcs text) = text
  value (other k v) = v

  unfoldable pub print_field : Field F → Bytes
  unfolding key value
  print_field f = key f ++ (b':' ∷ value f)

  unfoldable pub print_fields : List (Field F) → Bytes
  unfolding print_field
  print_fields [] = []
  print_fields (f ∷ fields) = b'|' ∷ (print_field f ++ print_fields fields)

  -- `<word|key:value|...>`
  unfoldable pub print : Bytes → List (Field F) → Bytes
  unfolding print_fields
  print word fields = b'<' ∷ (word ++ (print_fields fields ++ (b'>' ∷ [])))

-- `xs` written over the beginning of `out`, as far as it goes
unfoldable pub overlay {ℓ} : {A : Type ℓ} → List A → List A → List A
overlay [] out = out
overlay (x ∷ xs) [] = []
overlay (x ∷ xs) (o ∷ out) = x ∷ overlay xs out

module _ {F : Type 0} where
  -- What a field says, at most six axes of it.
  unfoldable pub meaning : Field F → Fields F → Fields F
  unfolding overlay
  meaning (mpos xs) f = record f {
    mpos = overlay xs f.mpos;
    n_mpos = min 6 (length xs);
    have_mpos = ltb 0 (length xs);
  }
  meaning (wpos xs) f = record f {
    wpos = overlay xs f.wpos;
    n_wpos = min 6 (length xs);
    have_wpos = ltb 0 (length xs);
  }
  meaning (wco xs) f = record f {
    wco = overlay xs f.wco;
    n_wco = min 6 (length xs);
    have_wco = ltb 0 (length xs);
  }
  meaning (fs x y) f = record f { feed = x; speed = y }
  meaning (tbl x) f = record f { table_deg = x; have_table = true }
  meaning (tblabs x) f = record f { table_abs_deg = x; have_table_abs = true }
  meaning (st3215 x) f = record f { servo_deg = x; have_servo = true }
  meaning (wcs text) f = record f { wcs_buf = strncpy 7 text; have_wcs = true }
  meaning (other k v) f = f

  unfoldable pub meanings : List (Field F) → Fields F → Fields F
  unfolding meaning
  meanings [] f = f
  meanings (field ∷ fields) f = meanings fields (meaning field f)
