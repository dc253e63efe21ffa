-- ===== src/Json/Fuel.antt =====
-- How much fuel a reader needs for what is written.
use pico2w_grbl_bridge.Json.Number.{is_number}
use pico2w_grbl_bridge.Base.{
  Bool, ◌+◌, suc, ◌≤◌, ◌≡◌, false, [], ◌∷◌, arith, Bytes, true, length, length-append, ◌*◌, ◌<◌,
}
use pico2w_grbl_bridge.Json.{
  bool, number, item, string, object, array, Fields, Items, Json, no_items, no_fields, field, null,
}
use pico2w_grbl_bridge.Json.Text.{
  fields_text, need_fields, need_items, IsGood, AreGood, need, HaveGood, items_text,
  more_fields_text, more_items_text, json_text, quoted, key_text,
}

-- Four units for each byte are enough.
abbrev pub FitsValue : Json → Type 0
FitsValue v =
    IsGood v → (rest : Bytes) → need v + 2 + 4 * length rest ≤ 4 * length (json_text v rest)

abbrev pub FitsItems : Items → Type 0
FitsItems xs =
    AreGood xs
    → (rest : Bytes)
    → (need_items xs + 4 * length rest ≤ 4 * length (items_text xs rest))
      × (need_items xs + 4 * length rest ≤ 4 * length (more_items_text xs rest))

abbrev pub FitsFields : Fields → Type 0
FitsFields fs =
    HaveGood fs
    → (rest : Bytes)
    → (need_fields fs + 4 * length rest ≤ 4 * length (fields_text fs rest))
      × (need_fields fs + 4 * length rest ≤ 4 * length (more_fields_text fs rest))

number_given : (t : Bytes) → is_number t ≡ true → 0 < length t
unfolding is_number
number_given [] h = cc
number_given (c ∷ t) h = omega arith

fits_item : (v : Json) (xs : Items) → FitsValue v → FitsItems xs → FitsItems (item v xs)
unfolding items_text need_items
fits_item v xs ih ihs h rest =
    let text : Bytes = json_text v (more_items_text xs rest) in
    let here : need v + 2 + 4 * length (more_items_text xs rest) ≤ 4 * length text =
      ih h.0 (more_items_text xs rest) in
    let later = (ihs h.1 rest).1 in
    let sum : suc (suc (need v + need_items xs)) + 4 * length rest ≤ 4 * length text =
      omega (arith, here, later) in
    (sum, omega (arith, sum))

fits_field :
    (key : Bytes) (v : Json) (fs : Fields)
    → FitsValue v
    → FitsFields fs
    → FitsFields (field key v fs)
unfolding fields_text need_fields
fits_field key v fs ih ihs h rest =
    let text : Bytes = json_text v (more_fields_text fs rest) in
    let here : need v + 2 + 4 * length (more_fields_text fs rest) ≤ 4 * length text =
      ih h.1 (more_fields_text fs rest) in
    let later = (ihs h.2 rest).1 in
    let key_fits : 3 + length text ≤ length (key_text key text) =
      omega (arith, length-append (quoted key) (b'"' ∷ b':' ∷ text)) in
    let sum : suc (suc (need v + need_fields fs)) + 4 * length rest
        ≤ 4 * length (key_text key text) =
      omega (arith, here, later, key_fits) in
    (sum, omega (arith, sum))

fits_bool : (b : Bool) → FitsValue (bool b)
unfolding json_text need
fits_bool true h rest = omega arith
fits_bool false h rest = omega arith

pub value-Fits : (v : Json) → FitsValue v
unfolding json_text need
value-Fits v = elim v as FitsValue FitsItems FitsFields [
  | null ↦ λ h rest. omega arith
  | bool b ↦ fits_bool b
  | number t ↦ λ h rest. omega (arith, length-append t rest, number_given t h)
  | string s ↦ λ h rest. omega (arith, length-append (quoted s) (b'"' ∷ rest))
  | array (xs → ih) ↦ λ h rest. omega (arith, (ih h rest).0)
  | object (fs → ih) ↦ λ h rest. omega (arith, (ih h rest).0)
  | no_items ↦ λ h rest. (omega arith, omega arith)
  | item (w → ih) (xs → ihs) ↦ fits_item w xs ih ihs
  | no_fields ↦ λ h rest. (omega arith, omega arith)
  | field key (w → ih) (fs → ihs) ↦ fits_field key w fs ih ihs
]
