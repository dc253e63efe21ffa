-- ===== src/Json/Size.antt =====
-- How long the text of a value is.
use pico2w_grbl_bridge.Base.{
  ℕ, ◌+◌, ◌≤◌, Bool, true, false, ◌∷◌, arith, length, length-append, Bytes,
}
use pico2w_grbl_bridge.Json.{
  Json, Items, Fields, null, bool, number, string, array, object, no_items, item, no_fields, field,
}
use pico2w_grbl_bridge.Json.Text.{quoted, json_text, more_items_text, more_fields_text}

-- The text of a value has at most `n` bytes.
pub record Fits (n : ℕ) (v : Json) : Type 0 where
  pub value_within : (rest : Bytes) → length (json_text v rest) ≤ n + length rest

pub record FieldsFit (n : ℕ) (fs : Fields) : Type 0 where
  pub fields_within : (rest : Bytes) → length (more_fields_text fs rest) ≤ n + length rest

-- the items of an array behind the first
pub record ItemsFit (n : ℕ) (xs : Items) : Type 0 where
  pub items_within : (rest : Bytes) → length (more_items_text xs rest) ≤ n + length rest

pub field-Fits :
    {n m : ℕ} (key : Bytes) {v : Json} {fs : Fields}
    → Fits n v
    → FieldsFit m fs
    → FieldsFit (length (quoted key) + 4 + n + m) (field key v fs)
unfolding more_fields_text
field-Fits key {v} {fs} h g = record {
  fields_within = λ rest. omega (
    arith,
    h.value_within (more_fields_text fs rest),
    g.fields_within rest,
    length-append (quoted key) (b'"' ∷ b':' ∷ json_text v (more_fields_text fs rest)),
  );
}

pub no_fields_fit : FieldsFit 1 no_fields
unfolding more_fields_text
no_fields_fit = record { fields_within = λ rest. omega arith }

pub item-Fits :
    {n m : ℕ} {v : Json} {xs : Items} → Fits n v → ItemsFit m xs → ItemsFit (1 + n + m) (item v xs)
unfolding more_items_text
item-Fits {v} {xs} h g = record {
  items_within =
      λ rest. omega (arith, h.value_within (more_items_text xs rest), g.items_within rest);
}

pub no_items_fit : ItemsFit 1 no_items
unfolding more_items_text
no_items_fit = record { items_within = λ rest. omega arith }

pub array-Fits : {n : ℕ} {xs : Items} → ItemsFit n xs → Fits (n + 1) (array xs)
unfolding json_text more_items_text
array-Fits {xs = no_items} h = record { value_within = λ rest. omega (arith, h.items_within rest) }
array-Fits {xs = item v xs} h = record { value_within = λ rest. omega (arith, h.items_within rest) }

pub object-Fits :
    {n : ℕ} {key : Bytes} {v : Json} {fs : Fields}
    → FieldsFit n (field key v fs)
    → Fits n (object (field key v fs))
unfolding json_text more_fields_text
object-Fits h = record { value_within = λ rest. omega (arith, h.fields_within rest) }

pub string-Fits : (s : Bytes) (n : ℕ) → length (quoted s) ≤ n → Fits (n + 2) (string s)
unfolding json_text
string-Fits s n h = record {
  value_within = λ rest. omega (arith, length-append (quoted s) (b'"' ∷ rest));
}

pub number-Fits : (t : Bytes) (n : ℕ) → length t ≤ n → Fits n (number t)
unfolding json_text
number-Fits t n h = record { value_within = λ rest. omega (arith, length-append t rest) }

pub bool-Fits : (b : Bool) → Fits 5 (bool b)
unfolding json_text
bool-Fits true = record { value_within = λ rest. omega arith }
bool-Fits false = record { value_within = λ rest. omega arith }

pub null-Fits : (n : ℕ) → 4 ≤ n → Fits n null
unfolding json_text
null-Fits n h = record { value_within = λ rest. omega arith }

pub weaken : {n m : ℕ} {v : Json} → n ≤ m → Fits n v → Fits m v
weaken le h = record { value_within = λ rest. omega (arith, h.value_within rest) }

pub weaken_items : {n m : ℕ} {xs : Items} → n ≤ m → ItemsFit n xs → ItemsFit m xs
weaken_items le h = record { items_within = λ rest. omega (arith, h.items_within rest) }

pub weaken_fields : {n m : ℕ} {fs : Fields} → n ≤ m → FieldsFit n fs → FieldsFit m fs
weaken_fields le h = record { fields_within = λ rest. omega (arith, h.fields_within rest) }
