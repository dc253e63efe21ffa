-- ===== src/Json/RoundTrip.antt =====
-- What is written is read back.
use pico2w_grbl_bridge.Json.Fuel.{value-Fits}
use pico2w_grbl_bridge.Json.Number.{Ends, is_number, read_number-append, is_unsigned}
use pico2w_grbl_bridge.Base.{
  Bool, ap, ◌+◌, drop, suc, ◌≤◌, ℕ, ◌≡◌, refl, false, some, [], ◌∷◌, ◌++◌, arith, ltb, ◌==◌, Bytes,
  zero, ◌∙◌, true, codes, length, ◌*◌,
}
use pico2w_grbl_bridge.Json.{
  more_fields, bool, read_fields, more_items, number, item, sep_of, string, object, starts, array,
  read_value, Fields, kind_of, read_items, Items, Json, read_string, read_key, expect, no_items,
  no_fields, field, other, read_as, Read, ◌>>=◌, null, read_json, whole,
}
use pico2w_grbl_bridge.Json.Text.{
  fields_text, need_fields, need_items, IsGood, AreGood, need, HaveGood, items_text,
  more_fields_text, more_items_text, json_text, quoted, key_text, IsShown,
}

-- A character that stands for itself.
read_string_char :
    (c : ℕ) (s t rest : Bytes)
    → (c == b'"') ≡ false
    → (c == b'\\') ≡ false
    → ltb c 0x20 ≡ false
    → read_string s ≡ some (t, rest)
    → read_string (c ∷ s) ≡ some (c ∷ t, rest)
unfolding read_string
read_string_char c [] t rest q b l h = cc
read_string_char c (d ∷ s) t rest q b l h = ground arith

read_string-quoted :
    (s rest : Bytes) → IsShown s → read_string (quoted s ++ b'"' ∷ rest) ≡ some (s, rest)
unfolding read_string quoted
read_string-quoted [] [] h = refl
read_string-quoted [] (c ∷ rest) h = refl
read_string-quoted (c ∷ s) rest h =
    ground
      (arith, read_string-quoted s rest h.1, read_string_char c (quoted s ++ b'"' ∷ rest) s rest)

read_key-key_text :
    (key rest : Bytes) → IsShown key → read_key (key_text key rest) ≡ some (key, rest)
unfolding read_key expect
read_key-key_text key rest h = rw (read_string-quoted key (b':' ∷ rest) h) refl

number_kind : (t rest : Bytes) → is_number t ≡ true → kind_of (t ++ rest) ≡ other
unfolding kind_of is_number is_unsigned
number_kind [] rest h = cc
number_kind (c ∷ []) rest h = ground arith
number_kind (c ∷ d ∷ t) rest h = ground arith

number_start : (t rest : Bytes) → is_number t ≡ true → starts b']' (t ++ rest) ≡ false
unfolding is_number is_unsigned
number_start [] rest h = cc
number_start (c ∷ []) rest h = ground arith
number_start (c ∷ d ∷ t) rest h = ground arith

-- No value starts with a bracket that closes.
value_start : (v : Json) (rest : Bytes) → IsGood v → starts b']' (json_text v rest) ≡ false
unfolding json_text
value_start (number t) rest h = number_start t rest h
value_start (bool true) rest h = refl
value_start (bool false) rest h = refl
value_start _ rest h = refl

more_items-Ends : (xs : Items) (rest : Bytes) → Ends (more_items_text xs rest)
unfolding more_items_text
more_items-Ends no_items rest = refl
more_items-Ends (item v xs) rest = refl

more_fields-Ends : (fs : Fields) (rest : Bytes) → Ends (more_fields_text fs rest)
unfolding more_fields_text
more_fields-Ends no_fields rest = refl
more_fields-Ends (field key v fs) rest = refl

abbrev ReadsValue : Json → Type 0
ReadsValue v =
    IsGood v
    → (rest : Bytes) → Ends rest
    → (f : ℕ) → need v ≤ f
    → read_value f (json_text v rest) ≡ some (v, rest)

abbrev ReadsItems : Items → Type 0
ReadsItems xs =
    AreGood xs
    → (rest : Bytes) (f : ℕ) → need_items xs ≤ f
    → (let s = items_text xs rest in
        let t = more_items_text xs rest in
        (read_items f (starts b']' s) s ≡ some (xs, rest))
        × (more_items f (sep_of b']' t) (drop 1 t) ≡ some (xs, rest)))

abbrev ReadsFields : Fields → Type 0
ReadsFields fs =
    HaveGood fs
    → (rest : Bytes) (f : ℕ) → need_fields fs ≤ f
    → (let s = fields_text fs rest in
        let t = more_fields_text fs rest in
        (read_fields f (starts b'}' s) s ≡ some (fs, rest))
        × (more_fields f (sep_of b'}' t) (drop 1 t) ≡ some (fs, rest)))

reads_number :
    (t rest : Bytes) (f : ℕ)
    → is_number t ≡ true
    → Ends rest
    → 2 ≤ f
    → read_value f (t ++ rest) ≡ some (number t, rest)
unfolding read_value
reads_number t rest zero h e n = absurd (omega arith)
reads_number t rest (suc zero) h e n = absurd (omega arith)
reads_number t rest (suc (suc f)) h e n =
    ap (λ k. read_as (suc f) k (t ++ rest)) (number_kind t rest h)
    ∙ ap (λ (r : Read Bytes). r >>= λ p. some (number p.0, p.1)) (read_number-append t rest h e)

reads_string :
    (s rest : Bytes) (f : ℕ)
    → IsShown s
    → 2 ≤ f
    → read_value f (json_text (string s) rest) ≡ some (string s, rest)
unfolding read_value json_text kind_of
reads_string s rest zero h n = absurd (omega arith)
reads_string s rest (suc zero) h n = absurd (omega arith)
reads_string s rest (suc (suc f)) h n = rw (read_string-quoted s rest h) refl

reads_array :
    (xs : Items) (rest : Bytes) (f : ℕ)
    → ReadsItems xs
    → AreGood xs
    → need (array xs) ≤ f
    → read_value f (json_text (array xs) rest) ≡ some (array xs, rest)
unfolding read_value json_text kind_of need
reads_array xs rest zero ih h n = absurd (omega arith)
reads_array xs rest (suc zero) ih h n = absurd (omega arith)
reads_array xs rest (suc (suc f)) ih h n = rw (ih h rest f (omega arith)).0 refl

reads_object :
    (fs : Fields) (rest : Bytes) (f : ℕ)
    → ReadsFields fs
    → HaveGood fs
    → need (object fs) ≤ f
    → read_value f (json_text (object fs) rest) ≡ some (object fs, rest)
unfolding read_value json_text kind_of need
reads_object fs rest zero ih h n = absurd (omega arith)
reads_object fs rest (suc zero) ih h n = absurd (omega arith)
reads_object fs rest (suc (suc f)) ih h n = rw (ih h rest f (omega arith)).0 refl

reads_item : (v : Json) (xs : Items) → ReadsValue v → ReadsItems xs → ReadsItems (item v xs)
unfolding read_items items_text sep_of need_items
reads_item v xs ih ihs h rest zero n = absurd (omega arith)
reads_item v xs ih ihs h rest (suc zero) n = absurd (omega arith)
reads_item v xs ih ihs h rest (suc (suc f)) n =
    let first : (g : ℕ)
        → need v + need_items xs ≤ g
        → read_items (suc g) false (json_text v (more_items_text xs rest))
          ≡ some (item v xs, rest) =
      λ g enough.
        rw
          (
            ih h.0 (more_items_text xs rest) (more_items-Ends xs rest) g (omega arith),
            (ihs h.1 rest g (omega arith)).1,
          )
          refl in
    (
      ap (λ b. read_items (suc (suc f)) b (json_text v (more_items_text xs rest)))
            (value_start v (more_items_text xs rest) h.0)
          ∙ first (suc f) (omega arith),
      first f (omega arith),
    )

reads_field :
    (key : Bytes) (v : Json) (fs : Fields)
    → ReadsValue v
    → ReadsFields fs
    → ReadsFields (field key v fs)
unfolding read_fields fields_text sep_of need_fields
reads_field key v fs ih ihs h rest zero n = absurd (omega arith)
reads_field key v fs ih ihs h rest (suc zero) n = absurd (omega arith)
reads_field key v fs ih ihs h rest (suc (suc f)) n =
    let text : Bytes = json_text v (more_fields_text fs rest) in
    let first : (g : ℕ)
        → need v + need_fields fs ≤ g
        → read_fields (suc g) false (key_text key text) ≡ some (field key v fs, rest) =
      λ g enough.
        rw
          (
            read_key-key_text key text h.0,
            ih h.1 (more_fields_text fs rest) (more_fields-Ends fs rest) g (omega arith),
            (ihs h.2 rest g (omega arith)).1,
          )
          refl in
    (first (suc f) (omega arith), first f (omega arith))

reads_word :
    (word : Bytes) (v : Json) (f : ℕ) (rest : Bytes)
    → 2 ≤ f
    → ((g : ℕ) → read_value (suc (suc g)) (word ++ rest) ≡ some (v, rest))
    → read_value f (word ++ rest) ≡ some (v, rest)
reads_word word v zero rest n h = absurd (omega arith)
reads_word word v (suc zero) rest n h = absurd (omega arith)
reads_word word v (suc (suc f)) rest n h = h f

reads_bool : (b : Bool) → ReadsValue (bool b)
unfolding read_value json_text need kind_of expect
reads_bool true h rest e f n = reads_word (codes "true") (bool true) f rest n (λ g. refl)
reads_bool false h rest e f n = reads_word (codes "false") (bool false) f rest n (λ g. refl)

reads_no_items : ReadsItems no_items
unfolding read_items items_text sep_of need_items
reads_no_items h rest zero n = absurd (omega arith)
reads_no_items h rest (suc f) n = (refl, refl)

reads_no_fields : ReadsFields no_fields
unfolding read_fields fields_text sep_of need_fields
reads_no_fields h rest zero n = absurd (omega arith)
reads_no_fields h rest (suc f) n = (refl, refl)

read_value-Reads : (v : Json) → ReadsValue v
unfolding read_value json_text need kind_of expect
read_value-Reads v = elim v as ReadsValue ReadsItems ReadsFields [
  | null ↦ λ h rest e f n. reads_word (codes "null") null f rest n (λ g. refl)
  | bool b ↦ reads_bool b
  | number t ↦ λ h rest e f n. reads_number t rest f h e n
  | string s ↦ λ h rest e f n. reads_string s rest f h n
  | array (xs → ih) ↦ λ h rest e f n. reads_array xs rest f ih h n
  | object (fs → ih) ↦ λ h rest e f n. reads_object fs rest f ih h n
  | no_items ↦ reads_no_items
  | item (w → ih) (xs → ihs) ↦ reads_item w xs ih ihs
  | no_fields ↦ reads_no_fields
  | field key (w → ih) (fs → ihs) ↦ reads_field key w fs ih ihs
]

-- Every value that can be written is read back from its text, whole.
pub read_json-json_text : (v : Json) → IsGood v → read_json (json_text v []) ≡ some v
unfolding read_json
read_json-json_text v h = ap whole (
    read_value-Reads v h [] tt (4 * length (json_text v []) + 4) (omega (arith, value-Fits v h [])))
