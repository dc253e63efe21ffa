-- ===== src/Json/Text.antt =====
-- How a value is written, and which values can be.
use pico2w_grbl_bridge.Base.{
  ℕ, suc, ◌+◌, true, false, ◌||◌, ◌≡◌, [], ◌∷◌, ◌++◌, ltb, ◌==◌, if◌then◌else◌, Bytes, codes,
}
use pico2w_grbl_bridge.Json.{
  Json, Items, Fields, null, bool, number, string, array, object, no_items, item, no_fields, field,
}
use pico2w_grbl_bridge.Json.Number.{is_number}

unfoldable pub quoted : Bytes → Bytes
quoted [] = []
quoted (c ∷ s) = if c == b'"' || c == b'\\' then b'\\' ∷ c ∷ quoted s else c ∷ quoted s

-- the name of a member, up to its colon
abbrev pub key_text : Bytes → Bytes → Bytes
key_text key rest = b'"' ∷ (quoted key ++ b'"' ∷ b':' ∷ rest)

-- the text of a value, in front of `rest`
unfoldable mutual
  unfolding quoted

  pub json_text : Json → Bytes → Bytes
  json_text null rest = codes "null" ++ rest
  json_text (bool true) rest = codes "true" ++ rest
  json_text (bool false) rest = codes "false" ++ rest
  json_text (number t) rest = t ++ rest
  json_text (string s) rest = b'"' ∷ (quoted s ++ b'"' ∷ rest)
  json_text (array xs) rest = b'[' ∷ items_text xs rest
  json_text (object fs) rest = b'{' ∷ fields_text fs rest

  pub items_text : Items → Bytes → Bytes
  items_text no_items rest = b']' ∷ rest
  items_text (item v xs) rest = json_text v (more_items_text xs rest)

  pub more_items_text : Items → Bytes → Bytes
  more_items_text no_items rest = b']' ∷ rest
  more_items_text (item v xs) rest = b',' ∷ json_text v (more_items_text xs rest)

  pub fields_text : Fields → Bytes → Bytes
  fields_text no_fields rest = b'}' ∷ rest
  fields_text (field key v fs) rest = key_text key (json_text v (more_fields_text fs rest))

  pub more_fields_text : Fields → Bytes → Bytes
  more_fields_text no_fields rest = b'}' ∷ rest
  more_fields_text (field key v fs) rest =
      b',' ∷ key_text key (json_text v (more_fields_text fs rest))

-- no control characters
abbrev pub IsShown : Bytes → Type 0
IsShown [] = Unit
IsShown (c ∷ s) = (ltb c 0x20 ≡ false) × IsShown s

-- Its numbers are numbers, and its strings hold no control characters.
abbrev mutual
  pub IsGood : Json → Type 0
  IsGood null = Unit
  IsGood (bool b) = Unit
  IsGood (number t) = is_number t ≡ true
  IsGood (string s) = IsShown s
  IsGood (array xs) = AreGood xs
  IsGood (object fs) = HaveGood fs

  pub AreGood : Items → Type 0
  AreGood no_items = Unit
  AreGood (item v xs) = IsGood v × AreGood xs

  pub HaveGood : Fields → Type 0
  HaveGood no_fields = Unit
  HaveGood (field key v fs) = IsShown key × IsGood v × HaveGood fs

-- the fuel that reading takes
unfoldable mutual
  pub need : Json → ℕ
  need null = 2
  need (bool b) = 2
  need (number t) = 2
  need (string s) = 2
  need (array xs) = suc (suc (need_items xs))
  need (object fs) = suc (suc (need_fields fs))

  pub need_items : Items → ℕ
  need_items no_items = 1
  need_items (item v xs) = suc (suc (need v + need_items xs))

  pub need_fields : Fields → ℕ
  need_fields no_fields = 1
  need_fields (field key v fs) = suc (suc (need v + need_fields fs))
