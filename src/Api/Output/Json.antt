-- ===== src/Api/Output/Json.antt =====
-- What is escaped is read back.
use pico2w_grbl_bridge.Base.{
  ℕ, ◌+◌, ◌*◌, ◌<◌, ◌≡◌, refl, false, ◌||◌, Option, none, some, [], ◌∷◌, ◌++◌, arith, length, ltb,
  ◌==◌, if◌then◌else◌, append-nil, append_assoc, Bytes,
}
use pico2w_grbl_bridge.Api.Output.{Output, escape_byte, json_escape_append}

-- the string without the control characters
unfoldable pub visible : Bytes → Bytes
visible [] = []
visible (c ∷ s) = if ltb c 0x20 then visible s else c ∷ visible s

abbrev pub cons_char : ℕ → Option Bytes → Option Bytes
cons_char c none = none
cons_char c (some s) = some (c ∷ s)

-- A reader of JSON strings: the string before the closing quote, with the escapes of '"' and '\'
-- undone; `none` is an error.
unfoldable pub unescape : Bytes → Option Bytes
unescape [] = none
unescape (c ∷ []) = if c == b'"' then some [] else none
unescape (c ∷ d ∷ s) =
    let escape : Option Bytes =
      (if d == b'"' || d == b'\\' then cons_char d (unescape s) else none) in
    let char : Option Bytes = (if ltb c 0x20 then none else cons_char c (unescape (d ∷ s))) in
    if c == b'"' then some [] else if c == b'\\' then escape else char

-- what the loop appends, one byte after the other
unfoldable pub escapes : Bytes → Bytes
escapes [] = []
escapes (c ∷ s) =
    if c == b'"' || c == b'\\'
    then b'\\' ∷ c ∷ escapes s
    else if ltb c 0x20
    then escapes s
    else c ∷ escapes s

json_escape_append-escapes :
    (cap_len : ℕ) (s : Bytes) (o : Output)
    → o.pos + 2 * length s < cap_len
    → (json_escape_append cap_len s o).text ≡ o.text ++ escapes s
unfolding json_escape_append escapes
json_escape_append-escapes cap_len [] o h = ground (arith, append-nil o.text)
json_escape_append-escapes cap_len (c ∷ s) o h = ground (
  arith,
  json_escape_append-escapes cap_len s (escape_byte c o),
  append_assoc o.text (c ∷ []) (escapes s),
  append_assoc o.text (b'\\' ∷ c ∷ []) (escapes s),
)

unescape_plain :
    (c : ℕ) (s : Bytes) (r : Bytes)
    → (c == b'"') ≡ false
    → (c == b'\\') ≡ false
    → ltb c 0x20 ≡ false
    → unescape s ≡ some r
    → unescape (c ∷ s) ≡ some (c ∷ r)
unfolding unescape
unescape_plain c [] r q b l h = cc
unescape_plain c (d ∷ s) r q b l h = ground arith

unescape-escapes : (s : Bytes) → unescape (escapes s ++ (b'"' ∷ [])) ≡ some (visible s)
unfolding unescape escapes visible
unescape-escapes [] = refl
unescape-escapes (c ∷ s) =
    ground (arith, unescape-escapes s, unescape_plain c (escapes s ++ (b'"' ∷ [])) (visible s))

-- With room for two bytes for each byte of `s`, the text that `json_escape_append` adds, with a
-- closing quote behind it, is a JSON string that reads back as `s` without its control characters.
unescape-json_escape_append :
    (cap_len : ℕ) (s : Bytes) (o : Output)
    → o.pos + 2 * length s < cap_len
    → (added : Bytes) × ((json_escape_append cap_len s o).text ≡ o.text ++ added)
      × (unescape (added ++ (b'"' ∷ [])) ≡ some (visible s))
unescape-json_escape_append cap_len s o h =
    (escapes s, json_escape_append-escapes cap_len s o h, unescape-escapes s)
