-- ===== src/Json.antt =====
-- JSON as its readers know it (RFC 8259), less white space, exponents and the escapes that the
-- firmware never writes: what is accepted here every reader of JSON accepts. The responses of
-- src/api_handlers.c are checked against it.
pub mod Decimal
pub mod Number
pub mod Text
pub mod Fuel
pub mod RoundTrip
pub mod Size
use pico2w_grbl_bridge.Base.{
  ℕ, zero, suc, ◌+◌, ◌*◌, Bool, true, false, ◌&&◌, ◌||◌, Option, none, some, [], ◌∷◌, ◌++◌, length,
  drop, ltb, ◌==◌, if◌then◌else◌, Bytes, codes,
}
use pico2w_grbl_bridge.Json.Number.{read_number}

-- A number is its text. `Items` are an array's values, `Fields` an object's.
mutual
  pub data Json : Type 0 where
    null : Json
    bool : Bool → Json
    number : Bytes → Json
    string : Bytes → Json
    array : Items → Json
    object : Fields → Json

  pub data Items : Type 0 where
    no_items : Items
    item : Json → Items → Items

  pub data Fields : Type 0 where
    no_fields : Fields
    field : Bytes → Json → Fields → Fields

module _ {A B : Type 0} where
  infixl 1 ◌>>=◌
  abbrev ◌>>=◌ : Option A → (A → Option B) → Option B
  none >>= f = none
  some a >>= f = f a

-- a read value, and the text behind it
abbrev pub Read : Type 0 → Type 0
Read A = Option (A × Bytes)

-- a string, up to its closing quote
abbrev pub cons_read : ℕ → Read Bytes → Read Bytes
cons_read c none = none
cons_read c (some (s, rest)) = some (c ∷ s, rest)

unfoldable pub read_string : Bytes → Read Bytes
read_string [] = none
read_string (c ∷ []) = if c == b'"' then some ([], []) else none
read_string (c ∷ d ∷ s) =
    let escape : Read Bytes =
      (if d == b'"' || d == b'\\' then cons_read d (read_string s) else none) in
    let char : Read Bytes = (if ltb c 0x20 then none else cons_read c (read_string (d ∷ s))) in
    if c == b'"' then some ([], d ∷ s) else if c == b'\\' then escape else char

-- the expected text
unfoldable pub expect : Bytes → Bytes → Option Bytes
expect [] s = some s
expect (w ∷ word) [] = none
expect (w ∷ word) (c ∷ s) = if c == w then expect word s else none

abbrev pub starts : ℕ → Bytes → Bool
starts c [] = false
starts c (d ∷ s) = d == c

-- a member's name, with its quotes and colon
unfoldable pub read_key : Bytes → Read Bytes
unfolding read_string expect
read_key s = do
  behind ← expect (codes "\"") s
  (key, rest) ← read_string behind
  value ← expect (codes ":") rest
  some (key, value)

-- what a value begins with
pub data Kind : Type 0 where
  opens_array opens_object opens_string says_null says_true says_false other : Kind

unfoldable pub kind_of : Bytes → Kind
kind_of [] = other
kind_of (c ∷ s) =
    if c == b'['
    then opens_array
    else if c == b'{'
    then opens_object
    else if c == b'"'
    then opens_string
    else if c == b'n'
    then says_null
    else if c == b't'
    then says_true
    else if c == b'f'
    then says_false
    else other

-- what stands behind a value
pub data Sep : Type 0 where
  comma closes neither : Sep

unfoldable pub sep_of : ℕ → Bytes → Sep
sep_of close [] = neither
sep_of close (c ∷ s) = if c == b',' then comma else if c == close then closes else neither

abbrev pub spelled : Bytes → Json → Bytes → Read Json
spelled word v s = expect word s >>= λ rest. some (v, rest)

-- Each call costs a unit of fuel.
unfoldable mutual
  unfolding kind_of sep_of read_key read_string read_number expect

  pub read_value : ℕ → Bytes → Read Json
  read_value zero s = none
  read_value (suc f) s = read_as f (kind_of s) s

  pub read_as : ℕ → Kind → Bytes → Read Json
  read_as zero k s = none
  read_as (suc f) opens_array s = do
    (xs, rest) ← read_items f (starts b']' (drop 1 s)) (drop 1 s)
    some (array xs, rest)
  read_as (suc f) opens_object s = do
    (fs, rest) ← read_fields f (starts b'}' (drop 1 s)) (drop 1 s)
    some (object fs, rest)
  read_as (suc f) opens_string s = do (t, rest) ← read_string (drop 1 s); some (string t, rest)
  read_as (suc f) says_null s = spelled (codes "null") null s
  read_as (suc f) says_true s = spelled (codes "true") (bool true) s
  read_as (suc f) says_false s = spelled (codes "false") (bool false) s
  read_as (suc f) other s = do (t, rest) ← read_number s; some (number t, rest)

  pub read_items : ℕ → Bool → Bytes → Read Items
  read_items zero ends s = none
  read_items (suc f) true s = some (no_items, drop 1 s)
  read_items (suc f) false s = do
    (v, behind) ← read_value f s
    (xs, rest) ← more_items f (sep_of b']' behind) (drop 1 behind)
    some (item v xs, rest)

  pub more_items : ℕ → Sep → Bytes → Read Items
  more_items zero sep s = none
  more_items (suc f) comma s = read_items f false s
  more_items (suc f) closes s = some (no_items, s)
  more_items (suc f) neither s = none

  pub read_fields : ℕ → Bool → Bytes → Read Fields
  read_fields zero ends s = none
  read_fields (suc f) true s = some (no_fields, drop 1 s)
  read_fields (suc f) false s = do
    (key, value) ← read_key s
    (v, behind) ← read_value f value
    (fs, rest) ← more_fields f (sep_of b'}' behind) (drop 1 behind)
    some (field key v fs, rest)

  pub more_fields : ℕ → Sep → Bytes → Read Fields
  more_fields zero sep s = none
  more_fields (suc f) comma s = read_fields f false s
  more_fields (suc f) closes s = some (no_fields, s)
  more_fields (suc f) neither s = none

-- a whole text
abbrev pub whole : Read Json → Option Json
whole none = none
whole (some (v, [])) = some v
whole (some (v, c ∷ rest)) = none

unfoldable pub read_json : Bytes → Option Json
unfolding read_value
read_json s = whole (read_value (4 * length s + 4) s)
