-- ===== src/Api/Output.antt =====
-- The response buffer of src/api_handlers.c: `japp` and `json_escape_append`.
pub mod Bounds
pub mod Json
use pico2w_grbl_bridge.Base.{
  ℕ, ◌+◌, ◌-◌, ◌^◌, ◌||◌, List, [], ◌∷◌, ◌++◌, length, take, ltb, leb, ◌==◌, if◌then◌else◌, Bytes,
}

-- `http_response_t` of src/http_server.h
pub record Response : Type 0 where
  pub status : ℕ
  pub status_text : Bytes
  pub content_type : Bytes
  pub body : Bytes
  pub body_len : ℕ

-- `pos`, and the bytes that `out` holds before it; of a text that is cut, the last byte of the
-- buffer is its NUL, and `pos` is the capacity.
pub record Output : Type 0 where
  pub text : Bytes
  pub pos : ℕ

abbrev pub empty : Output
empty = record { text = []; pos = 0 }

-- `cap - pos`, of the 32-bit type `size_t`
abbrev pub room_left : ℕ → ℕ → ℕ
room_left cap_len pos = if leb pos cap_len then cap_len - pos else cap_len + 2 ^ 32 - pos

-- `japp`, with the text that the format makes. `vsnprintf` writes all but the last byte of the size
-- that it is given.
unfoldable pub japp : ℕ → Bytes → Output → Output
japp cap_len text o =
    let pos' : ℕ = o.pos + length text in
    if leb cap_len o.pos then record o { pos = cap_len } else record {
      text = o.text ++ take (room_left cap_len o.pos - 1) text;
      pos = if ltb cap_len pos' then cap_len else pos';
    }

-- the body of the loop of `json_escape_append`
unfoldable pub escape_byte : ℕ → Output → Output
escape_byte c o =
    if c == b'"' || c == b'\\'
    then record { text = o.text ++ (b'\\' ∷ c ∷ []); pos = o.pos + 2 }
    else if ltb c 0x20
    then o
    else record { text = o.text ++ (c ∷ []); pos = o.pos + 1 }

unfoldable pub json_escape_append : ℕ → Bytes → Output → Output
unfolding escape_byte
json_escape_append cap_len [] o = o
json_escape_append cap_len (c ∷ s) o =
    let more = json_escape_append cap_len s (escape_byte c o) in
    if ltb (o.pos + 2) cap_len then more else o

-- One call that appends: `japp` of a text, or `json_escape_append` of a string.
pub data Piece : Type 0 where
  plain : Bytes → Piece
  escaped : Bytes → Piece

unfoldable pub append_all : ℕ → List Piece → Output → Output
append_all cap_len [] o = o
append_all cap_len (plain text ∷ pieces) o = append_all cap_len pieces (japp cap_len text o)
append_all cap_len (escaped s ∷ pieces) o =
    append_all cap_len pieces (json_escape_append cap_len s o)

-- `pos < cap ? pos : cap - 1`
abbrev pub body_len_of : ℕ → ℕ → ℕ
body_len_of cap_len pos = if ltb pos cap_len then pos else cap_len - 1
