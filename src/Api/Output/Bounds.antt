-- ===== src/Api/Output/Bounds.antt =====
-- The response buffer is never overrun.
use pico2w_grbl_bridge.Base.{
  ℕ, ◌-◌, ◌≤◌, ◌<◌, min, ◌≡◌, List, [], ◌∷◌, arith, length, length-append, length-take, take, Bytes,
}
use pico2w_grbl_bridge.Api.Output.{
  Output, empty, japp, escape_byte, json_escape_append, Piece, plain, escaped, append_all,
  body_len_of,
}

-- `pos` stays within the buffer, and the bytes before it (before the NUL, where it is the
-- capacity) are the text.
pub record Within (cap_len : ℕ) (o : Output) : Type 0 where
  pub pos_in : o.pos ≤ cap_len
  pub text_is : length o.text ≡ min o.pos (cap_len - 1)

module _ (cap_len : ℕ) (room : 0 < cap_len) where
  pub empty-Within : Within cap_len empty
  empty-Within = omega arith

  pub japp-Within :
      (text : Bytes) (o : Output) → Within cap_len o → Within cap_len (japp cap_len text o)
  unfolding japp
  japp-Within text o v = ground (
    arith,
    length-take (cap_len - o.pos - 1) text,
    length-append o.text (take (cap_len - o.pos - 1) text),
  )

  pub json_escape_append-Within :
      (s : Bytes) (o : Output) → Within cap_len o → Within cap_len (json_escape_append cap_len s o)
  unfolding json_escape_append
  json_escape_append-Within [] o v = v
  json_escape_append-Within (c ∷ s) o v = ground (
    arith,
    json_escape_append-Within s (escape_byte c o),
    length-append o.text (c ∷ []),
    length-append o.text (b'\\' ∷ c ∷ []),
  )

  pub append_all-Within :
      (pieces : List Piece) (o : Output)
      → Within cap_len o
      → Within cap_len (append_all cap_len pieces o)
  unfolding append_all
  append_all-Within [] o v = v
  append_all-Within (plain text ∷ pieces) o v =
      append_all-Within pieces (japp cap_len text o) (japp-Within text o v)
  append_all-Within (escaped s ∷ pieces) o v =
      append_all-Within pieces (json_escape_append cap_len s o) (json_escape_append-Within s o v)

  -- Whatever is appended in whatever order, texts of any length and strings to be escaped, the
  -- body that is sent is exactly the text written, and it leaves room for a NUL in the buffer.
  pub append_all-body :
      (pieces : List Piece)
      → (let o = append_all cap_len pieces empty in
          (length o.text ≡ body_len_of cap_len o.pos) × (length o.text < cap_len))
  append_all-body pieces = let v = append_all-Within pieces empty empty-Within in ground (arith, v)
