-- ===== src/Api/Status/Render.antt =====
-- The text that pieces make when the buffer has room for it.
use pico2w_grbl_bridge.Base.{
  ℕ, ◌+◌, ◌-◌, ◌<◌, ◌≡◌, refl, sym, ap, ◌∙◌, List, [], ◌∷◌, ◌++◌, append-nil, append_assoc, arith,
  length, length-append, take_all, Bytes, ap₂,
}
use pico2w_grbl_bridge.Api.Output.{
  Output, japp, escape_byte, json_escape_append, Piece, plain, escaped, append_all,
}
use pico2w_grbl_bridge.Api.Output.Json.{escapes}

unfoldable pub render : List Piece → Bytes → Bytes
unfolding escapes
render [] rest = rest
render (plain text ∷ pieces) rest = text ++ render pieces rest
render (escaped s ∷ pieces) rest = escapes s ++ render pieces rest

pub render-append :
    (ps qs : List Piece) (rest : Bytes) → render (ps ++ qs) rest ≡ render ps (render qs rest)
unfolding render
render-append [] qs rest = refl
render-append (plain text ∷ ps) qs rest = ap (λ t. text ++ t) (render-append ps qs rest)
render-append (escaped s ∷ ps) qs rest = ap (λ t. escapes s ++ t) (render-append ps qs rest)

-- `o` with `text` behind it
abbrev grown : Output → Bytes → Output
grown o text = record { text = o.text ++ text; pos = o.pos + length text }

grown-nil : (o : Output) → grown o [] ≡ o
grown-nil o =
    let sum : o.pos + 0 ≡ o.pos = omega arith in
    ap₂ (λ v n. record { text = v; pos = n }) (append-nil o.text) sum

grown-grown : (o : Output) (t u : Bytes) → grown (grown o t) u ≡ grown o (t ++ u)
grown-grown o t u =
    let sum : o.pos + length t + length u ≡ o.pos + length (t ++ u) =
      omega (arith, length-append t u) in
    ap₂ (λ v n. record { text = v; pos = n }) (append_assoc o.text t u) sum

escape_room :
    (cap_len : ℕ) (s : Bytes) (o : Output)
    → o.pos + length (escapes s) + 2 < cap_len
    → json_escape_append cap_len s o ≡ grown o (escapes s)
unfolding json_escape_append escapes
escape_room cap_len [] o h = sym (grown-nil o)
escape_room cap_len (c ∷ s) o h = ground (
  arith,
  escape_room cap_len s (escape_byte c o),
  append_assoc o.text (c ∷ []) (escapes s),
  append_assoc o.text (b'\\' ∷ c ∷ []) (escapes s),
)

japp_room :
    (cap_len : ℕ) (text : Bytes) (o : Output)
    → o.pos ≡ length o.text
    → o.pos + length text + 2 < cap_len
    → japp cap_len text o ≡ grown o text
unfolding japp
japp_room cap_len text o whole h = ground (arith, take_all (cap_len - o.pos - 1) text)

pub append_all-render :
    (cap_len : ℕ) (ps : List Piece) (o : Output)
    → o.pos ≡ length o.text
    → o.pos + length (render ps []) + 2 < cap_len
    → append_all cap_len ps o ≡ grown o (render ps [])
unfolding append_all render
append_all-render cap_len [] o whole h = sym (grown-nil o)
append_all-render cap_len (plain text ∷ ps) o whole h =
    let sum = length-append text (render ps []) in
    ap (append_all cap_len ps) (japp_room cap_len text o whole (omega (arith, h, sum)))
    ∙ append_all-render cap_len ps (grown o text) (omega (arith, whole, length-append o.text text))
        (omega (arith, h, sum))
    ∙ grown-grown o text (render ps [])
append_all-render cap_len (escaped s ∷ ps) o whole h =
    let sum = length-append (escapes s) (render ps []) in
    ap (append_all cap_len ps) (escape_room cap_len s o (omega (arith, h, sum)))
    ∙ append_all-render cap_len ps (grown o (escapes s))
        (omega (arith, whole, length-append o.text (escapes s))) (omega (arith, h, sum))
    ∙ grown-grown o (escapes s) (render ps [])
