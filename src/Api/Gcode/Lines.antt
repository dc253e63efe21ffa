-- ===== src/Api/Gcode/Lines.antt =====
-- The lines of a body of G-code, described without the loops of `handle_gcode_post`.
use pico2w_grbl_bridge.Base.{
  ℕ, ◌≡◌, refl, sym, ap, ap₂, ◌∙◌, Bool, true, false, ◌&&◌, List, [], ◌∷◌, ◌++◌, arith, append-nil,
  append_assoc, ◌==◌, if◌then◌else◌, Bytes, Bool-cases, inl, inr,
}
use pico2w_grbl_bridge.CString.{mem_byte, skip_space, is_space}
use pico2w_grbl_bridge.Api.Gcode.{segments_from, trim, trim_end, trim_step}

-- tab, line feed, vertical tab, form feed, carriage return, blank
abbrev pub is_blank : ℕ → Bool
is_blank c = mem_byte c (9 ∷ 10 ∷ 11 ∷ 12 ∷ 13 ∷ 32 ∷ [])

unfoldable pub all_blank : Bytes → Bool
unfolding mem_byte
all_blank [] = true
all_blank (c ∷ s) = is_blank c && all_blank s

-- a text without the blanks at its beginning
unfoldable pub strip_front : Bytes → Bytes
unfolding mem_byte
strip_front [] = []
strip_front (c ∷ s) = if is_blank c then strip_front s else c ∷ s

-- a text without the blanks at its end
unfoldable pub strip_back : Bytes → Bytes
unfolding all_blank
strip_back [] = []
strip_back (c ∷ s) = let rest : Bytes = strip_back s in if all_blank (c ∷ s) then [] else c ∷ rest

abbrev pub to_first : ℕ → List Bytes → List Bytes
to_first c [] = (c ∷ []) ∷ []
to_first c (line ∷ lines) = (c ∷ line) ∷ lines

-- the texts between the newlines, one more than there are newlines
unfoldable pub split_lines : Bytes → List Bytes
split_lines [] = [] ∷ []
split_lines (c ∷ s) =
    let rest : List Bytes = split_lines s in if c == b'\n' then [] ∷ rest else to_first c rest

abbrev pub cons_line : Bytes → List Bytes → List Bytes
cons_line [] lines = lines
cons_line (c ∷ s) lines = (c ∷ s) ∷ lines

-- the lines without the blanks around them, but for those that are blank
unfoldable pub stripped : List Bytes → List Bytes
unfolding strip_front strip_back
stripped [] = []
stripped (line ∷ lines) = cons_line (strip_front (strip_back line)) (stripped lines)

-- The lines of a body: what stands between its newlines, without the blanks around it, but for
-- blank lines.
abbrev pub gcode_lines : Bytes → List Bytes
gcode_lines body = stripped (split_lines body)

-- the same by the loops of `handle_gcode_post`
abbrev pub nonblank : List Bytes → List Bytes
nonblank [] = []
nonblank (seg ∷ segs) = cons_line (trim seg) (nonblank segs)

blank_space : (c : ℕ) → is_blank c ≡ is_space c
unfolding mem_byte
blank_space c = ground arith

strip_back-all_blank : (s : Bytes) → all_blank s ≡ true → strip_back s ≡ []
unfolding strip_back all_blank
strip_back-all_blank [] h = refl
strip_back-all_blank (c ∷ s) h = rw h refl

skip_space-strip : (s : Bytes) → skip_space s ≡ strip_front s
unfolding skip_space strip_front
skip_space-strip [] = refl
skip_space-strip (c ∷ s) = ground (arith, skip_space-strip s, blank_space c)

-- What `trim_step` does before a rest that is blank, and before one that is not.
step_blank :
    (c : ℕ) (s : Bytes) → all_blank s ≡ true → trim_step c (strip_back s) ≡ strip_back (c ∷ s)
unfolding strip_back all_blank
step_blank c s h = ground (arith, strip_back-all_blank s, blank_space c)

step_given :
    (c : ℕ) (s : Bytes) → all_blank s ≡ false → trim_step c (strip_back s) ≡ strip_back (c ∷ s)
unfolding strip_back all_blank
step_given c [] h = cc
step_given c (d ∷ s) h = ground (arith, h)

trim_end-strip : (s : Bytes) → trim_end s ≡ strip_back s
unfolding trim_end
trim_end-strip [] = unfold strip_back in refl
trim_end-strip (c ∷ s) = ap (trim_step c) (trim_end-strip s) ∙ elim (Bool-cases (all_blank s)) [
  | inl blank ↦ step_blank c s blank
  | inr given ↦ step_given c s given
]

nonblank-stripped : (segs : List Bytes) → nonblank segs ≡ stripped segs
unfolding stripped trim
nonblank-stripped [] = refl
nonblank-stripped (seg ∷ segs) =
    ap₂ cons_line (ap skip_space (trim_end-strip seg) ∙ skip_space-strip (strip_back seg))
      (nonblank-stripped segs)

-- `seg` before the first line
abbrev behind : Bytes → List Bytes → List Bytes
behind seg [] = seg ∷ []
behind seg (line ∷ lines) = (seg ++ line) ∷ lines

behind-to_first :
    (seg : Bytes) (c : ℕ) (lines : List Bytes)
    → behind (seg ++ (c ∷ [])) lines ≡ behind seg (to_first c lines)
behind-to_first seg c [] = refl
behind-to_first seg c (line ∷ lines) = ap (λ l. l ∷ lines) (append_assoc seg (c ∷ []) line)

behind_nothing : (c : ℕ) (lines : List Bytes) → behind [] (to_first c lines) ≡ to_first c lines
behind_nothing c [] = refl
behind_nothing c (line ∷ lines) = refl

behind-nil : (s : Bytes) → behind [] (split_lines s) ≡ split_lines s
unfolding split_lines
behind-nil [] = refl
behind-nil (c ∷ s) = elim (Bool-cases (c == b'\n')) [
  | inl newline ↦ rw newline refl
  | inr other ↦ rw other (behind_nothing c (split_lines s))
]

stripped-segments :
    (seg body : Bytes)
    → stripped (segments_from seg body) ≡ stripped (behind seg (split_lines body))
unfolding segments_from split_lines stripped
stripped-segments [] [] = refl
stripped-segments (c ∷ seg) [] =
    ap (λ line. cons_line (strip_front (strip_back line)) []) {x = c ∷ seg}
      (sym (append-nil (c ∷ seg)))
stripped-segments seg (c ∷ body) = elim (Bool-cases (c == b'\n')) [
  | inl newline ↦ rw newline (
      ap₂ (λ line lines. cons_line (strip_front (strip_back line)) lines) (sym (append-nil seg))
        (stripped-segments [] body ∙ ap stripped (behind-nil body)))
  | inr other ↦ rw other (
      stripped-segments (seg ++ (c ∷ [])) body
      ∙ ap stripped (behind-to_first seg c (split_lines body)))
]

pub gcode_lines_lem : (body : Bytes) → nonblank (segments_from [] body) ≡ gcode_lines body
gcode_lines_lem body =
    nonblank-stripped (segments_from [] body)
    ∙ stripped-segments [] body
    ∙ ap stripped (behind-nil body)
