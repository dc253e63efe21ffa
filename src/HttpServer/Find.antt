-- ===== src/HttpServer/Find.antt =====
-- `case_find` of src/http_server.c.
pub mod First
pub mod Stable
mod Tests
use pico2w_grbl_bridge.Base.{
  ℕ, ◌+◌, Bool, true, false, ◌&&◌, ◌||◌, Option, none, some, [], ◌∷◌, length, ltb, leb, ◌==◌,
  if◌then◌else◌, Bytes,
}

-- `tolower` in the C locale
abbrev pub to_lower : ℕ → ℕ
to_lower c = if leb 65 c && leb c 90 then c + 32 else c

-- The inner loop runs to the end of the needle, on the hay from `i` on.
unfoldable pub same_prefix : Bytes → Bytes → Bool
same_prefix hay [] = true
same_prefix [] (n ∷ needle) = false
same_prefix (c ∷ hay) (n ∷ needle) = to_lower c == to_lower n && same_prefix hay needle

-- The outer loop: `i`, and the hay from there on.
unfoldable pub find_from : ℕ → Bytes → Bytes → Option ℕ
unfolding same_prefix
find_from i [] needle = none
find_from i (c ∷ hay) needle =
    let later = find_from (i + 1) hay needle in
    if ltb (length (c ∷ hay)) (length needle)
    then none
    else if same_prefix (c ∷ hay) needle
    then some i
    else later

-- `none` is the `(size_t) -1`.
unfoldable pub case_find : Bytes → Bytes → Option ℕ
unfolding find_from
case_find hay needle =
    if length needle == 0 || ltb (length hay) (length needle) then none else find_from 0 hay needle
