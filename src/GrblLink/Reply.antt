-- ===== src/GrblLink/Reply.antt =====
-- `parse_gc_wcs`, `on_line` and `on_mount` of src/grbl_link.c.
pub mod Handshake
pub mod Other
pub mod Wcs
mod Tests
use pico2w_grbl_bridge.Base.{
  ℕ, ◌-◌, Bool, true, false, not, ◌&&◌, ◌||◌, Option, none, some, List, [], ◌∷◌, leb, ◌==◌,
  if◌then◌else◌, Bytes, codes,
}
use pico2w_grbl_bridge.CString.{strncpy, str_eq, starts_with, tokens, split_at, Strtol, strtol}
use pico2w_grbl_bridge.Floats.{Floats}
use pico2w_grbl_bridge.SharedState.Sizes.{grbl_wcs_len}
use pico2w_grbl_bridge.SharedState.Shared.{
  Shared, set_connected, set_alarm, console_push, filtered_push, notify_status_line,
}
use pico2w_grbl_bridge.GrblLink.State.{Link, Core}
use pico2w_grbl_bridge.GrblLink.Report.{parse_status_report}

-- `*end == '\0' || *end == '.'`
abbrev ends_word : Bytes → Bool
ends_word [] = true
ends_word (c ∷ s) = c == b'.'

-- the tests on `word`
unfoldable pub is_wcs_word : Bytes → Bool
unfolding strtol
is_wcs_word [] = false
is_wcs_word (c ∷ s) =
    let r : Strtol = strtol s in
    c == b'G' && (not r.negative && (leb 54 r.magnitude && (leb r.magnitude 59 && ends_word r.end)))

-- `word = strchr(tok, ':'); word = word ? word + 1 : tok;`
abbrev word_of : Bytes → Option (Bytes × Bytes) → Bytes
word_of tok none = tok
word_of tok (some (before, behind)) = behind

module _ {F : Type 0} where
  -- the `while (tok)` loop
  unfoldable pub gc_words : List Bytes → Link F → Link F
  gc_words [] l = l
  gc_words (tok ∷ toks) l =
      let word : Bytes = word_of tok (split_at b':' tok) in
      if is_wcs_word word
      then record l { last_wcs = strncpy (grbl_wcs_len - 1) word; have_last_wcs = true }
      else gc_words toks l

  unfoldable pub parse_gc_wcs : Bytes → Link F → Link F
  unfolding gc_words
  parse_gc_wcs line l = gc_words (tokens (codes " []") (strncpy 95 line)) l

  abbrev pub release : Core F → Core F
  release c = record c { link = record c.link { waiting_ok = false } }

  -- `on_line`, from `parse_gc_wcs` on
  unfoldable pub answer : Bytes → Core F → Core F
  answer line c =
      if str_eq line (codes "ok")
      then release c
      else if starts_with line (codes "error:")
      then (let c' : Core F = release c in record c' { shared = set_alarm line c'.shared })
      else if starts_with line (codes "ALARM:")
      then record c { shared = set_alarm line c.shared }
      else if starts_with line (codes "Grbl") || starts_with line (codes "GrblHAL")
      then release c
      else c

  -- `on_mount`
  unfoldable pub on_mount : Bool → Core F → Core F
  on_mount mounted c = record c {
    link = record c.link {
      waiting_ok = false;
      need_g_query = if mounted then true else c.link.need_g_query;
    };
    shared =
        console_push
          (if mounted
            then codes "[link] grblHAL connected"
            else codes "[link] grblHAL disconnected")
          (set_connected mounted c.shared);
  }

-- `line[0] == '<'`
abbrev pub is_report : Bytes → Bool
is_report [] = false
is_report (c ∷ s) = c == b'<'

module _ (fl : Floats) where
  open fl use {Real}

  -- `on_line`, at time `now`
  unfoldable pub on_line : ℕ → Bytes → Core Real → Core Real
  unfolding answer
  on_line now line c =
      let pushed : Core Real = record c { shared = console_push line c.shared } in
      let parsed : Core Real = parse_status_report fl line now pushed in
      let filtered : Core Real = record pushed { shared = filtered_push line pushed.shared } in
      let seeded : Core Real =
        if starts_with line (codes "[GC:")
        then record filtered { link = parse_gc_wcs line filtered.link }
        else filtered in
      if is_report line
      then record parsed { shared = notify_status_line parsed.shared }
      else answer line seeded
