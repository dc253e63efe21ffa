-- ===== src/SharedState/Console.antt =====
-- The full console log of src/shared_state.c: a ring of the last lines.
pub mod Laws
mod Tests
use pico2w_grbl_bridge.Base.{
  ℕ, zero, suc, ◌+◌, ◌-◌, ◌%◌, List, [], ◌∷◌, get_or, set, replicate, ltb, if◌then◌else◌, Bytes,
}
use pico2w_grbl_bridge.CString.{strncpy}
use pico2w_grbl_bridge.SharedState.Sizes.{console_log_lines, console_log_line_len, add_u32}

-- `console_lines`, `console_head`, `console_count`
pub record Console : Type 0 where
  pub lines : List Bytes
  pub head : ℕ
  pub count : ℕ

-- the static initialisers: all zero
abbrev pub initial : Console
initial = record { lines = replicate console_log_lines []; head = 0; count = 0 }

unfoldable pub push : Console → Bytes → Console
push c line =
    let write_idx : ℕ = add_u32 c.head c.count % console_log_lines in
    let lines' : List Bytes = set c.lines write_idx (strncpy (console_log_line_len - 1) line) in
    if ltb c.count console_log_lines
    then record c { lines = lines'; count = add_u32 c.count 1 }
    else record c { lines = lines'; head = add_u32 c.head 1 % console_log_lines }

-- The `for` loop: rounds left, and `i`. The result is `out[i]`, `out[i + 1]`, ….
unfoldable pub copy_out : Console → ℕ → ℕ → ℕ → List Bytes
copy_out c skip zero i = []
copy_out c skip (suc left) i =
    get_or c.lines (add_u32 (add_u32 c.head skip) i % console_log_lines) []
    ∷ copy_out c skip left (i + 1)

-- The lines that are copied to `out`; the return value is their number.
unfoldable pub snapshot : Console → ℕ → List Bytes
unfolding copy_out
snapshot c max_lines =
    let n : ℕ = if ltb c.count max_lines then c.count else max_lines in copy_out c (c.count - n) n 0
