-- ===== src/SharedState/Filtered.antt =====
-- The filtered console log of src/shared_state.c: a ring of the last lines, each with its
-- sequence number.
pub mod Laws
pub mod History
mod Tests
use pico2w_grbl_bridge.Base.{
  ℕ, zero, suc, ◌+◌, ◌-◌, ◌%◌, List, [], ◌∷◌, get_or, set, replicate, ltb, if◌then◌else◌, Bytes,
}
use pico2w_grbl_bridge.CString.{strncpy}
use pico2w_grbl_bridge.SharedState.Sizes.{console_log_lines, console_log_line_len, add_u32}

-- `filtered_lines`, `filtered_seqs`, `filtered_head`, `filtered_count`, `filtered_next_seq`
pub record Filtered : Type 0 where
  pub lines : List Bytes
  pub seqs : List ℕ
  pub head : ℕ
  pub count : ℕ
  pub next_seq : ℕ

-- the static initialisers
abbrev pub initial : Filtered
initial = record {
  lines = replicate console_log_lines [];
  seqs = replicate console_log_lines 0;
  head = 0;
  count = 0;
  next_seq = 1;
}

unfoldable pub push : Filtered → Bytes → Filtered
push f line =
    let write_idx : ℕ = add_u32 f.head f.count % console_log_lines in
    let written : Filtered = record f {
      lines = set f.lines write_idx (strncpy (console_log_line_len - 1) line);
      seqs = set f.seqs write_idx f.next_seq;
      next_seq = add_u32 f.next_seq 1;
    } in
    if ltb f.count console_log_lines
    then record written { count = add_u32 f.count 1 }
    else record written { head = add_u32 f.head 1 % console_log_lines }

-- The `for` loop: rounds left, and `i`. The results are `out_seq[i]`, … and `out[i]`, ….
unfoldable pub copy_seqs : Filtered → ℕ → ℕ → ℕ → List ℕ
copy_seqs f skip zero i = []
copy_seqs f skip (suc left) i =
    get_or f.seqs (add_u32 (add_u32 f.head skip) i % console_log_lines) 0
    ∷ copy_seqs f skip left (i + 1)

unfoldable pub copy_lines : Filtered → ℕ → ℕ → ℕ → List Bytes
copy_lines f skip zero i = []
copy_lines f skip (suc left) i =
    get_or f.lines (add_u32 (add_u32 f.head skip) i % console_log_lines) []
    ∷ copy_lines f skip left (i + 1)

-- What is copied to `out_seq` and to `out`; the return value is the length of either.
unfoldable pub snapshot : Filtered → ℕ → List ℕ × List Bytes
unfolding copy_seqs copy_lines
snapshot f max_lines =
    let n : ℕ = if ltb f.count max_lines then f.count else max_lines in
    (copy_seqs f (f.count - n) n 0, copy_lines f (f.count - n) n 0)
