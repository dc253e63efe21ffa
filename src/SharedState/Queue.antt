-- ===== src/SharedState/Queue.antt =====
-- The outbound G-code queue of src/shared_state.c: a ring of lines between the two cores.
pub mod Fifo
pub mod Laws
mod Tests
use pico2w_grbl_bridge.Base.{
  ℕ, ◌+◌, ◌-◌, ◌%◌, Bool, true, false, Option, none, some, List, [], get_or, set, replicate, ltb,
  if◌then◌else◌, Bytes,
}
use pico2w_grbl_bridge.CString.{strncpy}
use pico2w_grbl_bridge.SharedState.Sizes.{gcode_queue_depth, gcode_line_len, add_u32}

-- `gcode_lines`, `queue_head`, `queue_count`
pub record Queue : Type 0 where
  pub lines : List Bytes
  pub head : ℕ
  pub count : ℕ

-- the static initialisers: all zero
abbrev pub initial : Queue
initial = record { lines = replicate gcode_queue_depth []; head = 0; count = 0 }

-- `gcode_queue_push`
unfoldable pub push : Queue → Bytes → Bool × Queue
push q line =
    let write_idx : ℕ = add_u32 q.head q.count % gcode_queue_depth in
    if ltb q.count gcode_queue_depth
    then (
      true,
      record q {
        lines = set q.lines write_idx (strncpy (gcode_line_len - 1) line);
        count = add_u32 q.count 1;
      },
    )
    else (false, q)

-- `gcode_queue_pop`: `some` holds what is written to `out`. `queue_count--` runs only above 0.
unfoldable pub pop : Queue → ℕ → Option Bytes × Queue
pop q out_cap =
    if ltb 0 q.count
    then (
      some (strncpy (out_cap - 1) (get_or q.lines q.head [])),
      record q { head = add_u32 q.head 1 % gcode_queue_depth; count = q.count - 1 },
    )
    else (none, q)

-- `gcode_queue_len`
unfoldable pub len : Queue → ℕ
len q = q.count
