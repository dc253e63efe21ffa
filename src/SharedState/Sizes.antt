-- ===== src/SharedState/Sizes.antt =====
-- The constants of src/shared_state.h, and the unsigned arithmetic of the 32-bit target.
use pico2w_grbl_bridge.Base.{ℕ, ◌+◌, ◌%◌, ◌^◌}

abbrev pub grbl_max_axes : ℕ
grbl_max_axes = 6

abbrev pub grbl_status_len : ℕ
grbl_status_len = 16

abbrev pub grbl_alarm_len : ℕ
grbl_alarm_len = 80

abbrev pub grbl_wcs_len : ℕ
grbl_wcs_len = 8

abbrev pub console_log_lines : ℕ
console_log_lines = 32

abbrev pub console_log_line_len : ℕ
console_log_line_len = 120

abbrev pub gcode_queue_depth : ℕ
gcode_queue_depth = 32

abbrev pub gcode_line_len : ℕ
gcode_line_len = 96

abbrev pub led_heartbeat_every_n_lines : ℕ
led_heartbeat_every_n_lines = 10

-- `size_t` and `uint32_t` addition
abbrev pub add_u32 : ℕ → ℕ → ℕ
add_u32 a b = (a + b) % 2 ^ 32
