-- ===== src/SharedState/Heartbeat.antt =====
-- The LED heartbeat and the liveness counter of src/shared_state.c.
pub mod Laws
mod Tests
use pico2w_grbl_bridge.Base.{ℕ, ◌+◌, ◌%◌, Bool, true, false, ◌==◌, if◌then◌else◌}
use pico2w_grbl_bridge.SharedState.Sizes.{led_heartbeat_every_n_lines, add_u32}

-- `led_line_count`, `led_pulse_pending`
pub record Heartbeat : Type 0 where
  pub line_count : ℕ
  pub pulse_pending : Bool

abbrev pub initial : Heartbeat
initial = record { line_count = 0; pulse_pending = false }

-- `shared_state_notify_status_line`
unfoldable pub notify_status_line : Heartbeat → Heartbeat
notify_status_line b =
    let line_count' : ℕ = add_u32 b.line_count 1 in
    record b {
      line_count = line_count';
      pulse_pending =
          if line_count' % led_heartbeat_every_n_lines == 0 then true else b.pulse_pending;
    }

-- `shared_state_take_led_pulse`
unfoldable pub take_led_pulse : Heartbeat → Bool × Heartbeat
take_led_pulse b = (b.pulse_pending, record b { pulse_pending = false })

-- `shared_state_core1_tick`, on `core1_tick_count`
unfoldable pub core1_tick : ℕ → ℕ
core1_tick count = add_u32 count 1

-- `shared_state_core1_tick_count`
unfoldable pub core1_tick_count : ℕ → ℕ
core1_tick_count count = count
