-- ===== src/SharedState/Machine.antt =====
-- `machine_state_t` of src/shared_state.h, and the functions of src/shared_state.c on it. The text
-- fields are the strings that their buffers hold.
pub mod Laws
mod Tests
use pico2w_grbl_bridge.Base.{
  ℕ, ◌-◌, Bool, true, false, List, [], replicate, if◌then◌else◌, Bytes, codes,
}
use pico2w_grbl_bridge.CString.{strncpy}
use pico2w_grbl_bridge.SharedState.Sizes.{grbl_max_axes, grbl_alarm_len}

-- `mpos` and `wpos` have `GRBL_MAX_AXES` entries.
pub record MachineState (F : Type 0) : Type 0 where
  pub connected : Bool
  pub status : Bytes
  pub naxes : ℕ
  pub mpos : List F
  pub wpos : List F
  pub has_wpos : Bool
  pub feed : F
  pub speed : F
  pub has_table : Bool
  pub table_deg : F
  pub table_abs_deg : F
  pub has_servo : Bool
  pub servo_deg : F
  pub wcs : Bytes
  pub alarm : Bytes
  pub last_status_ms : ℕ

module _ {F : Type 0} where
  -- `memset(&state, 0, sizeof(state))`, for a given 0.0f
  abbrev pub zeroed : F → MachineState F
  zeroed zero_real = record {
    connected = false;
    status = [];
    naxes = 0;
    mpos = replicate grbl_max_axes zero_real;
    wpos = replicate grbl_max_axes zero_real;
    has_wpos = false;
    feed = zero_real;
    speed = zero_real;
    has_table = false;
    table_deg = zero_real;
    table_abs_deg = zero_real;
    has_servo = false;
    servo_deg = zero_real;
    wcs = [];
    alarm = [];
    last_status_ms = 0;
  }

  -- `shared_state_init`, less the initialisation of the mutexes
  unfoldable pub init : F → MachineState F
  init zero_real = record (zeroed zero_real) { status = codes "Unknown" }

  -- `shared_state_get`: the snapshot that is written to `out`
  unfoldable pub get : MachineState F → MachineState F
  get state = state

  -- `shared_state_set_status`, at `now_ms` milliseconds since boot
  unfoldable pub set_status : MachineState F → MachineState F → ℕ → MachineState F
  set_status state new now_ms =
      let alarm_keep : Bytes = state.alarm in
      record new { alarm = alarm_keep; last_status_ms = now_ms }

  -- `shared_state_set_connected`
  unfoldable pub set_connected : MachineState F → Bool → MachineState F
  set_connected state connected =
      let state' : MachineState F = record state { connected = connected } in
      if connected then state' else record state' { status = codes "Disconnected" }

  -- `shared_state_set_alarm`
  unfoldable pub set_alarm : MachineState F → Bytes → MachineState F
  set_alarm state text = record state { alarm = strncpy (grbl_alarm_len - 1) text }

  -- `shared_state_clear_alarm`
  unfoldable pub clear_alarm : MachineState F → MachineState F
  clear_alarm state = record state { alarm = [] }
