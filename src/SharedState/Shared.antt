-- ===== src/SharedState/Shared.antt =====
-- All that the two cores share, and the functions of src/shared_state.c lifted to it.
use pico2w_grbl_bridge.Base.{ℕ, Bool, Bytes}
use pico2w_grbl_bridge.SharedState.Machine
use pico2w_grbl_bridge.SharedState.Machine.{MachineState}
use pico2w_grbl_bridge.SharedState.Console
use pico2w_grbl_bridge.SharedState.Console.{Console}
use pico2w_grbl_bridge.SharedState.Filtered
use pico2w_grbl_bridge.SharedState.Filtered.{Filtered}
use pico2w_grbl_bridge.SharedState.Queue
use pico2w_grbl_bridge.SharedState.Queue.{Queue}
use pico2w_grbl_bridge.SharedState.Realtime
use pico2w_grbl_bridge.SharedState.Realtime.{Realtime}
use pico2w_grbl_bridge.SharedState.Heartbeat
use pico2w_grbl_bridge.SharedState.Heartbeat.{Heartbeat}

-- The statics of src/shared_state.c.
pub record Shared (F : Type 0) : Type 0 where
  pub machine : MachineState F
  pub console : Console
  pub filtered : Filtered
  pub queue : Queue
  pub realtime : Realtime
  pub heartbeat : Heartbeat
  pub core1_ticks : ℕ

module _ {F : Type 0} where
  -- `shared_state_init` behind the static initialisers
  abbrev pub initial : F → Shared F
  initial zero_real = record {
    machine = Machine.init zero_real;
    console = Console.initial;
    filtered = Filtered.initial;
    queue = Queue.initial;
    realtime = Realtime.initial;
    heartbeat = Heartbeat.initial;
    core1_ticks = 0;
  }

  abbrev pub set_status : MachineState F → ℕ → Shared F → Shared F
  set_status new now_ms s = record s { machine = Machine.set_status s.machine new now_ms }

  abbrev pub set_connected : Bool → Shared F → Shared F
  set_connected connected s = record s { machine = Machine.set_connected s.machine connected }

  abbrev pub set_alarm : Bytes → Shared F → Shared F
  set_alarm text s = record s { machine = Machine.set_alarm s.machine text }

  abbrev pub clear_alarm : Shared F → Shared F
  clear_alarm s = record s { machine = Machine.clear_alarm s.machine }

  abbrev pub console_push : Bytes → Shared F → Shared F
  console_push line s = record s { console = Console.push s.console line }

  abbrev pub filtered_push : Bytes → Shared F → Shared F
  filtered_push line s = record s { filtered = Filtered.push s.filtered line }

  abbrev pub request_realtime : ℕ → Shared F → Shared F
  request_realtime which s = record s { realtime = Realtime.request s.realtime which }

  abbrev pub notify_status_line : Shared F → Shared F
  notify_status_line s = record s { heartbeat = Heartbeat.notify_status_line s.heartbeat }

  abbrev pub core1_tick : Shared F → Shared F
  core1_tick s = record s { core1_ticks = Heartbeat.core1_tick s.core1_ticks }
