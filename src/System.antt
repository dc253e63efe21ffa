-- ===== src/System.antt =====
-- Both cores at once: the steps of core1's loop (`grbl_link_core1_main` of src/grbl_link.c) and the
-- calls that core0 makes of src/shared_state.c, in any order. A call of core0 is one step, since it
-- holds the mutex of what it touches; of core1 a step is one part of its loop's body, or one callback
-- of `tuh_task`. A part touches the queue and the realtime requests in one call, or not at all. A
-- callback touches neither; but it calls `on_line` for each line of a read, and `on_line` makes
-- several calls, each with its own mutex, on the machine state and the logs. As one step it is
-- coarser than the code there: a call of core0 on the machine state may come between these calls
-- (`shared_state_clear_alarm` between two alarms, say), and such orders are left out.
pub mod Deliver
pub mod Order
pub mod Post
pub mod Weight
pub mod Requests
pub mod Hold
mod Tests
use pico2w_grbl_bridge.Base.{ℕ, Bool, false, List, [], ◌∷◌, Bytes}
use pico2w_grbl_bridge.Floats.{Floats}
use pico2w_grbl_bridge.SharedState.Queue
use pico2w_grbl_bridge.SharedState.Heartbeat
use pico2w_grbl_bridge.SharedState.Shared.{
  Shared, clear_alarm, request_realtime, set_connected, core1_tick,
}
use pico2w_grbl_bridge.UsbHost.{is_mounted}
use pico2w_grbl_bridge.GrblLink.Pass.{
  Env, UsbEvent, World, with_shared, remind, serve_realtime, poll_status, check_timeout,
  query_parser_state, send_line, run_event,
}

-- the calls of core0 that write the shared state: `gcode_queue_push`, `shared_state_clear_alarm`,
-- `shared_state_request_realtime`, `shared_state_take_led_pulse`, and
-- `shared_state_set_connected(false)`
pub data Op : Type 0 where
  queue_line : Bytes → Op
  dismiss_alarm : Op
  ask_realtime : ℕ → Op
  take_pulse : Op
  disconnect : Op

-- the parts of the loop's body behind `usb_host_cdc_is_mounted`, in their order
pub data Part : Type 0 where
  reminder : Part
  realtime : Part
  poll : Part
  timeout : Part
  query : Part
  line : Part

-- Where core1 is: between two passes, in `usb_host_cdc_task` with the callbacks that are left, or
-- before a part, with `mounted`.
pub data Place : Type 0 where
  between : Place
  in_task : Env → List UsbEvent → Place
  before : Part → Env → Bool → Place

pub record System (F : Type 0) : Type 0 where
  pub place : Place
  pub world : World F

-- what core1 does behind a part
abbrev behind : Part → Env → Bool → Place
behind reminder e mounted = before realtime e mounted
behind realtime e mounted = before poll e mounted
behind poll e mounted = before timeout e mounted
behind timeout e mounted = before query e mounted
behind query e mounted = before line e mounted
behind line e mounted = between

module _ {F : Type 0} where
  unfoldable pub call : Op → Shared F → Shared F
  call (queue_line text) s = record s { queue = (Queue.push s.queue text).1 }
  call dismiss_alarm s = clear_alarm s
  call (ask_realtime which) s = request_realtime which s
  call take_pulse s = record s { heartbeat = (Heartbeat.take_led_pulse s.heartbeat).1 }
  call disconnect s = set_connected false s

  unfoldable pub run_part : Part → Env → Bool → World F → World F
  run_part reminder e mounted w = remind e mounted w
  run_part realtime e mounted w = serve_realtime e mounted w
  run_part poll e mounted w = poll_status e mounted w
  run_part timeout e mounted w = check_timeout e w
  run_part query e mounted w = query_parser_state e mounted w
  run_part line e mounted w = send_line e mounted w

-- A step of either core; a pass that begins meets the `Env`.
pub data Act : Type 0 where
  by_core0 : Op → Act
  by_core1 : Env → Act

module _ (fl : Floats) where
  open fl use {Real}

  abbrev pub advance_at : Env → Place → World Real → System Real
  advance_at e between w = record {
    place = in_task e e.events;
    world = with_shared (core1_tick w.core.shared) w;
  }
  advance_at e (in_task met []) w = record {
    place = before reminder met (is_mounted w.usb met.cdc_mounted);
    world = w;
  }
  advance_at e (in_task met (event ∷ events)) w = record {
    place = in_task met events;
    world = run_event fl met.task_now event w;
  }
  advance_at e (before part met mounted) w = record {
    place = behind part met mounted;
    world = run_part part met mounted w;
  }

  unfoldable pub act : Act → System Real → System Real
  unfolding call run_part
  act (by_core0 op) s = record s { world = with_shared (call op s.world.core.shared) s.world }
  act (by_core1 e) s = advance_at e s.place s.world

  unfoldable pub run : List Act → System Real → System Real
  unfolding act
  run [] s = s
  run (a ∷ acts) s = run acts (act a s)
