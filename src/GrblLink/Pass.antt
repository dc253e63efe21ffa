-- ===== src/GrblLink/Pass.antt =====
-- One pass of the `while (true)` loop of `grbl_link_core1_main` in src/grbl_link.c. What the pass
-- meets from outside is an argument: what TinyUSB reports, how many bytes each write takes, and the
-- time at each call of the loop that reads the clock.
pub mod InFlight
pub mod Progress
pub mod Program
mod Tests
use pico2w_grbl_bridge.Base.{
  ℕ, ◌+◌, ◌-◌, Bool, true, false, not, ◌&&◌, Option, none, some, List, [], ◌∷◌, ◌++◌, take, ◌==◌,
  if◌then◌else◌, Bytes, codes,
}
use pico2w_grbl_bridge.CString.{strncpy}
use pico2w_grbl_bridge.Floats.{Floats}
use pico2w_grbl_bridge.SharedState.Sizes.{gcode_line_len}
use pico2w_grbl_bridge.SharedState.Realtime
use pico2w_grbl_bridge.SharedState.Queue
use pico2w_grbl_bridge.SharedState.Shared.{Shared, console_push, filtered_push, core1_tick}
use pico2w_grbl_bridge.UsbHost.{Usb, is_mounted, write, cdc_mount_cb, cdc_umount_cb, cdc_rx_cb}
use pico2w_grbl_bridge.GrblLink.State.{
  Link, Core, status_poll_interval_ms, line_timeout_ms, no_device_reminder_ms, time_reached,
  timeout_time_ms,
}
use pico2w_grbl_bridge.GrblLink.Reply.{on_line, on_mount}

-- the callbacks that `tuh_task` makes; for `rx`, what each `tuh_cdc_read` returns
pub data UsbEvent : Type 0 where
  mount : ℕ → UsbEvent
  umount : ℕ → UsbEvent
  rx : ℕ → List Bytes → UsbEvent

pub record Env : Type 0 where
  pub events : List UsbEvent
  -- the time of all callbacks of `tuh_task`
  pub task_now : ℕ
  -- what `tuh_cdc_mounted` answers behind `tuh_task`
  pub cdc_mounted : Bool
  pub reminder_now : ℕ
  pub reminder_set_now : ℕ
  pub poll_now : ℕ
  pub poll_set_now : ℕ
  pub wait_now : ℕ
  pub g_now : ℕ
  pub line_now : ℕ
  -- what `tuh_cdc_write` returns at each write
  pub rt_written : ℕ
  pub poll_written : ℕ
  pub g_written : ℕ
  pub line_written : ℕ

-- All that core1 works on, and the bytes that it has sent to the device, a write at a time.
pub record World (F : Type 0) : Type 0 where
  pub core : Core F
  pub usb : Usb
  pub wire : List Bytes

abbrev pub label_of : ℕ → Bytes
label_of rt =
    if rt == b'!'
    then codes "> ! (hold)"
    else if rt == b'~'
    then codes "> ~ (resume)"
    else codes "> ^X (reset)"

abbrev pub g_query : Bytes
g_query = codes "$G\n"

module _ {F : Type 0} where
  abbrev pub with_link : Link F → World F → World F
  with_link l w = record w { core = record w.core { link = l } }

  abbrev pub with_shared : Shared F → World F → World F
  with_shared s w = record w { core = record w.core { shared = s } }

  -- the printf is left out
  unfoldable pub remind : Env → Bool → World F → World F
  remind e mounted w =
      if not mounted && time_reached e.reminder_now w.core.link.next_no_device_reminder
      then with_link
          (record w.core.link {
            next_no_device_reminder = timeout_time_ms e.reminder_set_now no_device_reminder_ms;
          })
          w
      else w

  abbrev pub send : Env → ℕ → Bytes → World F → World F
  send e written bytes w = record w {
    wire = w.wire ++ ((write w.usb e.cdc_mounted written bytes).1 ∷ []);
  }

  abbrev pub send_realtime : Env → Option ℕ → World F → World F
  send_realtime e none w = w
  send_realtime e (some rt) w =
      let w' : World F = send e e.rt_written (rt ∷ []) w in
      record w' {
        core = record w'.core {
          link = record w'.core.link { force_next_status_log = true };
          shared = filtered_push (label_of rt) (console_push (label_of rt) w'.core.shared);
        };
      }

  unfoldable pub serve_realtime : Env → Bool → World F → World F
  serve_realtime e mounted w =
      let (out, realtime') = Realtime.take w.core.shared.realtime in
      if mounted
      then send_realtime e out (with_shared (record w.core.shared { realtime = realtime' }) w)
      else w

  unfoldable pub poll_status : Env → Bool → World F → World F
  poll_status e mounted w =
      if mounted && time_reached e.poll_now w.core.link.next_poll
      then with_link
          (record w.core.link {
            next_poll = timeout_time_ms e.poll_set_now status_poll_interval_ms;
          })
          (send e e.poll_written (b'?' ∷ []) w)
      else w

  unfoldable pub check_timeout : Env → World F → World F
  check_timeout e w =
      if w.core.link.waiting_ok && time_reached e.wait_now w.core.link.waiting_deadline
      then record w {
        core = record w.core {
          link = record w.core.link { waiting_ok = false };
          shared =
              console_push (codes "[link] timed out waiting for ok, resuming queue") w.core.shared;
        };
      }
      else w

  unfoldable pub query_parser_state : Env → Bool → World F → World F
  query_parser_state e mounted w =
      let w' : World F = send e e.g_written g_query w in
      if mounted && (not w.core.link.waiting_ok && w.core.link.need_g_query)
      then if (write w.usb e.cdc_mounted e.g_written g_query).0
        then with_link
            (record w'.core.link {
              need_g_query = false;
              waiting_ok = true;
              waiting_deadline = timeout_time_ms e.g_now line_timeout_ms;
            })
            w'
        else w'
      else w

  abbrev pub send_popped : Env → Option Bytes → World F → World F
  send_popped e none w = w
  send_popped e (some line) w =
      let out : Bytes = line ++ (b'\n' ∷ []) in
      let tagged : Bytes = take (gcode_line_len + 3) (codes "> " ++ line) in
      let w' : World F = send e e.line_written out w in
      if (write w.usb e.cdc_mounted e.line_written out).0
      then record w' {
        core = record w'.core {
          link = record w'.core.link {
            force_next_status_log = true;
            waiting_ok = true;
            waiting_deadline = timeout_time_ms e.line_now line_timeout_ms;
          };
          shared = filtered_push tagged (console_push tagged w'.core.shared);
        };
      }
      else w'

  unfoldable pub send_line : Env → Bool → World F → World F
  send_line e mounted w =
      let (popped, queue') = Queue.pop w.core.shared.queue gcode_line_len in
      if mounted && not w.core.link.waiting_ok
      then send_popped e popped (with_shared (record w.core.shared { queue = queue' }) w)
      else w

  -- the loop body behind `usb_host_cdc_task`
  unfoldable pub drive : Env → World F → World F
  drive e w =
      let mounted : Bool = is_mounted w.usb e.cdc_mounted in
      send_line e mounted (
        query_parser_state e mounted
          (check_timeout e (poll_status e mounted (serve_realtime e mounted (remind e mounted w)))))

module _ (fl : Floats) where
  open fl use {Real}

  abbrev pub run_event : ℕ → UsbEvent → World Real → World Real
  run_event now (mount idx) w =
      let (usb', core') = cdc_mount_cb (some on_mount) idx w.usb w.core in
      record w { usb = usb'; core = core' }
  run_event now (umount idx) w =
      let (usb', core') = cdc_umount_cb (some on_mount) idx w.usb w.core in
      record w { usb = usb'; core = core' }
  run_event now (rx idx reads) w =
      let (usb', core') = cdc_rx_cb (some (on_line fl now)) idx reads w.usb w.core in
      record w { usb = usb'; core = core' }

  -- `usb_host_cdc_task`, with the callbacks that `grbl_link_core1_main` sets
  unfoldable pub usb_task : ℕ → List UsbEvent → World Real → World Real
  usb_task now [] w = w
  usb_task now (event ∷ events) w = usb_task now events (run_event now event w)

  -- one pass of the loop
  unfoldable pub pass : Env → World Real → World Real
  unfolding usb_task drive
  pass e w = drive e (usb_task e.task_now e.events (with_shared (core1_tick w.core.shared) w))
