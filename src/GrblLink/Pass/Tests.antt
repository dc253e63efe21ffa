-- ===== src/GrblLink/Pass/Tests.antt =====
-- Tests of the passes of core1's loop.
use pico2w_grbl_bridge.Base.{refl, arith, true, set, some, ℕ, ◌≡◌, codes, [], ◌∷◌, arith}
use pico2w_grbl_bridge.Floats.Examples.{strokes}
use pico2w_grbl_bridge.CString.{strncpy}
use pico2w_grbl_bridge.UsbHost.{is_mounted}
use pico2w_grbl_bridge.SharedState.Shared
use pico2w_grbl_bridge.SharedState.Realtime
use pico2w_grbl_bridge.SharedState.Heartbeat.{core1_tick}
use pico2w_grbl_bridge.UsbHost.{write}
use pico2w_grbl_bridge.GrblLink.Pass.{
  remind, serve_realtime, poll_status, check_timeout, query_parser_state, send_line,
}
use pico2w_grbl_bridge.SharedState.Queue
use pico2w_grbl_bridge.SharedState.Queue.{Queue}
use pico2w_grbl_bridge.GrblLink.State
use pico2w_grbl_bridge.GrblLink.State.{Core}
use pico2w_grbl_bridge.GrblLink.Pass.{Env, World, drive, usb_task, pass}
use pico2w_grbl_bridge.GrblLink.Pass.InFlight.{
  commands, before_timeout, StaysWaiting, run, run-StaysWaiting,
}
use pico2w_grbl_bridge.GrblLink.Pass.Progress.{
  IsExpired, behind_timeout, drive-Expired, IsIdle, Sent, drive-Sent,
}

abbrev homing : Queue
homing = record Queue.initial { lines = set Queue.initial.lines 0 (codes "$H"); count = 1 }

-- a mounted device, and one line in the queue
abbrev ready : World ℕ
ready = record {
  core = record { link = State.start 0 0 0; shared = record (Shared.initial 0) { queue = homing } };
  usb = record { mounted_idx = 0; line = [] };
  wire = [];
}

-- the same, with a line in flight
abbrev sent : World ℕ
sent = record ready {
  core = record ready.core {
    link = record ready.core.link { waiting_ok = true; waiting_deadline = 30000000 };
  };
}

-- a pass in which each write takes `n` bytes of the line
abbrev quiet : ℕ → Env
quiet n = record {
  events = [];
  task_now = 1000;
  cdc_mounted = true;
  reminder_now = 1001;
  reminder_set_now = 1001;
  poll_now = 1002;
  poll_set_now = 1002;
  wait_now = 1003;
  g_now = 1004;
  line_now = 1005;
  rt_written = 1;
  poll_written = 1;
  g_written = 3;
  line_written = n;
}

ready-IsIdle : (n : ℕ) → IsIdle (quiet n) ready
unfolding is_mounted
ready-IsIdle n = record { mounted = refl; free = refl; no_query = refl }

next : Queue.pop homing 96 ≡ (some (codes "$H"), record homing { head = 1; count = 0 })
unfolding Queue.pop strncpy
next = refl

drive-Sent_example :
    Sent
      (quiet 3)
      (codes "$H")
      (record homing { head = 1; count = 0 })
      (before_timeout (quiet 3) ready)
      (drive (quiet 3) ready)
drive-Sent_example =
    drive-Sent (quiet 3) ready (codes "$H") (record homing { head = 1; count = 0 }) (ready-IsIdle 3)
      next refl

two_passes : StaysWaiting strokes (quiet 3 ∷ quiet 3 ∷ []) sent
unfolding pass usb_task drive remind serve_realtime poll_status check_timeout query_parser_state
    send_line write is_mounted Realtime.take Queue.pop strncpy core1_tick
two_passes = (refl, omega arith, (refl, omega arith, tt))

run-StaysWaiting_example :
    ((run strokes (quiet 3 ∷ quiet 3 ∷ []) sent).core.shared.queue ≡ homing)
    × (commands (run strokes (quiet 3 ∷ quiet 3 ∷ []) sent).wire ≡ [])
run-StaysWaiting_example = run-StaysWaiting strokes (quiet 3 ∷ quiet 3 ∷ []) sent two_passes

-- a pass behind the deadline
abbrev overdue : Env
overdue = record (quiet 3) { wait_now = 30000001; line_now = 30000002 }

sent-IsExpired : IsExpired overdue sent
unfolding is_mounted
sent-IsExpired = record { mounted = refl; waiting = refl; no_query = refl; late = omega arith }

drive-Expired_example :
    Sent overdue
      (codes "$H")
      (record homing { head = 1; count = 0 })
      (behind_timeout overdue sent)
      (drive overdue sent)
drive-Expired_example =
    drive-Expired overdue sent (codes "$H") (record homing { head = 1; count = 0 }) sent-IsExpired
      next refl
