-- ===== src/System/Tests.antt =====
-- Tests of both cores at once.
use pico2w_grbl_bridge.Api.Dispatch.{api_dispatch, handle_realtime}
use pico2w_grbl_bridge.System.Weight.{reset, times, one_if}
use pico2w_grbl_bridge.System.Requests.{AllTaken, posted, request_not_lost}
use pico2w_grbl_bridge.CString.{str_eq}
use pico2w_grbl_bridge.WifiConfig
use pico2w_grbl_bridge.System.Hold.{held, NoneServes, hold_is_sent}
use pico2w_grbl_bridge.System.Post.{Post}
use pico2w_grbl_bridge.SharedState.Machine.{clear_alarm}
use pico2w_grbl_bridge.SharedState.Heartbeat.{core1_tick}
use pico2w_grbl_bridge.UsbHost.{write, is_mounted}
use pico2w_grbl_bridge.Base.{
  ℕ, ◌≡◌, refl, true, List, [], ◌∷◌, ◌++◌, map, set, replicate, codes, arith, ◌+◌, ◌<◌,
}
use pico2w_grbl_bridge.Floats.Examples.{strokes}
use pico2w_grbl_bridge.CString.{strncpy}
use pico2w_grbl_bridge.SharedState.Shared
use pico2w_grbl_bridge.SharedState.Queue
use pico2w_grbl_bridge.SharedState.Realtime
use pico2w_grbl_bridge.SharedState.Queue.{Queue}
use pico2w_grbl_bridge.GrblLink.State
use pico2w_grbl_bridge.GrblLink.Pass.{
  Env, remind, serve_realtime, poll_status, check_timeout, query_parser_state, send_line,
}
use pico2w_grbl_bridge.GrblLink.Pass.Program.{out}
use pico2w_grbl_bridge.System.{
  System, Act, by_core0, by_core1, queue_line, dismiss_alarm, between, run, act, call, run_part,
  before, realtime, ask_realtime,
}
use pico2w_grbl_bridge.System.Deliver.{queued}
use pico2w_grbl_bridge.System.Order.{accepted_in, sent_in, lines_in_order, IsSound, AllWhole}

-- a mounted device, and one line in the queue
abbrev homing : Queue
homing = record Queue.initial { lines = set Queue.initial.lines 0 (codes "$H"); count = 1 }

abbrev ready : System ℕ
ready = record {
  place = between;
  world = record {
    core = record {
      link = State.start 0 0 0;
      shared = record (Shared.initial 0) { queue = homing };
    };
    usb = record { mounted_idx = 0; line = [] };
    wire = [];
  };
}

abbrev met : Env
met = record {
  events = [];
  task_now = 1000;
  cdc_mounted = true;
  reminder_now = 1001;
  reminder_set_now = 1001;
  poll_now = 1002;
  poll_set_now = 1002;
  wait_now = 1003;
  g_now = 1004;
  line_now = 1005;
  rt_written = 1;
  poll_written = 1;
  g_written = 3;
  line_written = 3;
}

-- A pass of core1, with a POST of another line in the middle of it.
abbrev acts : List Act
acts =
    by_core1 met
    ∷ by_core1 met
    ∷ by_core1 met
    ∷ by_core0 dismiss_alarm
    ∷ by_core1 met
    ∷ by_core1 met
    ∷ by_core0 (queue_line (codes "G0 X1"))
    ∷ replicate 3 (by_core1 met)

ready-IsSound : IsSound strokes ready
unfolding strncpy
ready-IsSound = record { valid = omega arith; cut = (refl, tt); knows = tt }

acts-AllWhole : AllWhole strokes acts ready
unfolding act call run_part remind serve_realtime poll_status check_timeout query_parser_state
    send_line write is_mounted Realtime.take Queue.push Queue.pop strncpy core1_tick clear_alarm
acts-AllWhole = (tt, (tt, (tt, (tt, (tt, (tt, (tt, (λ m f. refl, tt))))))))

lines_in_order_example :
    map out (queued ready.world ++ accepted_in strokes acts ready)
    ≡ sent_in strokes acts ready ++ map out (queued (run strokes acts ready).world)
lines_in_order_example = lines_in_order strokes acts ready ready-IsSound acts-AllWhole

-- a POST without a body
abbrev post : Post
post = record { index_html = []; body = []; cap_len = 7168; now = 0; wifi = WifiConfig.initial }

-- core1 up to its realtime part, and a line that core0 queues meanwhile
abbrev meanwhile : List Act
meanwhile = by_core1 met ∷ by_core1 met ∷ by_core0 (queue_line (codes "M3")) ∷ by_core1 met ∷ []

meanwhile_place : (run strokes meanwhile (held strokes post ready)).place ≡ before realtime met true
unfolding run act call run_part remind is_mounted api_dispatch str_eq handle_realtime
meanwhile_place = refl

meanwhile_mounted :
    is_mounted (run strokes meanwhile (held strokes post ready)).world.usb met.cdc_mounted ≡ true
unfolding run act call run_part remind is_mounted api_dispatch str_eq handle_realtime
meanwhile_mounted = refl

meanwhile-NoneServes : NoneServes strokes meanwhile (held strokes post ready)
unfolding act
meanwhile-NoneServes = (tt, (tt, (tt, tt)))

hold_is_sent_example :
    (act strokes (by_core1 met) (run strokes meanwhile (held strokes post ready))).world.wire
    ≡ (run strokes meanwhile (held strokes post ready)).world.wire ++ ((b'!' ∷ []) ∷ [])
hold_is_sent_example =
    hold_is_sent strokes post ready meanwhile met met meanwhile-NoneServes meanwhile_place
      meanwhile_mounted refl

-- a pass, with a POST of another request behind the first
abbrev passing : List Act
passing = by_core1 met ∷ by_core0 (ask_realtime b'!') ∷ replicate 7 (by_core1 met)

passing-AllTaken : AllTaken strokes passing (posted strokes reset post ready)
unfolding act call run_part remind is_mounted serve_realtime poll_status check_timeout
    query_parser_state send_line Realtime.take Realtime.request write Queue.pop core1_tick
    handle_realtime api_dispatch str_eq
passing-AllTaken = (tt, (tt, (tt, ((refl, refl), (tt, (tt, (tt, (tt, tt))))))))

request_not_lost_example :
    let w = (run strokes passing (posted strokes reset post ready)).world in
    times 0x18 [] < times 0x18 w.wire + one_if w.core.shared.realtime.reset
request_not_lost_example = request_not_lost strokes reset post ready passing passing-AllTaken
