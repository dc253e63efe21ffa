-- ===== src/Firmware/Program/Tests.antt =====
-- A line of G-code from the POST to the device.
use pico2w_grbl_bridge.Base.{
  ◌≡◌, ◌++◌, ◌∷◌, [], refl, sym, true, inl, inr, none, map, codes, arith, Bytes, ℕ,
}
use pico2w_grbl_bridge.Floats.Examples.{strokes}
use pico2w_grbl_bridge.CString.{strtol, strncpy, mem_byte}
use pico2w_grbl_bridge.SharedState.Shared.{clear_alarm}
use pico2w_grbl_bridge.SharedState.Heartbeat.{core1_tick}
use pico2w_grbl_bridge.SharedState.Realtime
use pico2w_grbl_bridge.SharedState.Queue
use pico2w_grbl_bridge.SharedState.Queue.Laws.{contents}
use pico2w_grbl_bridge.UsbHost.{is_mounted, write}
use pico2w_grbl_bridge.GrblLink.State
use pico2w_grbl_bridge.GrblLink.Pass
use pico2w_grbl_bridge.GrblLink.Pass.{
  World, usb_task, pass, drive, remind, serve_realtime, poll_status, check_timeout,
  query_parser_state, send_line,
}
use pico2w_grbl_bridge.GrblLink.Pass.InFlight.{commands, run}
use pico2w_grbl_bridge.GrblLink.Pass.Program.{Steady, out, stream}
use pico2w_grbl_bridge.Api.Gcode.{handle_gcode_post, submit, submit_all, segments_from, trim}
use pico2w_grbl_bridge.HttpServer.Find.{case_find}
use pico2w_grbl_bridge.HttpServer.Callbacks.{number_at}
use pico2w_grbl_bridge.HttpServer.Callbacks.Shape.{IsRequest}
use pico2w_grbl_bridge.HttpServer.Callbacks.Answer.{HasLine}
use pico2w_grbl_bridge.HttpServer.Examples.{env, site}
use pico2w_grbl_bridge.Api.Gcode.Lines.{
  gcode_lines, split_lines, stripped, strip_front, strip_back, all_blank,
}
use pico2w_grbl_bridge.Firmware.Program.{AreTexts, added, program_received, posted_program_is_sent}

abbrev post : Bytes
post = codes "POST /api/gcode HTTP/1.1\r\nContent-Length: 2\r\n\r\n$H"

post-IsRequest : IsRequest post 43 2
unfolding case_find number_at strtol
post-IsRequest = record {
  header_ends = refl;
  length_is = refl;
  number_inside = ground arith;
  whole = refl;
  small = omega arith;
}

post-HasLine : HasLine post 43 (codes "POST") (codes "/api/gcode") none
post-HasLine = record {
  rest = codes "HTTP/1.1\r\nContent-Length: 2\r\n\r\n";
  line_is = refl;
  method_is = omega arith;
  method_fits = omega arith;
  path_is = omega arith;
  path_fits = omega arith;
  path_given = λ e. cc;
  query_is = tt;
}

-- core1 behind the request, with a mounted device
abbrev behind : World ℕ
behind = record {
  core = record {
    link = State.start 0 0 0;
    shared = (handle_gcode_post (codes "$H") 7168 site.shared).1;
  };
  usb = record { mounted_idx = 0; line = [] };
  wire = [];
}

-- a pass that takes three bytes of the line
abbrev quiet : Pass.Env
quiet = record {
  events = [];
  task_now = 1000;
  cdc_mounted = true;
  reminder_now = 1001;
  reminder_set_now = 1001;
  poll_now = 1002;
  poll_set_now = 1002;
  wait_now = 1003;
  g_now = 1004;
  line_now = 1005;
  rt_written = 1;
  poll_written = 1;
  g_written = 3;
  line_written = 3;
}

quiet-Steady : Steady strokes (quiet ∷ quiet ∷ []) behind
unfolding pass usb_task drive remind serve_realtime poll_status check_timeout query_parser_state
    send_line write is_mounted Realtime.take Queue.pop Queue.push strncpy core1_tick
    handle_gcode_post submit submit_all segments_from trim clear_alarm
quiet-Steady = (
  inr (record { mounted = refl; free = refl; no_query = refl }, refl),
  (inl (refl, omega arith), tt),
)

post_texts : AreTexts (gcode_lines (codes "$H"))
unfolding split_lines stripped strip_front strip_back all_blank mem_byte
post_texts = ground arith

posted_program_is_sent_example :
    stream (run strokes (quiet ∷ quiet ∷ []) behind)
    ≡ commands []
      ++ map out (contents site.shared.queue ++ added strokes [] post 43 2 5 post-IsRequest site)
posted_program_is_sent_example =
    posted_program_is_sent strokes [] post 43 2 5 post-IsRequest none post-HasLine post_texts env
      site (omega arith) tt behind
      (sym (program_received strokes [] post 43 2 5 post-IsRequest none post-HasLine env site))
      (quiet ∷ quiet ∷ []) quiet-Steady
