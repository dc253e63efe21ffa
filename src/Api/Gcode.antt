-- ===== src/Api/Gcode.antt =====
-- `handle_gcode_post` of src/api_handlers.c: one G-code line per line of the body.
pub mod Lines
pub mod Counts
mod Tests
use pico2w_grbl_bridge.Base.{
  ℕ, zero, suc, ◌+◌, ◌-◌, Bool, true, false, ◌&&◌, List, [], ◌∷◌, ◌++◌, length, joined, take, ltb,
  ◌==◌, if◌then◌else◌, Bytes, codes,
}
use pico2w_grbl_bridge.CString.{is_space, skip_space}
use pico2w_grbl_bridge.CString.Decimal.{decimal}
use pico2w_grbl_bridge.SharedState.Sizes.{gcode_line_len}
use pico2w_grbl_bridge.SharedState.Queue
use pico2w_grbl_bridge.SharedState.Queue.{Queue}
use pico2w_grbl_bridge.SharedState.Shared.{Shared, clear_alarm}
use pico2w_grbl_bridge.Api.Output.{Response, body_len_of}

-- The stretches between '\n's that the outer loop goes through; `seg` is the one that it is in.
unfoldable pub segments_from : Bytes → Bytes → List Bytes
segments_from [] [] = []
segments_from (s ∷ seg) [] = (s ∷ seg) ∷ []
segments_from seg (c ∷ body) =
    let ended : List Bytes = seg ∷ segments_from [] body in
    let longer : List Bytes = segments_from (seg ++ (c ∷ [])) body in
    if c == b'\n' then ended else longer

abbrev pub trim_step : ℕ → Bytes → Bytes
trim_step c [] = if is_space c then [] else c ∷ []
trim_step c (d ∷ t) = c ∷ d ∷ t

-- `while (end > start && (body[end - 1] == '\r' || isspace(body[end - 1]))) end--;`
unfoldable pub trim_end : Bytes → Bytes
trim_end [] = []
trim_end (c ∷ s) = trim_step c (trim_end s)

unfoldable pub trim : Bytes → Bytes
unfolding trim_end skip_space
trim seg = skip_space (trim_end seg)

-- `total`, `queued`, `rejected`, and the queue
pub record Tally : Type 0 where
  pub total : ℕ
  pub queued : ℕ
  pub rejected : ℕ
  pub queue : Queue

-- `if (end > start) { .. }`
unfoldable pub submit : Bytes → Tally → Tally
submit [] t = t
submit (c ∷ s) t =
    let (pushed, queue') = Queue.push t.queue (take (gcode_line_len - 1) (c ∷ s)) in
    record {
      total = t.total + 1;
      queued = if pushed then t.queued + 1 else t.queued;
      rejected = if pushed then t.rejected else t.rejected + 1;
      queue = queue';
    }

-- the outer loop
unfoldable pub submit_all : List Bytes → Tally → Tally
submit_all [] t = t
submit_all (seg ∷ segs) t = submit_all segs (submit (trim seg) t)

-- the text that `snprintf` makes
unfoldable pub reply_text : Tally → Bytes
reply_text t = joined (
    codes "{\"total\":"
    ∷ decimal t.total
    ∷ codes ",\"queued\":"
    ∷ decimal t.queued
    ∷ codes ",\"rejected\":"
    ∷ decimal t.rejected
    ∷ codes "}"
    ∷ [])

-- `handle_gcode_post`, with a buffer of `cap_len` bytes
unfoldable pub handle_gcode_post : {F : Type 0} → Bytes → ℕ → Shared F → Response × Shared F
unfolding segments_from submit submit_all trim
handle_gcode_post body cap_len s =
    let cleared = clear_alarm s in
    let t : Tally =
      submit_all (segments_from [] body)
        (record { total = 0; queued = 0; rejected = 0; queue = cleared.queue }) in
    let text : Bytes = reply_text t in
    let none_queued : Bool = ltb 0 t.total && t.queued == 0 in
    (
      record {
        status = if none_queued then 503 else 200;
        status_text = if none_queued then codes "Service Unavailable" else codes "OK";
        content_type = codes "application/json";
        body = take (cap_len - 1) text;
        body_len = body_len_of cap_len (length text);
      },
      record cleared { queue = t.queue },
    )
