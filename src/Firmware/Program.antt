-- ===== src/Firmware/Program.antt =====
-- From a POST of G-code to the device.
mod Tests
use pico2w_grbl_bridge.Api.Gcode.Lines.{gcode_lines}
use mathlib.Core.Path.{subst}
use pico2w_grbl_bridge.Base.{
  ℕ, zero, suc, ◌+◌, ◌-◌, ◌≡◌, refl, sym, ap, ◌∙◌, some, Option, List, [], ◌∷◌, ◌++◌, map, take,
  drop, Bytes, codes,
}
use pico2w_grbl_bridge.Floats.{Floats}
use pico2w_grbl_bridge.CString.{strncpy, str_eq}
use pico2w_grbl_bridge.CString.Laws.{IsText, strncpy-strncpy, strncpy_given}
use pico2w_grbl_bridge.SharedState.Queue.Laws.{IsValid, contents}
use pico2w_grbl_bridge.GrblLink.Pass
use pico2w_grbl_bridge.GrblLink.Pass.{World}
use pico2w_grbl_bridge.GrblLink.Pass.InFlight.{commands, run}
use pico2w_grbl_bridge.GrblLink.Pass.Program.{AreLines, Steady, out, stream, stream-run}
use pico2w_grbl_bridge.Api.Gcode.{handle_gcode_post}
use pico2w_grbl_bridge.Api.Gcode.Counts.{NoneEmpty, gcode_lines-NoneEmpty, handle_gcode_post-effect}
use pico2w_grbl_bridge.Api.Dispatch.{Site, api_dispatch}
use pico2w_grbl_bridge.HttpServer.Conn.{fresh}
use pico2w_grbl_bridge.HttpServer.Callbacks.{After, Env, on_recv}
use pico2w_grbl_bridge.HttpServer.Callbacks.Shape.{IsRequest}
use pico2w_grbl_bridge.HttpServer.Callbacks.Answer.{HasLine, request_answered}

-- No line has a NUL.
abbrev pub AreTexts : List Bytes → Type 0
AreTexts [] = Unit
AreTexts (line ∷ lines) = IsText line × AreTexts lines

AreLines-append : (xs ys : List Bytes) → AreLines xs → AreLines ys → AreLines (xs ++ ys)
AreLines-append [] ys hx hy = hy
AreLines-append (x ∷ xs) ys hx hy = (hx.0, hx.1, AreLines-append xs ys hx.2 hy)

take-AreLines : (n : ℕ) (xs : List Bytes) → AreLines xs → AreLines (take n xs)
take-AreLines zero xs h = tt
take-AreLines (suc n) [] h = tt
take-AreLines (suc n) (x ∷ xs) h = (h.0, h.1, take-AreLines n xs h.2)

cut-AreLines :
    (lines : List Bytes) → AreTexts lines → NoneEmpty lines → AreLines (map (strncpy 95) lines)
cut-AreLines [] texts given = tt
cut-AreLines (line ∷ lines) texts given = (
  strncpy-strncpy 95 line,
  strncpy_given 94 line texts.0 given.0,
  cut-AreLines lines texts.1 given.1,
)

dispatch_gcode :
    (fl : Floats) (index_html body : Bytes) (now : ℕ) (site : Site fl.Real)
    → (api_dispatch fl index_html (codes "POST") (codes "/api/gcode") body 7168 now site).1.shared
      ≡ (handle_gcode_post body 7168 site.shared).1
unfolding api_dispatch str_eq
dispatch_gcode fl index_html body now site = refl

module _ (fl : Floats) (index_html : Bytes) (r : Bytes) (k n accepted : ℕ)
    (q : IsRequest r k n) where
  open fl use {Real}

  -- the lines that a POST adds to the queue
  abbrev pub added : Site Real → List Bytes
  added site = take (32 - site.shared.queue.count) (map (strncpy 95) (gcode_lines (drop (k + 4) r)))

  pub program_received :
      (query : Option Bytes)
      → HasLine r k (codes "POST") (codes "/api/gcode") query
      → (e : Env) (site : Site Real)
      → (on_recv fl index_html e (some r) (fresh accepted) site).site.shared
        ≡ (handle_gcode_post (drop (k + 4) r) 7168 site.shared).1
  program_received query l e site =
      ap (λ (a : After Real). a.site.shared)
        (request_answered fl index_html r k n accepted q (codes "POST") (codes "/api/gcode") query l
          e site)
      ∙ dispatch_gcode fl index_html (drop (k + 4) r) e.now site

  -- From a POST of G-code to the machine: over any passes of core1's loop behind it, the G-code that
  -- the device has got, followed by what is still queued, is what it had got before, then the lines
  -- that were queued, then the lines of the body, each cut to 95 bytes, as many as there was room
  -- for. No line is lost, sent twice or out of order. The lines of the body are what stands between
  -- its newlines, without the blanks around it, but for blank lines. (The request fits the buffer and is whole, no
  -- line has a NUL and no queued one is empty, core1 starts with what the request left, and each pass
  -- finds the link waiting before its deadline, or free to send to a device that takes the next line
  -- whole.)
  pub posted_program_is_sent :
      (query : Option Bytes)
      → HasLine r k (codes "POST") (codes "/api/gcode") query
      → AreTexts (gcode_lines (drop (k + 4) r))
      → (e : Env) (site : Site Real) → IsValid site.shared.queue
      → AreLines (contents site.shared.queue)
      → (w : World Real)
      → w.core.shared ≡ (on_recv fl index_html e (some r) (fresh accepted) site).site.shared
      → (envs : List Pass.Env) → Steady fl envs w
      → stream (run fl envs w)
        ≡ commands w.wire ++ map out (contents site.shared.queue ++ added site)
  posted_program_is_sent query l texts e site valid lines w shared_is envs steady =
      let body : Bytes = drop (k + 4) r in
      let post = handle_gcode_post-effect body 7168 site.shared valid in
      let queue_is = ap (λ s. s.queue) (shared_is ∙ program_received query l e site) in
      let contents_is = ap contents queue_is ∙ post.0 in
      let all_lines : AreLines (contents site.shared.queue ++ added site) =
        AreLines-append (contents site.shared.queue) (added site) lines (
          take-AreLines (32 - site.shared.queue.count) (map (strncpy 95) (gcode_lines body))
            (cut-AreLines (gcode_lines body) texts (gcode_lines-NoneEmpty body))) in
      stream-run fl envs w (subst IsValid (sym queue_is) post.3)
        (subst AreLines (sym contents_is) all_lines) steady
      ∙ ap (λ ls. commands w.wire ++ map out ls) contents_is
