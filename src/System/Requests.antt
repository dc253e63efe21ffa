-- ===== src/System/Requests.antt =====
-- Realtime requests between the POST and the device.
use pico2w_grbl_bridge.Base.{
  ◌≡◌, refl, Bool, true, false, List, [], ◌∷◌, arith, ◌+◌, ◌≤◌, ◌<◌, codes, Bytes,
}
use pico2w_grbl_bridge.CString.{str_eq}
use pico2w_grbl_bridge.Floats.{Floats}
use pico2w_grbl_bridge.SharedState.Realtime
use pico2w_grbl_bridge.SharedState.Realtime.{Realtime}
use pico2w_grbl_bridge.UsbHost.{is_mounted}
use pico2w_grbl_bridge.GrblLink.Pass.{Env, World}
use pico2w_grbl_bridge.Api.Dispatch.{api_dispatch, handle_realtime}
use pico2w_grbl_bridge.System.Post.{Post, after_post}
use pico2w_grbl_bridge.System.{
  System, Part, reminder, realtime, poll, timeout, query, line, Place, between, in_task, before,
  Act, by_core0, by_core1, run_part, act, run,
}
use pico2w_grbl_bridge.System.Weight.{
  Kind, hold, resume, reset, byte_of, is_pending, times, weight, one_if, Quiet-weight, call-weight,
  serve-weight, part-Quiet, event-Quiet,
}

module _ (fl : Floats) where
  open fl use {Real}

  -- The part that serves requests finds the device that it takes for mounted, which takes the byte.
  abbrev TakesByte : Place → World Real → Type 0
  TakesByte (before realtime e true) w =
      (is_mounted w.usb e.cdc_mounted ≡ true) × (e.rt_written ≡ 1)
  TakesByte _ w = Unit

  abbrev pub AllTaken : List Act → System Real → Type 0
  AllTaken [] s = Unit
  AllTaken (by_core0 op ∷ acts) s = AllTaken acts (act fl (by_core0 op) s)
  AllTaken (by_core1 e ∷ acts) s = TakesByte s.place s.world × AllTaken acts (act fl (by_core1 e) s)

  part-weight :
      (k : Kind) (part : Part) (e : Env) (m : Bool) (w : World Real)
      → TakesByte (before part e m) w
      → weight k w ≤ weight k (run_part part e m w)
  unfolding run_part
  part-weight k realtime e true w h = serve-weight k e w h.0 h.1
  part-weight k realtime e false w h = Quiet-weight k w _ (part-Quiet realtime e false w refl)
  part-weight k reminder e m w h = Quiet-weight k w _ (part-Quiet reminder e m w tt)
  part-weight k poll e m w h = Quiet-weight k w _ (part-Quiet poll e m w tt)
  part-weight k timeout e m w h = Quiet-weight k w _ (part-Quiet timeout e m w tt)
  part-weight k query e m w h = Quiet-weight k w _ (part-Quiet query e m w tt)
  part-weight k line e m w h = Quiet-weight k w _ (part-Quiet line e m w tt)

  advance-weight :
      (k : Kind) (e : Env) (p : Place) (w : World Real)
      → TakesByte p w
      → weight k w ≤ weight k (act fl (by_core1 e) (record { place = p; world = w })).world
  unfolding act
  advance-weight k e between w h = omega arith
  advance-weight k e (in_task met []) w h = omega arith
  advance-weight k e (in_task met (event ∷ events)) w h =
      Quiet-weight k w _ (event-Quiet fl met.task_now event w)
  advance-weight k e (before part met m) w h = part-weight k part met m w h

  run-weight :
      (k : Kind) (acts : List Act) (s : System Real)
      → AllTaken acts s
      → weight k s.world ≤ weight k (run fl acts s).world
  unfolding run act
  run-weight k [] s h = omega arith
  run-weight k (by_core0 op ∷ acts) s h =
      omega (arith, call-weight k op s.world, run-weight k acts (act fl (by_core0 op) s) h)
  run-weight k (by_core1 e ∷ acts) s h =
      omega (
        arith,
        advance-weight k e s.place s.world h.0,
        run-weight k acts (act fl (by_core1 e) s) h.1,
      )

  abbrev pub path_of : Kind → Bytes
  path_of hold = codes "/api/hold"
  path_of resume = codes "/api/resume"
  path_of reset = codes "/api/reset"

  -- the system behind a POST to /api/hold, /api/resume or /api/reset
  abbrev pub posted : Kind → Post → System Real → System Real
  posted k p s = after_post fl (path_of k) p s

  weight-posted :
      (k : Kind) (p : Post) (s : System Real)
      → weight k (posted k p s).world ≡ times (byte_of k) s.world.wire + 1
  unfolding api_dispatch str_eq handle_realtime Realtime.request
  weight-posted hold p s = refl
  weight-posted resume p s = refl
  weight-posted reset p s = refl

  -- No request is lost: behind a POST to /api/hold, /api/resume or /api/reset, however the steps of both
  -- cores interleave, and whatever other requests there are, the request is still pending, or its byte
  -- was written to the device at least once more than before the POST. (Each time that core1 serves
  -- a request with a device mounted, the device is there and takes the byte.)
  pub request_not_lost :
      (k : Kind) (p : Post) (s : System Real) (acts : List Act)
      → AllTaken acts (posted k p s)
      → (let w = (run fl acts (posted k p s)).world in
          times (byte_of k) s.world.wire
          < times (byte_of k) w.wire + one_if (is_pending k w.core.shared.realtime))
  request_not_lost k p s acts h =
      omega (arith, weight-posted k p s, run-weight k acts (posted k p s) h)
