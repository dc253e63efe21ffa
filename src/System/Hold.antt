-- ===== src/System/Hold.antt =====
-- A feed hold on its way from a POST to the device.
use pico2w_grbl_bridge.System.Weight.{Quiet, part-Quiet, event-Quiet, Unserved}
use pico2w_grbl_bridge.Base.{◌≡◌, refl, ap, ◌∙◌, true, List, [], ◌∷◌, ◌++◌, arith, codes}
use pico2w_grbl_bridge.CString.{str_eq}
use pico2w_grbl_bridge.Floats.{Floats}
use pico2w_grbl_bridge.SharedState.Realtime
use pico2w_grbl_bridge.SharedState.Machine.{clear_alarm}
use pico2w_grbl_bridge.UsbHost.{is_mounted, write}
use pico2w_grbl_bridge.GrblLink.Pass.{Env, World, with_shared, serve_realtime, run_event}
use pico2w_grbl_bridge.Api.Dispatch.{api_dispatch, handle_realtime}
use pico2w_grbl_bridge.System.Post.{Post, after_post}
use pico2w_grbl_bridge.System.{
  System, Op, realtime, Place, between, in_task, before, Act, by_core0, by_core1, call, run_part,
  act, run,
}

module _ {F : Type 0} where
  -- a feed hold is asked for
  abbrev pub IsAsked : World F → Type 0
  IsAsked w = w.core.shared.realtime.hold ≡ true

  Quiet-IsAsked : (v w : World F) → Quiet v w → IsAsked v → IsAsked w
  Quiet-IsAsked v w q h = ap (λ r. Realtime.Realtime.hold r) q.realtime_same ∙ h

  call-IsAsked :
      (op : Op) (w : World F) → IsAsked w → IsAsked (with_shared (call op w.core.shared) w)
  unfolding call Realtime.request
  call-IsAsked op w h = ground arith

  -- A hold goes before every other request.
  serve-IsAsked :
      (e : Env) (w : World F)
      → IsAsked w
      → is_mounted w.usb e.cdc_mounted ≡ true
      → e.rt_written ≡ 1
      → (serve_realtime e true w).wire ≡ w.wire ++ ((b'!' ∷ []) ∷ [])
  unfolding serve_realtime Realtime.take write
  serve-IsAsked e w h m one = rw (h, m, one) refl

module _ (fl : Floats) where
  open fl use {Real}

  abbrev UnservedAt : Place → Type 0
  UnservedAt (before part e mounted) = Unserved part mounted
  UnservedAt _ = Unit

  -- In these steps core1 does not come by to serve a request of realtime with a device mounted.
  abbrev pub NoneServes : List Act → System Real → Type 0
  NoneServes [] s = Unit
  NoneServes (by_core0 op ∷ acts) s = NoneServes acts (act fl (by_core0 op) s)
  NoneServes (by_core1 e ∷ acts) s = UnservedAt s.place × NoneServes acts (act fl (by_core1 e) s)

  advance-IsAsked :
      (e : Env) (p : Place) (w : World Real)
      → UnservedAt p
      → IsAsked w
      → IsAsked (act fl (by_core1 e) (record { place = p; world = w })).world
  unfolding act
  advance-IsAsked e between w u h = h
  advance-IsAsked e (in_task met []) w u h = h
  advance-IsAsked e (in_task met (event ∷ events)) w u h =
      Quiet-IsAsked w (run_event fl met.task_now event w) (event-Quiet fl met.task_now event w) h
  advance-IsAsked e (before part met mounted) w u h =
      Quiet-IsAsked w (run_part part met mounted w) (part-Quiet part met mounted w u) h

  run-IsAsked :
      (acts : List Act) (s : System Real)
      → NoneServes acts s
      → IsAsked s.world
      → IsAsked (run fl acts s).world
  unfolding run act
  run-IsAsked [] s u h = h
  run-IsAsked (by_core0 op ∷ acts) s u h =
      run-IsAsked acts (act fl (by_core0 op) s) u (call-IsAsked op s.world h)
  run-IsAsked (by_core1 e ∷ acts) s u h =
      run-IsAsked acts (act fl (by_core1 e) s) u.1 (advance-IsAsked e s.place s.world u.0 h)

  -- the system behind a POST to /api/hold
  abbrev pub held : Post → System Real → System Real
  held p s = after_post fl (codes "/api/hold") p s

  held-IsAsked : (p : Post) (s : System Real) → IsAsked (held p s).world
  unfolding api_dispatch str_eq handle_realtime Realtime.request clear_alarm
  held-IsAsked p s = refl

  -- From a POST to /api/hold to the device: however the steps of both cores interleave behind it, and
  -- wherever in its loop the POST finds core1, the first time that core1 comes to serve a
  -- request with a device mounted, it writes '!', before every other request and without waiting for the
  -- line in flight. (The device takes the byte.)
  pub hold_is_sent :
      (p : Post) (s : System Real) (acts : List Act) (e met : Env)
      → NoneServes acts (held p s)
      → (run fl acts (held p s)).place ≡ before realtime met true
      → is_mounted (run fl acts (held p s)).world.usb met.cdc_mounted ≡ true
      → met.rt_written ≡ 1
      → (act fl (by_core1 e) (run fl acts (held p s))).world.wire
        ≡ (run fl acts (held p s)).world.wire ++ ((b'!' ∷ []) ∷ [])
  unfolding act run_part
  hold_is_sent p s acts e met none at there one =
      let u : System Real = run fl acts (held p s) in
      ap (λ place. (act fl (by_core1 e) (record u { place = place })).world.wire) at
      ∙ serve-IsAsked met u.world (run-IsAsked acts (held p s) none (held-IsAsked p s)) there one
