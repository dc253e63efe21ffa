-- ===== src/System/Order.antt =====
-- The lines that core0 queues reach the device in their order, whatever the interleaving.
use mathlib.Core.List.{map-append}
use pico2w_grbl_bridge.System.{
  System, Op, queue_line, dismiss_alarm, ask_realtime, take_pulse, disconnect, Part, reminder,
  realtime, poll, timeout, query, line, Place, between, in_task, before, Act, by_core0, by_core1,
  call, run_part, act, run,
}
use pico2w_grbl_bridge.System.Deliver.{
  AreCut, AreCut-append, taken_in, taken_in-AreCut, contents-push, queued, Calm, Kept-Calm,
  timeout-Calm, query-Calm, sent_lines, SendsWhole, line-Delivers,
}
use pico2w_grbl_bridge.Floats.{Floats}
use pico2w_grbl_bridge.Base.{
  ◌≡◌, refl, sym, ap, ◌∙◌, Bool, List, [], ◌∷◌, ◌++◌, map, append-nil, Bytes, append_assoc,
}
use mathlib.Core.Path.{subst}
use pico2w_grbl_bridge.SharedState.Queue.Laws.{IsValid, contents, push-IsValid}
use pico2w_grbl_bridge.UsbHost.{is_mounted, Usb}
use pico2w_grbl_bridge.GrblLink.Pass.{Env, World}
use pico2w_grbl_bridge.GrblLink.Pass.InFlight.{
  remind-Kept, serve_realtime-Kept, poll_status-Kept, run_event-queue,
}
use pico2w_grbl_bridge.GrblLink.Pass.Program.{out}

module _ (fl : Floats) where
  open fl use {Real}

  -- the line that a step adds to the queue
  abbrev accepted : Act → System Real → List Bytes
  accepted (by_core0 (queue_line text)) s = taken_in text s.world.core.shared.queue
  accepted _ s = []

  abbrev sent_at : Place → World Real → List Bytes
  sent_at (before line e mounted) w = sent_lines e mounted w
  sent_at _ w = []

  -- what a step writes to the device for a line of the queue
  abbrev sent : Act → System Real → List Bytes
  sent (by_core0 op) s = []
  sent (by_core1 e) s = sent_at s.place s.world

  -- the same over many steps
  abbrev pub accepted_in : List Act → System Real → List Bytes
  accepted_in [] s = []
  accepted_in (a ∷ acts) s = accepted a s ++ accepted_in acts (act fl a s)

  abbrev pub sent_in : List Act → System Real → List Bytes
  sent_in [] s = []
  sent_in (a ∷ acts) s = sent a s ++ sent_in acts (act fl a s)

  abbrev SendsWholeAt : Place → World Real → Type 0
  SendsWholeAt (before line e mounted) w = SendsWhole e mounted w
  SendsWholeAt _ w = Unit

  -- Each line that is sent, the device takes whole.
  abbrev pub AllWhole : List Act → System Real → Type 0
  AllWhole [] s = Unit
  AllWhole (by_core0 op ∷ acts) s = AllWhole acts (act fl (by_core0 op) s)
  AllWhole (by_core1 e ∷ acts) s =
      SendsWholeAt s.place s.world × AllWhole acts (act fl (by_core1 e) s)

  -- `mounted` still says what it did.
  abbrev Knows : Place → Usb → Type 0
  Knows (before part e mounted) u = mounted ≡ is_mounted u e.cdc_mounted
  Knows _ u = Unit

  pub record IsSound (s : System Real) : Type 0 where
    pub valid : IsValid s.world.core.shared.queue
    pub cut : AreCut (queued s.world)
    pub knows : Knows s.place s.world.usb

  record Steps (a : Act) (s : System Real) : Type 0 where
    sound : IsSound (act fl a s)
    in_order :
        map out (queued s.world ++ accepted a s) ≡ sent a s ++ map out (queued (act fl a s).world)

  quiet-Steps :
      (a : Act) (s : System Real)
      → IsSound s
      → (act fl a s).world.core.shared.queue ≡ s.world.core.shared.queue
      → accepted a s ≡ []
      → sent a s ≡ []
      → Knows (act fl a s).place (act fl a s).world.usb
      → Steps a s
  quiet-Steps a s i same none silent knows = record {
    sound = record {
      valid = subst IsValid (sym same) i.valid;
      cut = subst (λ q. AreCut (contents q)) (sym same) i.cut;
      knows = knows;
    };
    in_order =
        ap (λ lines. map out (queued s.world ++ lines)) none
        ∙ ap (map out) (append-nil (queued s.world) ∙ ap contents (sym same))
        ∙ ap (λ lines. lines ++ map out (queued (act fl a s).world)) (sym silent);
  }

  push-Steps : (text : Bytes) (s : System Real) → IsSound s → Steps (by_core0 (queue_line text)) s
  unfolding act call
  push-Steps text s i =
      let more = contents-push text s.world.core.shared.queue i.valid in
      record {
        sound = record {
          valid = push-IsValid text i.valid;
          cut = subst AreCut (sym more) (
              AreCut-append (queued s.world) (taken_in text s.world.core.shared.queue) i.cut
                (taken_in-AreCut text s.world.core.shared.queue));
          knows = i.knows;
        };
        in_order = ap (map out) (sym more);
      }

  call-Steps : (op : Op) (s : System Real) → IsSound s → Steps (by_core0 op) s
  unfolding act call
  call-Steps (queue_line text) s i = push-Steps text s i
  call-Steps dismiss_alarm s i = quiet-Steps (by_core0 dismiss_alarm) s i refl refl refl i.knows
  call-Steps (ask_realtime which) s i =
      quiet-Steps (by_core0 (ask_realtime which)) s i refl refl refl i.knows
  call-Steps take_pulse s i = quiet-Steps (by_core0 take_pulse) s i refl refl refl i.knows
  call-Steps disconnect s i = quiet-Steps (by_core0 disconnect) s i refl refl refl i.knows

  module _ (e met : Env) (mounted : Bool) (w : World Real) where
    abbrev at : Part → System Real
    at part = record { place = before part met mounted; world = w }

    Calm-Steps :
        (part : Part)
        → IsSound (at part)
        → Calm w (act fl (by_core1 e) (at part)).world
        → sent (by_core1 e) (at part) ≡ []
        → ((u : World Real) → Calm w u → Knows (act fl (by_core1 e) (at part)).place u.usb)
        → Steps (by_core1 e) (at part)
    Calm-Steps part i calm silent knows =
        quiet-Steps (by_core1 e) (at part) i calm.queue_same refl silent
          (knows (act fl (by_core1 e) (at part)).world calm)

    still :
        (v : World Real)
        → mounted ≡ is_mounted w.usb met.cdc_mounted
        → Calm w v
        → mounted ≡ is_mounted v.usb met.cdc_mounted
    still v h calm = h ∙ ap (λ u. is_mounted u met.cdc_mounted) (sym calm.usb_same)

    part-Steps :
        (part : Part)
        → IsSound (at part)
        → SendsWholeAt (before part met mounted) w
        → Steps (by_core1 e) (at part)
    unfolding act run_part
    part-Steps reminder i h =
        Calm-Steps reminder i (Kept-Calm w _ (remind-Kept met mounted w)) refl
          (λ u c. still u i.knows c)
    part-Steps realtime i h =
        Calm-Steps realtime i (Kept-Calm w _ (serve_realtime-Kept met mounted w)) refl
          (λ u c. still u i.knows c)
    part-Steps poll i h =
        Calm-Steps poll i (Kept-Calm w _ (poll_status-Kept met mounted w)) refl
          (λ u c. still u i.knows c)
    part-Steps timeout i h =
        Calm-Steps timeout i (timeout-Calm met w) refl (λ u c. still u i.knows c)
    part-Steps query i h =
        Calm-Steps query i (query-Calm met mounted w) refl (λ u c. still u i.knows c)
    part-Steps line i h =
        let d = line-Delivers met mounted w i.valid i.cut i.knows h in
        record {
          sound = record { valid = d.valid; cut = d.cut; knows = tt };
          in_order = ap (map out) (append-nil (queued w)) ∙ d.in_order;
        }

  advance-Steps :
      (e : Env) (p : Place) (w : World Real)
      → IsSound (record { place = p; world = w })
      → SendsWholeAt p w
      → Steps (by_core1 e) (record { place = p; world = w })
  unfolding act
  advance-Steps e between w i h =
      quiet-Steps (by_core1 e) (record { place = between; world = w }) i refl refl refl tt
  advance-Steps e (in_task met []) w i h =
      quiet-Steps (by_core1 e) (record { place = in_task met []; world = w }) i refl refl refl refl
  advance-Steps e (in_task met (event ∷ events)) w i h =
      quiet-Steps (by_core1 e) (record { place = in_task met (event ∷ events); world = w }) i
        (run_event-queue fl met.task_now event w).0 refl refl tt
  advance-Steps e (before part met mounted) w i h = part-Steps e met mounted w part i h

  act-Steps :
      (a : Act) (acts : List Act) (s : System Real) → IsSound s → AllWhole (a ∷ acts) s → Steps a s
  act-Steps (by_core0 op) acts s i h = call-Steps op s i
  act-Steps (by_core1 e) acts s i h = advance-Steps e s.place s.world i h.0

  later_whole :
      (a : Act) (acts : List Act) (s : System Real)
      → AllWhole (a ∷ acts) s
      → AllWhole acts (act fl a s)
  later_whole (by_core0 op) acts s h = h
  later_whole (by_core1 e) acts s h = h.1

  -- Whatever the interleaving of the steps of both cores: what was queued, then the lines that
  -- `gcode_queue_push` accepted on the way, are what core1 sent on the way, then what is queued at
  -- the end. No line is lost, sent twice or out of order. (The queue is valid and holds lines as
  -- it cuts them, core1 starts anywhere in its loop, in a pass with what it found mounted still so,
  -- and the device takes each line whole that is sent to it.)
  pub lines_in_order :
      (acts : List Act) (s : System Real)
      → IsSound s
      → AllWhole acts s
      → map out (queued s.world ++ accepted_in acts s)
        ≡ sent_in acts s ++ map out (queued (run fl acts s).world)
  unfolding run
  lines_in_order [] s i h = ap (map out) (append-nil (queued s.world))
  lines_in_order (a ∷ acts) s i h =
      let here = act-Steps a acts s i h in
      let next : System Real = act fl a s in
      let more = accepted_in acts next in
      ap (map out) (sym (append_assoc (queued s.world) (accepted a s) more))
      ∙ map-append out (queued s.world ++ accepted a s) more
      ∙ ap (λ lines. lines ++ map out more) here.in_order
      ∙ append_assoc (sent a s) (map out (queued next.world)) (map out more)
      ∙ ap (λ lines. sent a s ++ lines)
          (sym (map-append out (queued next.world) more)
            ∙ lines_in_order acts next here.sound (later_whole a acts s h))
      ∙ sym
          (append_assoc (sent a s) (sent_in acts next) (map out (queued (run fl acts next).world)))
