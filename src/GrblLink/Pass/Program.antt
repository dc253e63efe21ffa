-- ===== src/GrblLink/Pass/Program.antt =====
-- The lines of the queue on their way to the device.
use pico2w_grbl_bridge.Base.{
  ◌⊎◌, ◌<◌, Bool-cases, ◌+◌, ◌≡◌, ◌≢◌, inl, inr, refl, sym, ap, ap₂, ◌∙◌, true, false, some, List,
  [], ◌∷◌, ◌++◌, map, append_assoc, arith, length, length-append, ltb, if◌then◌else◌, Bytes,
}
use mathlib.Core.Path.{subst}
use pico2w_grbl_bridge.SharedState.Shared.{core1_tick}
use pico2w_grbl_bridge.CString.{strncpy}
use pico2w_grbl_bridge.SharedState.Queue
use pico2w_grbl_bridge.SharedState.Queue.{Queue}
use pico2w_grbl_bridge.SharedState.Queue.Fifo
use pico2w_grbl_bridge.SharedState.Queue.Laws.{
  IsValid, contents, length-contents, pop-IsValid, pop_refines,
}
use pico2w_grbl_bridge.GrblLink.Pass.{pass, Floats, with_shared, Env, World, send_line, drive}
use pico2w_grbl_bridge.GrblLink.Pass.InFlight.{
  drive_waiting, usb_task-queue, after_task, run, commands, commands-concat, before_timeout,
  before_timeout-Kept,
}
use pico2w_grbl_bridge.GrblLink.Pass.Progress.{IsIdle, Sent, drive_idle, drive-Sent}

-- a line as it is written to the device
abbrev pub out : Bytes → Bytes
out line = line ++ (b'\n' ∷ [])

-- Lines as the queue keeps them, none of them empty.
abbrev pub AreLines : List Bytes → Type 0
AreLines [] = Unit
AreLines (line ∷ lines) = (strncpy 95 line ≡ line) × (line ≢ []) × AreLines lines

-- The device takes the next line whole.
abbrev pub TakesWhole : Env → List Bytes → Type 0
TakesWhole e [] = Unit
TakesWhole e (line ∷ lines) = e.line_written ≡ length line + 1

-- The queue is popped: an empty queue stays, else its first line is handed out.
pub record Popped (q : Queue) (line : Bytes) (rest : List Bytes) : Type 0 where
  pub left : Queue
  pub pop_is : Queue.pop q 96 ≡ (some line, left)
  pub rest_is : contents left ≡ rest
  pub left_valid : IsValid left

pub popped :
    (q : Queue) (line : Bytes) (rest : List Bytes)
    → IsValid q
    → contents q ≡ line ∷ rest
    → strncpy 95 line ≡ line
    → Popped q line rest
unfolding Fifo.pop
popped q line rest v h short =
    let fifo = pop_refines {q = q} 96 v ∙ ap (λ l. Fifo.pop l 96) h in
    record {
      left = (Queue.pop q 96).1;
      pop_is = ap (λ o. (o, (Queue.pop q 96).1)) (ap (λ r. r.0) fifo ∙ ap some short);
      rest_is = ap (λ r. r.1) fifo;
      left_valid = pop-IsValid 96 v;
    }

module _ {F : Type 0} where
  abbrev pub queued : World F → List Bytes
  queued w = contents w.core.shared.queue

  -- what the device has got, and the lines that it will get
  abbrev pub stream : World F → List Bytes
  stream w = commands w.wire ++ map out (queued w)

  -- The stream is the same, and the queue is as good as before.
  record Conserves (v w : World F) : Type 0 where
    stream_same : stream w ≡ stream v
    valid : IsValid w.core.shared.queue
    lines : AreLines (queued w)

  sent_stream :
      (e : Env) (line : Bytes) (rest : List Bytes) (q : Queue) (u v w : World F)
      → commands v.wire ≡ commands u.wire
      → queued u ≡ line ∷ rest
      → line ≢ []
      → contents q ≡ rest
      → Sent e line q v w
      → stream w ≡ stream u
  sent_stream e line rest q u v w same h given rest_is s =
      let long : ltb 1 (length (out line)) ≡ true =
        ground (arith, given, length-append line (b'\n' ∷ [])) in
      let on_wire : commands w.wire ≡ commands u.wire ++ out line ∷ [] =
        ap commands s.on_wire
        ∙ commands-concat v.wire (out line)
        ∙ ap₂ (λ sent b. sent ++ (if b then out line ∷ [] else [])) same long in
      let left : queued w ≡ rest = ap contents s.queue_rest ∙ rest_is in
      ap₂ (λ sent lines. sent ++ map out lines) on_wire left
      ∙ append_assoc (commands u.wire) (out line ∷ []) (map out rest)
      ∙ ap (λ lines. commands u.wire ++ map out lines) (sym h)

  kept-Conserves :
      (v w : World F)
      → commands w.wire ≡ commands v.wire
      → w.core.shared.queue ≡ v.core.shared.queue
      → IsValid v.core.shared.queue
      → AreLines (queued v)
      → Conserves v w
  kept-Conserves v w same queue_same valid lines = record {
    stream_same = ap₂ (λ sent q. sent ++ map out (contents q)) same queue_same;
    valid = subst IsValid (sym queue_same) valid;
    lines = subst (λ q. AreLines (contents q)) (sym queue_same) lines;
  }

  pub send_none : (e : Env) (w : World F) → w.core.shared.queue.count ≡ 0 → send_line e true w ≡ w
  unfolding send_line Queue.pop
  send_none e w h =
      let empty : ltb 0 w.core.shared.queue.count ≡ false = ground (arith, h) in
      elim (Bool-cases w.core.link.waiting_ok) [
        | inl waits ↦ rw waits refl
        | inr free ↦ rw (free, empty) refl
      ]

  idle_empty :
      (e : Env) (w : World F)
      → IsIdle e w
      → IsValid w.core.shared.queue
      → queued w ≡ []
      → Conserves w (drive e w)
  idle_empty e w i v h =
      let k = before_timeout-Kept e w in
      let none_left : (before_timeout e w).core.shared.queue.count ≡ 0 =
        ap (λ q. q.count) k.queue_same ∙ sym (length-contents w.core.shared.queue) ∙ ap length h in
      subst (Conserves w) (sym (drive_idle e w i ∙ send_none e (before_timeout e w) none_left)) (
        kept-Conserves w (before_timeout e w) k.commands_same k.queue_same v
          (subst AreLines (sym h) tt))

  idle_sends :
      (e : Env) (w : World F) (lines : List Bytes)
      → IsIdle e w
      → IsValid w.core.shared.queue
      → queued w ≡ lines
      → AreLines lines
      → TakesWhole e lines
      → Conserves w (drive e w)
  idle_sends e w [] i v h a takes = idle_empty e w i v h
  idle_sends e w (line ∷ rest) i v h a takes =
      let p = popped w.core.shared.queue line rest v h a.0 in
      let s = drive-Sent e w line p.left i p.pop_is takes in
      record {
        stream_same =
            sent_stream e line rest p.left w (before_timeout e w) (drive e w)
              (before_timeout-Kept e w).commands_same h a.1 p.rest_is s;
        valid = subst IsValid (sym s.queue_rest) p.left_valid;
        lines = subst AreLines (sym (ap contents s.queue_rest ∙ p.rest_is)) a.2;
      }

module _ (fl : Floats) where
  open fl use {Real}

  -- A pass that finds the link waiting, before its deadline.
  abbrev pub Waits : Env → World Real → Type 0
  Waits e w = (w.core.link.waiting_ok ≡ true) × (e.wait_now < w.core.link.waiting_deadline)

  -- Behind its callbacks each pass finds the link waiting, or free to send to a device that takes
  -- the next line whole.
  abbrev pub Steady : List Env → World Real → Type 0
  Steady [] w = Unit
  Steady (e ∷ envs) w =
      (Waits e (after_task fl e w)
        ⊎ (IsIdle e (after_task fl e w) × TakesWhole e (queued (after_task fl e w))))
      × Steady envs (pass fl e w)

  pass-Conserves :
      (e : Env) (w : World Real)
      → IsValid w.core.shared.queue
      → AreLines (queued w)
      → Waits e (after_task fl e w)
        ⊎ (IsIdle e (after_task fl e w) × TakesWhole e (queued (after_task fl e w)))
      → Conserves w (pass fl e w)
  unfolding pass
  pass-Conserves e w v a h =
      let u : World Real = after_task fl e w in
      let task = usb_task-queue fl e.task_now e.events (with_shared (core1_tick w.core.shared) w) in
      let before = kept-Conserves w u (ap commands task.1) task.0 v a in
      let here : Conserves u (drive e u) = elim h [
        | inl waits ↦
            let k = drive_waiting e u waits.0 waits.1 in
            kept-Conserves u (drive e u) k.commands_same k.queue_same before.valid before.lines
        | inr idle ↦ idle_sends e u (queued u) idle.0 before.valid refl before.lines idle.1
      ] in
      record {
        stream_same = here.stream_same ∙ before.stream_same;
        valid = here.valid;
        lines = here.lines;
      }

  -- Over any passes of core1's loop that find the link free or waiting, the G-code that the device
  -- has got, followed by what is still in the queue, stays the same: no line is lost, sent twice or
  -- out of order.
  pub stream-run :
      (envs : List Env) (w : World Real)
      → IsValid w.core.shared.queue
      → AreLines (queued w)
      → Steady envs w
      → stream (run fl envs w) ≡ stream w
  unfolding run
  stream-run [] w v a h = refl
  stream-run (e ∷ envs) w v a h =
      let c = pass-Conserves e w v a h.0 in
      stream-run envs (pass fl e w) c.valid c.lines h.1 ∙ c.stream_same
