-- ===== src/GrblLink/Pass/InFlight.antt =====
-- While a line is in flight, nothing else is sent but single realtime bytes.
use pico2w_grbl_bridge.Base.{
  append-nil, ℕ, ◌≤◌, ◌<◌, ◌≡◌, refl, sym, ◌∙◌, Bool, true, false, Option, none, some, List, [],
  ◌∷◌, ◌++◌, arith, length, length-take, ltb, if◌then◌else◌, Bytes,
}
use mathlib.Core.Path.{ap, subst}
use pico2w_grbl_bridge.SharedState.Shared.{core1_tick}
use pico2w_grbl_bridge.GrblLink.State.{Core}
use pico2w_grbl_bridge.GrblLink.Reply.{on_line, on_mount}
use pico2w_grbl_bridge.GrblLink.Reply.Handshake.{on_line-effect}
use pico2w_grbl_bridge.UsbHost.{cdc_mount_cb, cdc_umount_cb}
use pico2w_grbl_bridge.UsbHost.Callbacks.{cdc_rx_cb_inv}
use pico2w_grbl_bridge.Floats.{Floats}
use pico2w_grbl_bridge.SharedState.Realtime
use pico2w_grbl_bridge.UsbHost.{Usb, is_mounted, write}
use pico2w_grbl_bridge.GrblLink.Pass.{
  run_event, mount, umount, rx, UsbEvent, pass, usb_task, Env, World, send, send_realtime, remind,
  serve_realtime, poll_status, check_timeout, query_parser_state, send_line, drive, with_shared,
}

-- the writes of more than one byte: G-code lines and the `$G` query
abbrev pub commands : List Bytes → List Bytes
commands [] = []
commands (bytes ∷ wire) = if ltb 1 (length bytes) then bytes ∷ commands wire else commands wire

pub commands-concat :
    (wire : List Bytes) (bytes : Bytes)
    → commands (wire ++ (bytes ∷ []))
      ≡ commands wire ++ (if ltb 1 (length bytes) then bytes ∷ [] else [])
commands-concat [] bytes = refl
commands-concat (b ∷ wire) bytes = ground (arith, commands-concat wire bytes)

length-write :
    (u : Usb) (m : Bool) (n : ℕ) (bytes : Bytes) → length (write u m n bytes).1 ≤ length bytes
unfolding write
length-write u m n bytes = ground (arith, length-take n bytes)

module _ {F : Type 0} where
  -- What a stage of the pass leaves alone.
  pub record Kept (w v : World F) : Type 0 where
    pub waiting_same : v.core.link.waiting_ok ≡ w.core.link.waiting_ok
    pub deadline_same : v.core.link.waiting_deadline ≡ w.core.link.waiting_deadline
    pub query_same : v.core.link.need_g_query ≡ w.core.link.need_g_query
    pub queue_same : v.core.shared.queue ≡ w.core.shared.queue
    pub usb_same : v.usb ≡ w.usb
    pub commands_same : commands v.wire ≡ commands w.wire

  pub remind-Kept : (e : Env) (mounted : Bool) (w : World F) → Kept w (remind e mounted w)
  unfolding remind
  remind-Kept e mounted w = ground arith

  send_byte :
      (e : Env) (n c : ℕ) (w : World F) → commands (send e n (c ∷ []) w).wire ≡ commands w.wire
  unfolding send
  send_byte e n c w =
      let b : Bytes = (write w.usb e.cdc_mounted n (c ∷ [])).1 in
      let single : ltb 1 (length b) ≡ false =
        ground (arith, length-write w.usb e.cdc_mounted n (c ∷ [])) in
      commands-concat w.wire b
      ∙ ap (λ long. commands w.wire ++ (if long then b ∷ [] else [])) single
      ∙ append-nil (commands w.wire)

  send-usb : (e : Env) (n : ℕ) (bytes : Bytes) (w : World F) → (send e n bytes w).usb ≡ w.usb
  unfolding send
  send-usb e n bytes w = refl

  send-core : (e : Env) (n : ℕ) (bytes : Bytes) (w : World F) → (send e n bytes w).core ≡ w.core
  unfolding send
  send-core e n bytes w = refl

  send_realtime-Kept : (e : Env) (out : Option ℕ) (w : World F) → Kept w (send_realtime e out w)
  unfolding send
  send_realtime-Kept e none w = ground arith
  send_realtime-Kept e (some rt) w = ground (arith, send_byte e e.rt_written rt w)

  pub serve_realtime-Kept :
      (e : Env) (mounted : Bool) (w : World F) → Kept w (serve_realtime e mounted w)
  unfolding serve_realtime
  serve_realtime-Kept e false w = ground arith
  serve_realtime-Kept e true w = ground (
    arith,
    send_realtime-Kept e (Realtime.take w.core.shared.realtime).0 (
        with_shared (record w.core.shared { realtime = (Realtime.take w.core.shared.realtime).1 })
          w),
  )

  pub poll_status-Kept : (e : Env) (mounted : Bool) (w : World F) → Kept w (poll_status e mounted w)
  unfolding poll_status send
  poll_status-Kept e mounted w = ground (arith, send_byte e e.poll_written b'?' w)

  -- the stages up to the timeout
  abbrev pub before_timeout : Env → World F → World F
  before_timeout e w =
      let mounted : Bool = is_mounted w.usb e.cdc_mounted in
      poll_status e mounted (serve_realtime e mounted (remind e mounted w))

  pub before_timeout-Kept : (e : Env) (w : World F) → Kept w (before_timeout e w)
  before_timeout-Kept e w =
      let mounted : Bool = is_mounted w.usb e.cdc_mounted in
      let w1 = remind e mounted w in
      let w2 = serve_realtime e mounted w1 in
      ground (
        arith,
        remind-Kept e mounted w,
        serve_realtime-Kept e mounted w1,
        poll_status-Kept e mounted w2,
      )

  check_timeout_early :
      (e : Env) (w : World F) → e.wait_now < w.core.link.waiting_deadline → check_timeout e w ≡ w
  unfolding check_timeout
  check_timeout_early e w h = ground arith

  query_waiting :
      (e : Env) (mounted : Bool) (w : World F)
      → w.core.link.waiting_ok ≡ true
      → query_parser_state e mounted w ≡ w
  unfolding query_parser_state
  query_waiting e mounted w wait = ground arith

  send_line_waiting :
      (e : Env) (mounted : Bool) (w : World F)
      → w.core.link.waiting_ok ≡ true
      → send_line e mounted w ≡ w
  unfolding send_line
  send_line_waiting e mounted w wait = ground arith

  -- Waiting, and before the deadline, the later stages do nothing.
  later_stages_waiting :
      (e : Env) (mounted : Bool) (w : World F)
      → w.core.link.waiting_ok ≡ true
      → e.wait_now < w.core.link.waiting_deadline
      → send_line e mounted (query_parser_state e mounted (check_timeout e w)) ≡ w
  later_stages_waiting e mounted w wait h =
      ap (λ v. send_line e mounted (query_parser_state e mounted v)) (check_timeout_early e w h)
      ∙ ap (send_line e mounted) (query_waiting e mounted w wait)
      ∙ send_line_waiting e mounted w wait

  -- In a pass that finds the link waiting, before the deadline, the queue keeps its lines, nothing
  -- but single bytes is written to the device, and the link goes on waiting with its deadline.
  pub drive_waiting :
      (e : Env) (w : World F)
      → w.core.link.waiting_ok ≡ true
      → e.wait_now < w.core.link.waiting_deadline
      → Kept w (drive e w)
  unfolding drive
  drive_waiting e w wait h =
      let k = before_timeout-Kept e w in
      subst (Kept w)
        (sym (
          later_stages_waiting e (is_mounted w.usb e.cdc_mounted) (before_timeout e w)
            (k.waiting_same ∙ wait) (omega (arith, k.deadline_same))))
        k

-- Behind a full pass: what the callbacks of `tuh_task` made of the world.
module _ (fl : Floats) where
  open fl use {Real}

  abbrev pub after_task : Env → World Real → World Real
  after_task e w = usb_task fl e.task_now e.events (with_shared (core1_tick w.core.shared) w)

  -- Each pass finds the link still waiting behind its callbacks, before the deadline.
  abbrev pub StaysWaiting : List Env → World Real → Type 0
  StaysWaiting [] w = Unit
  StaysWaiting (e ∷ envs) w =
      ((after_task e w).core.link.waiting_ok ≡ true)
      × (e.wait_now < (after_task e w).core.link.waiting_deadline)
      × StaysWaiting envs (pass fl e w)

  unfoldable pub run : List Env → World Real → World Real
  run [] w = w
  run (e ∷ envs) w = run envs (pass fl e w)

  pub run_event-queue :
      (now : ℕ) (event : UsbEvent) (w : World Real)
      → ((run_event fl now event w).core.shared.queue ≡ w.core.shared.queue)
        × ((run_event fl now event w).wire ≡ w.wire)
  unfolding cdc_mount_cb cdc_umount_cb on_mount
  run_event-queue now (mount idx) w = ground arith
  run_event-queue now (umount idx) w = ground arith
  run_event-queue now (rx idx reads) w = (
    cdc_rx_cb_inv (λ (c : Core Real). c.shared.queue ≡ w.core.shared.queue) (on_line fl now)
        (λ line c e. (on_line-effect fl now line c).2 ∙ e) idx reads w.usb w.core refl,
    refl,
  )

  pub usb_task-queue :
      (now : ℕ) (events : List UsbEvent) (w : World Real)
      → ((usb_task fl now events w).core.shared.queue ≡ w.core.shared.queue)
        × ((usb_task fl now events w).wire ≡ w.wire)
  unfolding usb_task
  usb_task-queue now [] w = (refl, refl)
  usb_task-queue now (event ∷ events) w =
      let here = run_event-queue now event w in
      let later = usb_task-queue now events (run_event fl now event w) in
      (later.0 ∙ here.0, later.1 ∙ here.1)

  -- As long as no reply, mount or timeout releases the link, however many passes there are and
  -- whatever else happens in them, the G-code queue keeps its lines and nothing but single bytes is
  -- written to the device: at most one command is in flight.
  pub run-StaysWaiting :
      (envs : List Env) (w : World Real)
      → StaysWaiting envs w
      → ((run envs w).core.shared.queue ≡ w.core.shared.queue)
        × (commands (run envs w).wire ≡ commands w.wire)
  unfolding run pass
  run-StaysWaiting [] w h = (refl, refl)
  run-StaysWaiting (e ∷ envs) w h =
      let task = usb_task-queue e.task_now e.events (with_shared (core1_tick w.core.shared) w) in
      let k = drive_waiting e (after_task e w) h.0 h.1 in
      let later = run-StaysWaiting envs (pass fl e w) h.2 in
      (later.0 ∙ k.queue_same ∙ task.0, later.1 ∙ k.commands_same ∙ ap commands task.1)
