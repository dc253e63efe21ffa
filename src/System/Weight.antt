-- ===== src/System/Weight.antt =====
-- What the steps do to the realtime requests and to the writes of their bytes.
use pico2w_grbl_bridge.Base.{
  ℕ, ◌+◌, ◌≤◌, ◌≡◌, refl, ap, ◌∙◌, Bool, true, false, Option, none, some, List, [], ◌∷◌, ◌++◌,
  arith, ◌==◌, if◌then◌else◌, Bytes,
}
use pico2w_grbl_bridge.Floats.{Floats}
use pico2w_grbl_bridge.SharedState.Realtime
use pico2w_grbl_bridge.SharedState.Queue
use pico2w_grbl_bridge.SharedState.Realtime.{Realtime}
use pico2w_grbl_bridge.GrblLink.State.{Core}
use pico2w_grbl_bridge.GrblLink.Reply.{on_line, on_mount}
use pico2w_grbl_bridge.GrblLink.Reply.Handshake.{on_line-effect}
use pico2w_grbl_bridge.UsbHost.{is_mounted, write, cdc_mount_cb, cdc_umount_cb}
use pico2w_grbl_bridge.UsbHost.Callbacks.{cdc_rx_cb_inv}
use pico2w_grbl_bridge.GrblLink.Pass.{
  Env, UsbEvent, mount, umount, rx, World, send, send_realtime, send_popped, with_shared, remind,
  serve_realtime, poll_status, check_timeout, query_parser_state, send_line, run_event,
}
use pico2w_grbl_bridge.GrblLink.Pass.InFlight.{run_event-queue}
use pico2w_grbl_bridge.System.{
  Op, Part, reminder, realtime, poll, timeout, query, line, call, run_part,
}

-- the requests of /api/hold, /api/resume and /api/reset
pub data Kind : Type 0 where
  hold : Kind
  resume : Kind
  reset : Kind

abbrev pub byte_of : Kind → ℕ
byte_of hold = b'!'
byte_of resume = b'~'
byte_of reset = 0x18

abbrev pub is_pending : Kind → Realtime → Bool
is_pending hold r = r.hold
is_pending resume r = r.resume
is_pending reset r = r.reset

abbrev pub one_if : Bool → ℕ
one_if b = if b then 1 else 0

abbrev is_only : ℕ → Bytes → Bool
is_only c [] = false
is_only c (d ∷ []) = c == d
is_only c (d ∷ b ∷ s) = false

-- how often a byte was written, by itself
unfoldable pub times : ℕ → List Bytes → ℕ
times c [] = 0
times c (bytes ∷ wire) = one_if (is_only c bytes) + times c wire

times-concat :
    (c : ℕ) (wire : List Bytes) (bytes : Bytes)
    → times c (wire ++ (bytes ∷ [])) ≡ times c wire + one_if (is_only c bytes)
unfolding times
times-concat c [] bytes = omega arith
times-concat c (b ∷ wire) bytes = omega (arith, times-concat c wire bytes)

-- whether it is this request that was taken
abbrev taken : Kind → Option ℕ → ℕ
taken k none = 0
taken k (some rt) = one_if (byte_of k == rt)

-- A request is pending until it is taken.
take-taken :
    (k : Kind) (r : Realtime)
    → (let (o, r') = Realtime.take r in
        one_if (is_pending k r) ≤ taken k o + one_if (is_pending k r'))
unfolding Realtime.take
take-taken hold r = ground arith
take-taken resume r = ground arith
take-taken reset r = ground arith

-- A part does not serve a request.
abbrev pub Unserved : Part → Bool → Type 0
Unserved realtime mounted = mounted ≡ false
Unserved _ mounted = Unit

module _ {F : Type 0} where
  -- how often the byte was written, and once more for a request that is pending
  abbrev pub weight : Kind → World F → ℕ
  weight k w = times (byte_of k) w.wire + one_if (is_pending k w.core.shared.realtime)

  -- Writes keep the weight or add to it.
  pub record Quiet (v w : World F) : Type 0 where
    pub realtime_same : w.core.shared.realtime ≡ v.core.shared.realtime
    pub wire_grows : (c : ℕ) → times c v.wire ≤ times c w.wire

  pub Quiet-weight : (k : Kind) (v w : World F) → Quiet v w → weight k v ≤ weight k w
  Quiet-weight k v w q =
      omega (arith, q.wire_grows (byte_of k), ap (λ r. one_if (is_pending k r)) q.realtime_same)

  remind-Quiet : (e : Env) (m : Bool) (w : World F) → Quiet w (remind e m w)
  unfolding remind
  remind-Quiet e m w = ground arith

  send_grows :
      (e : Env) (n : ℕ) (bytes : Bytes) (w : World F) (c : ℕ)
      → times c w.wire ≤ times c (send e n bytes w).wire
  send_grows e n bytes w c =
      omega (arith, times-concat c w.wire (write w.usb e.cdc_mounted n bytes).1)

  poll_status-Quiet : (e : Env) (m : Bool) (w : World F) → Quiet w (poll_status e m w)
  unfolding poll_status
  poll_status-Quiet e m w = ground (arith, send_grows e e.poll_written (b'?' ∷ []) w)

  check_timeout-Quiet : (e : Env) (w : World F) → Quiet w (check_timeout e w)
  unfolding check_timeout
  check_timeout-Quiet e w = ground arith

  query-Quiet : (e : Env) (m : Bool) (w : World F) → Quiet w (query_parser_state e m w)
  unfolding query_parser_state
  query-Quiet e m w = ground (arith, send_grows e e.g_written (b'$' ∷ b'G' ∷ b'\n' ∷ []) w)

  send_popped-Quiet : (e : Env) (o : Option Bytes) (w : World F) → Quiet w (send_popped e o w)
  send_popped-Quiet e none w = ground arith
  send_popped-Quiet e (some text) w =
      ground (arith, send_grows e e.line_written (text ++ (b'\n' ∷ [])) w)

  send_line-Quiet : (e : Env) (m : Bool) (w : World F) → Quiet w (send_line e m w)
  unfolding send_line
  send_line-Quiet e m w =
      let (popped, queue') = Queue.pop w.core.shared.queue 96 in
      ground (
        arith,
        send_popped-Quiet e popped (with_shared (record w.core.shared { queue = queue' }) w),
      )

  pub call-weight :
      (k : Kind) (op : Op) (w : World F)
      → weight k w ≤ weight k (with_shared (call op w.core.shared) w)
  unfolding call Realtime.request
  call-weight hold op w = ground arith
  call-weight resume op w = ground arith
  call-weight reset op w = ground arith

  send_realtime-times :
      (k : Kind) (e : Env) (o : Option ℕ) (w : World F)
      → is_mounted w.usb e.cdc_mounted ≡ true
      → e.rt_written ≡ 1
      → times (byte_of k) (send_realtime e o w).wire ≡ times (byte_of k) w.wire + taken k o
  unfolding write
  send_realtime-times k e none w m one = omega arith
  send_realtime-times k e (some rt) w m one =
      rw (m, one) (times-concat (byte_of k) w.wire (rt ∷ []))

  send_realtime-same :
      (e : Env) (o : Option ℕ) (w : World F)
      → (send_realtime e o w).core.shared.realtime ≡ w.core.shared.realtime
  send_realtime-same e none w = refl
  send_realtime-same e (some rt) w = refl

  -- A request that is served is written.
  pub serve-weight :
      (k : Kind) (e : Env) (w : World F)
      → is_mounted w.usb e.cdc_mounted ≡ true
      → e.rt_written ≡ 1
      → weight k w ≤ weight k (serve_realtime e true w)
  unfolding serve_realtime
  serve-weight k e w m one =
      let (o, r') = Realtime.take w.core.shared.realtime in
      let u : World F = with_shared (record w.core.shared { realtime = r' }) w in
      omega (
        arith,
        take-taken k w.core.shared.realtime,
        send_realtime-times k e o u m one,
        ap (λ r. one_if (is_pending k r)) (send_realtime-same e o u),
      )

  pub part-Quiet :
      (part : Part) (e : Env) (m : Bool) (w : World F)
      → Unserved part m
      → Quiet w (run_part part e m w)
  unfolding run_part serve_realtime
  part-Quiet reminder e m w u = remind-Quiet e m w
  part-Quiet realtime e m w u = rw u (ground arith)
  part-Quiet poll e m w u = poll_status-Quiet e m w
  part-Quiet timeout e m w u = check_timeout-Quiet e w
  part-Quiet query e m w u = query-Quiet e m w
  part-Quiet line e m w u = send_line-Quiet e m w

module _ (fl : Floats) where
  open fl use {Real}

  event-realtime :
      (now : ℕ) (event : UsbEvent) (w : World Real)
      → (run_event fl now event w).core.shared.realtime ≡ w.core.shared.realtime
  unfolding cdc_mount_cb cdc_umount_cb on_mount
  event-realtime now (mount idx) w = ground arith
  event-realtime now (umount idx) w = ground arith
  event-realtime now (rx idx reads) w =
      cdc_rx_cb_inv (λ (c : Core Real). c.shared.realtime ≡ w.core.shared.realtime) (on_line fl now)
        (λ text c same. (on_line-effect fl now text c).3 ∙ same) idx reads w.usb w.core refl

  pub event-Quiet :
      (now : ℕ) (event : UsbEvent) (w : World Real) → Quiet w (run_event fl now event w)
  event-Quiet now event w = record {
    realtime_same = event-realtime now event w;
    wire_grows = λ c. omega (arith, ap (times c) (run_event-queue fl now event w).1);
  }
