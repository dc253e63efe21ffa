-- ===== src/GrblLink/Pass/Progress.antt =====
-- What an idle link, or one whose reply is overdue, does with the next line of the queue.
use pico2w_grbl_bridge.Base.{
  ◌≤◌, ◌+◌, ◌*◌, ◌≡◌, sym, ap, ◌∙◌, true, false, Option, some, [], ◌∷◌, ◌++◌, arith, length,
  length-append, take_all, Bytes,
}
use mathlib.Core.Path.{subst}
use pico2w_grbl_bridge.SharedState.Queue
use pico2w_grbl_bridge.SharedState.Queue.{Queue}
use pico2w_grbl_bridge.UsbHost.{is_mounted, write}
use pico2w_grbl_bridge.GrblLink.Pass.{
  Env, World, send, check_timeout, query_parser_state, send_line, drive,
}
use pico2w_grbl_bridge.GrblLink.Pass.InFlight.{Kept, before_timeout, before_timeout-Kept}

module _ {F : Type 0} where
  -- The link may send: the device is there, nothing is in flight, the `$G` query is not due.
  pub record IsIdle (e : Env) (w : World F) : Type 0 where
    pub mounted : is_mounted w.usb e.cdc_mounted ≡ true
    pub free : w.core.link.waiting_ok ≡ false
    pub no_query : w.core.link.need_g_query ≡ false

  later_stages_idle :
      (e : Env) (w : World F)
      → w.core.link.waiting_ok ≡ false
      → w.core.link.need_g_query ≡ false
      → send_line e true (query_parser_state e true (check_timeout e w)) ≡ send_line e true w
  unfolding check_timeout query_parser_state
  later_stages_idle e w free no_query = ground arith

  pub drive_idle :
      (e : Env) (w : World F) → IsIdle e w → drive e w ≡ send_line e true (before_timeout e w)
  unfolding drive
  drive_idle e w i =
      let k = before_timeout-Kept e w in
      ap
        (λ mounted.
          send_line e mounted (query_parser_state e mounted (check_timeout e (before_timeout e w))))
        i.mounted
      ∙ later_stages_idle e (before_timeout e w) (k.waiting_same ∙ i.free)
          (k.query_same ∙ i.no_query)

  -- What became of a line that was popped, `v` being the world before.
  pub record Sent (e : Env) (line : Bytes) (q : Queue) (v w : World F) : Type 0 where
    pub on_wire : w.wire ≡ v.wire ++ ((line ++ (b'\n' ∷ [])) ∷ [])
    pub queue_rest : w.core.shared.queue ≡ q
    pub in_flight : w.core.link.waiting_ok ≡ true
    pub deadline : w.core.link.waiting_deadline ≡ e.line_now + 30000 * 1000

  pub record Lost (q : Queue) (v w : World F) : Type 0 where
    pub queue_rest : w.core.shared.queue ≡ q
    pub console_same : w.core.shared.console ≡ v.core.shared.console
    pub filtered_same : w.core.shared.filtered ≡ v.core.shared.filtered
    pub not_in_flight : w.core.link.waiting_ok ≡ false

  module _ (e : Env) (v : World F) (line : Bytes) (q : Queue)
      (mounted : is_mounted v.usb e.cdc_mounted ≡ true) (free : v.core.link.waiting_ok ≡ false)
      (next : Queue.pop v.core.shared.queue 96 ≡ (some line, q)) where
    pub send_line-Sent : e.line_written ≡ length line + 1 → Sent e line q v (send_line e true v)
    unfolding send_line send write
    send_line-Sent whole = ground (
      arith,
      ap (λ (r : Option Bytes × Queue). r.0) next,
      ap (λ (r : Option Bytes × Queue). r.1) next,
      length-append line (b'\n' ∷ []),
      take_all e.line_written (line ++ (b'\n' ∷ [])),
    )

  module _ (e : Env) (w : World F) (line : Bytes) (q : Queue) (i : IsIdle e w)
      (next : Queue.pop w.core.shared.queue 96 ≡ (some line, q)) where
    next_kept : Queue.pop (before_timeout e w).core.shared.queue 96 ≡ (some line, q)
    next_kept = ap (λ k. Queue.pop k 96) (before_timeout-Kept e w).queue_same ∙ next

    k : Kept w (before_timeout e w)
    k = before_timeout-Kept e w

    still_mounted : is_mounted (before_timeout e w).usb e.cdc_mounted ≡ true
    still_mounted = ap (λ u. is_mounted u e.cdc_mounted) k.usb_same ∙ i.mounted

    -- An idle link sends the next line of the queue, with a newline, in this very pass, if the
    -- device takes it whole: the line leaves the queue, is in flight, and has 30 s for its reply.
    pub drive-Sent :
        e.line_written ≡ length line + 1 → Sent e line q (before_timeout e w) (drive e w)
    drive-Sent whole = subst (Sent e line q (before_timeout e w)) (sym (drive_idle e w i)) (
        send_line-Sent e (before_timeout e w) line q still_mounted (k.waiting_same ∙ i.free)
          next_kept whole)

  module _ (e : Env) (w : World F) where
    -- The link waits for a reply whose deadline has passed; the device is there and no `$G` query is
    -- due.
    pub record IsExpired : Type 0 where
      pub mounted : is_mounted w.usb e.cdc_mounted ≡ true
      pub waiting : w.core.link.waiting_ok ≡ true
      pub no_query : w.core.link.need_g_query ≡ false
      pub late : w.core.link.waiting_deadline ≤ e.wait_now

    -- the world behind the timeout
    abbrev pub behind_timeout : World F
    behind_timeout = check_timeout e (before_timeout e w)

    record Released : Type 0 where
      free : behind_timeout.core.link.waiting_ok ≡ false
      no_query : behind_timeout.core.link.need_g_query ≡ false
      queue_same : behind_timeout.core.shared.queue ≡ w.core.shared.queue
      usb_same : behind_timeout.usb ≡ w.usb

    expired-Released : IsExpired → Released
    unfolding check_timeout
    expired-Released x = ground (arith, x, before_timeout-Kept e w)

    query_not_due : Released → query_parser_state e true behind_timeout ≡ behind_timeout
    unfolding query_parser_state
    query_not_due r = ground (arith, r)

    drive_expired : IsExpired → drive e w ≡ send_line e true behind_timeout
    unfolding drive
    drive_expired x =
        ap (λ mounted. send_line e mounted (query_parser_state e mounted behind_timeout)) x.mounted
        ∙ ap (send_line e true) (query_not_due (expired-Released x))

    -- When the link still waits, behind the USB callbacks of a pass, for a reply whose deadline has
    -- passed, the device is there and no `$G` query is due, the rest of the pass sends the next line
    -- of the queue, if the device takes it whole, and that line has 30 s of its own.
    pub drive-Expired :
        (line : Bytes) (q : Queue)
        → IsExpired
        → Queue.pop w.core.shared.queue 96 ≡ (some line, q)
        → e.line_written ≡ length line + 1
        → Sent e line q behind_timeout (drive e w)
    drive-Expired line q x next whole =
        let r = expired-Released x in
        subst (Sent e line q behind_timeout) (sym (drive_expired x)) (
          send_line-Sent e behind_timeout line q
            (ap (λ u. is_mounted u e.cdc_mounted) r.usb_same ∙ x.mounted) r.free
            (ap (λ k. Queue.pop k 96) r.queue_same ∙ next) whole)
