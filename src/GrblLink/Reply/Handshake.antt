-- ===== src/GrblLink/Reply/Handshake.antt =====
-- What a received line does to the handshake, the banner and the queue.
use pico2w_grbl_bridge.Base.{
  inl, inr, Bool-cases, ◌++◌, ℕ, ◌≡◌, refl, Bool, true, false, not, ◌&&◌, ◌||◌, List, [], ◌∷◌,
  arith, if◌then◌else◌, Bytes, codes,
}
use pico2w_grbl_bridge.CString.{strncpy, str_eq, starts_with}
use pico2w_grbl_bridge.Floats.{Floats}
use pico2w_grbl_bridge.SharedState.Machine.{set_status, set_alarm}
use pico2w_grbl_bridge.SharedState.Shared.{console_push, filtered_push}
use pico2w_grbl_bridge.GrblLink.State.{Link, Core}
use pico2w_grbl_bridge.GrblLink.Report.{parse_tokens, parse_status_report}
use pico2w_grbl_bridge.GrblLink.Reply.{answer, on_line, is_report, gc_words, parse_gc_wcs}

-- The lines after which the link may send again: a plain "ok", an error, the startup banner.
abbrev pub releases : Bytes → Bool
releases line =
    str_eq line (codes "ok")
    || (starts_with line (codes "error:") || starts_with line (codes "Grbl"))

-- The lines that show up in the banner.
abbrev pub alarms : Bytes → Bool
alarms line = starts_with line (codes "error:") || starts_with line (codes "ALARM:")

module _ (fl : Floats) where
  open fl use {Real}

  -- What a status report leaves alone.
  pub record Untouched (c d : Core Real) : Type 0 where
    pub waiting_same : d.link.waiting_ok ≡ c.link.waiting_ok
    pub deadline_same : d.link.waiting_deadline ≡ c.link.waiting_deadline
    pub query_same : d.link.need_g_query ≡ c.link.need_g_query
    pub alarm_same : d.shared.machine.alarm ≡ c.shared.machine.alarm
    pub queue_same : d.shared.queue ≡ c.shared.queue
    pub realtime_same : d.shared.realtime ≡ c.shared.realtime

  parse_tokens-Untouched :
      (toks : List Bytes) (raw : Bytes) (now : ℕ) (c : Core Real)
      → Untouched c (parse_tokens fl toks raw now c)
  unfolding parse_tokens set_status
  parse_tokens-Untouched [] raw now c = ground arith
  parse_tokens-Untouched (tok ∷ toks) raw now c = ground arith

  pub parse_status_report-Untouched :
      (raw : Bytes) (now : ℕ) (c : Core Real) → Untouched c (parse_status_report fl raw now c)
  unfolding parse_status_report
  parse_status_report-Untouched raw now c = parse_tokens-Untouched _ raw now c

module _ {F : Type 0} where
  pub record SameHandshake (l m : Link F) : Type 0 where
    pub waiting_same : m.waiting_ok ≡ l.waiting_ok
    pub deadline_same : m.waiting_deadline ≡ l.waiting_deadline
    pub query_same : m.need_g_query ≡ l.need_g_query

  gc_words-SameHandshake : (toks : List Bytes) (l : Link F) → SameHandshake l (gc_words toks l)
  unfolding gc_words
  gc_words-SameHandshake [] l = ground arith
  gc_words-SameHandshake (tok ∷ toks) l = ground (arith, gc_words-SameHandshake toks l)

  pub parse_gc_wcs-SameHandshake :
      (line : Bytes) (l : Link F) → SameHandshake l (parse_gc_wcs line l)
  unfolding parse_gc_wcs
  parse_gc_wcs-SameHandshake line l = gc_words-SameHandshake _ l

starts_with-append : (s p q : Bytes) → starts_with s (p ++ q) ≡ true → starts_with s p ≡ true
unfolding starts_with
starts_with-append s [] q h = refl
starts_with-append [] (c ∷ p) q h = cc
starts_with-append (d ∷ s) (c ∷ p) q h = ground (arith, starts_with-append s p q)

-- A line that starts with "GrblHAL" starts with "Grbl".
starts_with_banner :
    (line : Bytes)
    → (starts_with line (codes "Grbl") || starts_with line (codes "GrblHAL"))
      ≡ starts_with line (codes "Grbl")
starts_with_banner line = ground (arith, starts_with-append line (codes "Grbl") (codes "HAL"))

-- A status report neither releases the link nor raises an alarm.
report_quiet :
    (line : Bytes) → is_report line ≡ true → (releases line ≡ false) × (alarms line ≡ false)
unfolding str_eq starts_with
report_quiet [] h = cc
report_quiet (c ∷ s) h = ground arith

ok_alone : (line : Bytes) → str_eq line (codes "ok") ≡ true → alarms line ≡ false
unfolding str_eq starts_with
ok_alone [] h = refl
ok_alone (c ∷ s) h = ground arith

alarm_alone :
    (line : Bytes)
    → starts_with line (codes "ALARM:") ≡ true
    → (starts_with line (codes "Grbl") ≡ false) × (starts_with line (codes "error:") ≡ false)
unfolding starts_with
alarm_alone [] h = cc
alarm_alone (c ∷ s) h = ground arith

answer-effect :
    {F : Type 0} (line : Bytes) (c : Core F)
    → (let d = answer line c in
        (d.link.waiting_ok ≡ (c.link.waiting_ok && not (releases line)))
        × (d.shared.machine.alarm
            ≡ (if alarms line then strncpy 79 line else c.shared.machine.alarm))
        × (d.shared.queue ≡ c.shared.queue)
        × (d.shared.realtime ≡ c.shared.realtime)
        × (d.link.waiting_deadline ≡ c.link.waiting_deadline))
unfolding answer set_alarm
answer-effect line c = ground (arith, starts_with_banner line, ok_alone line, alarm_alone line)

module _ (fl : Floats) where
  open fl use {Real}

  -- Whatever line is received, at whatever time: the link stops waiting exactly if the line is
  -- "ok", or begins with "error:" or "Grbl"; the banner becomes the line, cut to 79 bytes, exactly
  -- if it begins with "error:" or "ALARM:"; and the G-code queue, the pending realtime requests and
  -- the deadline stay as they are.
  pub on_line-effect :
      (now : ℕ) (line : Bytes) (c : Core Real)
      → (let d = on_line fl now line c in
          (d.link.waiting_ok ≡ (c.link.waiting_ok && not (releases line)))
          × (d.shared.machine.alarm
              ≡ (if alarms line then strncpy 79 line else c.shared.machine.alarm))
          × (d.shared.queue ≡ c.shared.queue)
          × (d.shared.realtime ≡ c.shared.realtime)
          × (d.link.waiting_deadline ≡ c.link.waiting_deadline))
  unfolding on_line
  on_line-effect now line c =
      let pushed : Core Real = record c { shared = console_push line c.shared } in
      let seeded : Core Real = record pushed { shared = filtered_push line pushed.shared } in
      elim (Bool-cases (is_report line)) [
        | inl report ↦ rw report (
            ground
              (arith, report_quiet line report, parse_status_report-Untouched fl line now pushed))
        | inr other ↦ rw other (
            ground (
              arith,
              answer-effect line seeded,
              answer-effect line (record seeded { link = parse_gc_wcs line seeded.link }),
              parse_gc_wcs-SameHandshake line seeded.link,
            ))
      ]
