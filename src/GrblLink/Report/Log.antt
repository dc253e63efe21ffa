-- ===== src/GrblLink/Report/Log.antt =====
-- What a run of status reports leaves in the filtered log.
use pico2w_grbl_bridge.Base.{
  ℕ, ◌≤◌, ◌≡◌, refl, sym, ap, ◌∙◌, Bool, true, false, not, ◌&&◌, List, [], ◌∷◌, arith, length,
  if◌then◌else◌, Bytes,
}
use mathlib.Core.Path.{subst}
use pico2w_grbl_bridge.CString.{strncpy, str_eq}
use pico2w_grbl_bridge.CString.Laws.{strncpy_of_IsText}
use pico2w_grbl_bridge.CString.Tokens.{Clean}
use pico2w_grbl_bridge.Floats.{Floats}
use pico2w_grbl_bridge.SharedState.Filtered
use pico2w_grbl_bridge.SharedState.Filtered.{Filtered}
use pico2w_grbl_bridge.SharedState.Filtered.History.{push_all}
use pico2w_grbl_bridge.GrblLink.State.{Core, Link}
use pico2w_grbl_bridge.GrblLink.Report.{
  is_nil, parse_status_report, publish, assemble, cache, no_fields, Fields,
}
use pico2w_grbl_bridge.GrblLink.Report.Print.{Field, print, meanings}
use pico2w_grbl_bridge.GrblLink.Report.Meaning.{AllFields}
use pico2w_grbl_bridge.GrblLink.Report.Values.{stops, IsPrinter}
use pico2w_grbl_bridge.GrblLink.Report.RoundTrip.{Clean-IsText, parse_status_report-publish}

-- a report, and when it is parsed
pub record Reported (F : Type 0) : Type 0 where
  pub word : Bytes
  pub fields : List (Field F)
  pub time : ℕ

push_all-if :
    (b : Bool) (log : Filtered) (line : Bytes) (lines : List Bytes)
    → push_all (if b then Filtered.push log line else log) lines
      ≡ push_all log (if b then line ∷ lines else lines)
unfolding push_all
push_all-if true log line lines = refl
push_all-if false log line lines = refl

module _ (fl : Floats) (show : fl.Real → Bytes) where
  open fl use {Real}

  abbrev pub raw : Reported Real → Bytes
  raw r = print show r.word r.fields

  unfoldable pub run : List (Reported Real) → Core Real → Core Real
  run [] c = c
  run (r ∷ reports) c = run reports (parse_status_report fl (raw r) r.time c)

  -- The reports whose status word is another than that of the report before, `last` being the word
  -- before the first one; an empty word is none.
  unfoldable pub changes : Bytes → List (Reported Real) → List Bytes
  changes last [] = []
  changes last (r ∷ reports) =
      let rest = changes r.word reports in
      if not (is_nil last) && not (str_eq last r.word) then raw r ∷ rest else rest

  -- Each report fits the parser's buffer and its word fits its own.
  abbrev pub AllReadable : List (Reported Real) → Type 0
  AllReadable [] = Unit
  AllReadable (r ∷ reports) =
      Clean stops r.word
      × AllFields r.fields
      × (length (raw r) ≤ 255)
      × (length r.word ≤ 15)
      × AllReadable reports

  -- What one report does to the log and to what is remembered for the next.
  record Logged (r : Reported Real) (c d : Core Real) : Type 0 where
    not_forced : d.link.force_next_status_log ≡ false
    remembered : d.link.last_status_word ≡ r.word
    filtered_is : d.shared.filtered ≡ (
        if not (is_nil c.link.last_status_word) && not (str_eq c.link.last_status_word r.word)
        then Filtered.push c.shared.filtered (raw r)
        else c.shared.filtered)

  publish-Logged :
      (r : Reported Real) (f : Fields Real) (l : Link Real) (c : Core Real)
      → strncpy 15 r.word ≡ r.word
      → c.link.force_next_status_log ≡ false
      → Logged r c (
          publish fl
            (raw r)
            (assemble fl (strncpy 15 r.word) f l)
            r.time
            (record c { link = cache fl f c.link }))
  unfolding publish assemble cache
  publish-Logged r f l c fits calm = ground (arith, fits)

  module _ (printer : IsPrinter fl show) where
    parse-Logged :
        (r : Reported Real) (c : Core Real)
        → Clean stops r.word
        → AllFields r.fields
        → length (raw r) ≤ 255
        → length r.word ≤ 15
        → c.link.force_next_status_log ≡ false
        → Logged r c (parse_status_report fl (raw r) r.time c)
    parse-Logged r c clean ok fits short calm =
        let f = meanings r.fields (no_fields fl) in
        subst (Logged r c)
          (sym (parse_status_report-publish fl show printer r.word r.fields r.time c clean ok fits))
          (publish-Logged r f (cache fl f c.link) c
            (strncpy_of_IsText 15 r.word (Clean-IsText r.word clean) short) calm)

    -- A run of status reports, when no log line is due to a command, adds to the filtered log
    -- exactly the reports whose status word differs from that of the report before, in order and as
    -- received. (Reports have at most 255 bytes, their words at most 15, and numbers and texts are
    -- as for a single report's parse.)
    pub filtered-run :
        (reports : List (Reported Real)) (c : Core Real)
        → AllReadable reports
        → c.link.force_next_status_log ≡ false
        → (run reports c).shared.filtered
          ≡ push_all c.shared.filtered (changes c.link.last_status_word reports)
    unfolding run changes push_all
    filtered-run [] c h calm = refl
    filtered-run (r ∷ reports) c h calm =
        let d : Core Real = parse_status_report fl (raw r) r.time c in
        let s = parse-Logged r c h.0 h.1 h.2 h.3 calm in
        filtered-run reports d h.4 s.not_forced
        ∙ ap (λ word. push_all d.shared.filtered (changes word reports)) s.remembered
        ∙ ap (λ log. push_all log (changes r.word reports)) s.filtered_is
        ∙ push_all-if
            (not (is_nil c.link.last_status_word) && not (str_eq c.link.last_status_word r.word))
            c.shared.filtered (raw r) (changes r.word reports)
