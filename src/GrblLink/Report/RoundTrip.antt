-- ===== src/GrblLink/Report/RoundTrip.antt =====
-- A printed status report is parsed into what its fields say.
use pico2w_grbl_bridge.Base.{
  append_assoc, ◌≤◌, ℕ, ◌≡◌, ◌≢◌, refl, sym, ap, ◌∙◌, List, [], ◌∷◌, ◌++◌, map, arith, length,
  append-nil, Bytes, codes,
}
use pico2w_grbl_bridge.CString.{strncpy, tokens, mem_byte}
use pico2w_grbl_bridge.CString.Laws.{strncpy_of_IsText, IsText-append, IsText}
use pico2w_grbl_bridge.CString.Tokens.{Clean, tokens-cons, tokens_last}
use mathlib.Core.Path.{subst}
use pico2w_grbl_bridge.GrblLink.Report.Says.{Says, HasSix, meanings-HasSix, publish-Says}
use pico2w_grbl_bridge.Floats.{Floats}
use pico2w_grbl_bridge.GrblLink.Report.{
  status_name, parse_tokens, assemble, publish, cache, no_fields, Core, parse_status_report, Fields,
  strip_gt, read_fields,
}
use pico2w_grbl_bridge.GrblLink.Report.Print.{
  print, Field, print_field, print_fields, meaning, meanings,
}
use pico2w_grbl_bridge.GrblLink.Report.Meaning.{
  Clean-print_field, meaning-HasAxes, assign-print_field, print_field-ne_nil, AllFields, HasAxes,
}
use pico2w_grbl_bridge.GrblLink.Report.Values.{stops, IsPrinter}

strip_gt-append : (s : Bytes) → strip_gt (s ++ (b'>' ∷ [])) ≡ s
unfolding strip_gt
strip_gt-append [] = refl
strip_gt-append (c ∷ []) = refl
strip_gt-append (c ∷ d ∷ s) = ap (◌∷◌ c) (strip_gt-append (d ∷ s))

pub Clean-IsText : (s : Bytes) → Clean stops s → IsText s
unfolding mem_byte
Clean-IsText [] h = tt
Clean-IsText (c ∷ s) h = (ground (arith, h.0), Clean-IsText s h.1)

Clean-bar : (s : Bytes) → Clean stops s → Clean (codes "|") s
unfolding mem_byte
Clean-bar [] h = tt
Clean-bar (c ∷ s) h = (ground (arith, h.0), Clean-bar s h.1)

module _ (fl : Floats) (show : fl.Real → Bytes) (printer : IsPrinter fl show) where
  open fl use {Real}

  read_fields-meanings :
      (fields : List (Field Real)) (f : Fields Real)
      → AllFields fields
      → HasAxes f
      → read_fields fl (map (print_field show) fields) f ≡ meanings fields f
  unfolding read_fields meanings
  read_fields-meanings [] f h a = refl
  read_fields-meanings (d ∷ fields) f h a =
      ap (read_fields fl (map (print_field show) fields))
        (assign-print_field fl show printer d f h.0 a)
      ∙ read_fields-meanings fields (meaning d f) h.1 (meaning-HasAxes d f a)

  tokens-print_fields :
      (t : Bytes) (fields : List (Field Real))
      → t ≢ []
      → Clean stops t
      → AllFields fields
      → tokens (codes "|") (t ++ print_fields show fields) ≡ t ∷ map (print_field show) fields
  unfolding print_fields mem_byte
  tokens-print_fields t [] ne c h =
      ap (tokens (codes "|")) (append-nil t) ∙ tokens_last (codes "|") t ne (Clean-bar t c)
  tokens-print_fields t (d ∷ fields) ne c h =
      tokens-cons (codes "|") t (print_field show d ++ print_fields show fields) b'|' ne
        (Clean-bar t c) refl
      ∙ ap (◌∷◌ t) (
          tokens-print_fields (print_field show d) fields (print_field-ne_nil fl show printer d)
            (Clean-print_field fl show printer d h.0) h.1)

  print_fields-IsText :
      (fields : List (Field Real)) → AllFields fields → IsText (print_fields show fields)
  unfolding print_fields
  print_fields-IsText [] h = tt
  print_fields-IsText (d ∷ fields) h = (
    omega arith,
    IsText-append (print_field show d) (print_fields show fields)
        (Clean-IsText (print_field show d) (Clean-print_field fl show printer d h.0))
        (print_fields-IsText fields h.1),
  )

  -- The parser reaches its end with the fields' meanings.
  pub parse_status_report-publish :
      (word : Bytes) (fields : List (Field Real)) (now : ℕ) (c : Core Real)
      → Clean stops word
      → AllFields fields
      → length (print show word fields) ≤ 255
      → parse_status_report fl (print show word fields) now c ≡ (
          let f = meanings fields (no_fields fl) in
          let l = cache fl f c.link in
          publish fl
            (print show word fields)
            (assemble fl (strncpy 15 word) f l)
            now
            (record c { link = l }))
  unfolding parse_status_report mem_byte
  parse_status_report-publish word fields now c clean ok fits =
      ap (λ t. parse_tokens fl (tokens (codes "|") (strip_gt t)) raw now c)
        (strncpy_of_IsText 255 raw text fits)
      ∙ ap (λ t. parse_tokens fl (tokens (codes "|") t) raw now c) stripped
      ∙ ap (λ toks. parse_tokens fl toks raw now c)
          (tokens-print_fields (b'<' ∷ word) fields (λ e. cc) (refl, clean) ok)
      ∙ parsed
    where
      raw : Bytes
      raw = print show word fields

      text : IsText raw
      text =
          unfold print in
          (
            omega arith,
            IsText-append word (print_fields show fields ++ (b'>' ∷ [])) (Clean-IsText word clean) (
                IsText-append (print_fields show fields) (b'>' ∷ []) (print_fields-IsText fields ok)
                  (omega arith)),
          )

      stripped : strip_gt raw ≡ b'<' ∷ (word ++ print_fields show fields)
      stripped =
          unfold print in
          ap (λ t. strip_gt (b'<' ∷ t))
            (sym (append_assoc word (print_fields show fields) (b'>' ∷ [])))
          ∙ strip_gt-append (b'<' ∷ (word ++ print_fields show fields))

      parsed : parse_tokens fl ((b'<' ∷ word) ∷ map (print_field show) fields) raw now c ≡ (
          let f = meanings fields (no_fields fl) in
          let l = cache fl f c.link in
          publish fl raw (assemble fl (strncpy 15 word) f l) now (record c { link = l }))
      parsed =
          unfold parse_tokens status_name in
          ap
            (λ f.
              publish fl raw (assemble fl (strncpy 15 word) f (cache fl f c.link)) now
                (record c { link = cache fl f c.link }))
            (read_fields-meanings fields (no_fields fl) ok (refl, refl, refl))

  -- A report `<word|key:value|…>` of at most 255 bytes, whatever fields it has and in whatever order,
  -- is parsed into what its fields say: the machine state has the status word, the positions, the
  -- feed and the speed, the rotary axes and the coordinate system of the report, the work position
  -- taken from the newest offset where the report has none; the newest offset and coordinate system
  -- are kept for the next report; the report goes to the filtered log if the status word changed or a
  -- log line was due, and the rest of the shared state, the alarm with it, is as before. (The numbers are
  -- printed so that `strtof` reads them back, without comma, bar and NUL; no other text holds a
  -- bar or a NUL; the offset kept from before has at most the six axes of its array.)
  pub parse_status_report-print :
      (word : Bytes) (fields : List (Field Real)) (now : ℕ) (c : Core Real)
      → Clean stops word
      → AllFields fields
      → length (print show word fields) ≤ 255
      → c.link.last_wco_count ≤ 6
      → Says fl
          (print show word fields)
          word
          (meanings fields (no_fields fl))
          now
          c
          (parse_status_report fl (print show word fields) now c)
  parse_status_report-print word fields now c clean ok fits six =
      let raw : Bytes = print show word fields in
      let f : Fields Real = meanings fields (no_fields fl) in
      let none_yet : HasSix fl (no_fields fl) = omega arith in
      subst (Says fl raw word f now c)
        (sym (parse_status_report-publish word fields now c clean ok fits))
        (publish-Says fl raw word f now c (meanings-HasSix fl fields (no_fields fl) none_yet) six)
