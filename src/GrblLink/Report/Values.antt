-- ===== src/GrblLink/Report/Values.antt =====
-- `parse_csv_floats` on printed numbers.
use pico2w_grbl_bridge.Base.{
  ℕ, suc, ◌+◌, min, ◌≡◌, ◌≢◌, refl, sym, ap, ap₂, ◌∙◌, true, List, [], ◌∷◌, ◌++◌, map, arith,
  length, set, ltb, append_assoc, length-append, Bytes, codes,
}
use pico2w_grbl_bridge.CString.{tokens, mem_byte}
use pico2w_grbl_bridge.CString.Tokens.{Clean-append, Clean, tokens-cons, tokens_last}
use pico2w_grbl_bridge.Floats.{Floats}
use pico2w_grbl_bridge.GrblLink.Report.{csv_from, parse_csv_floats}
use pico2w_grbl_bridge.GrblLink.Report.Print.{csv, overlay}

-- the bytes that end a number or a field
abbrev pub stops : Bytes
stops = 0 ∷ b'|' ∷ []

-- What is relied on of `strtof` and the controller's numbers: a printed number is read back, is
-- not empty, and holds no NUL, comma or bar.
pub record IsPrinter (fl : Floats) (show : fl.Real → Bytes) : Type 0 where
  pub strtof-show : (x : fl.Real) → fl.strtof (show x) ≡ x
  pub show-ne_nil : (x : fl.Real) → show x ≢ []
  pub show_no_comma : (x : fl.Real) → Clean (codes ",") (show x)
  pub show_no_stop : (x : fl.Real) → Clean stops (show x)

pub length-overlay {ℓ} : {A : Type ℓ} (xs out : List A) → length (overlay xs out) ≡ length out
unfolding overlay
length-overlay [] out = refl
length-overlay (x ∷ xs) [] = refl
length-overlay (x ∷ xs) (o ∷ out) = ap suc (length-overlay xs out)

set-append {ℓ} :
    {A : Type ℓ} (pre out : List A) (o x : A)
    → set (pre ++ (o ∷ out)) (length pre) x ≡ (pre ++ (x ∷ [])) ++ out
set-append [] out o x = refl
set-append (p ∷ pre) out o x = ap (◌∷◌ p) (set-append pre out o x)

module _ (fl : Floats) (show : fl.Real → Bytes) (printer : IsPrinter fl show) where
  open fl use {Real, strtof}

  tokens-csv : (xs : List Real) → tokens (codes ",") (csv show xs) ≡ map show xs
  unfolding csv mem_byte
  tokens-csv [] = unfold tokens in refl
  tokens-csv (x ∷ []) =
      tokens_last (codes ",") (show x) (printer.show-ne_nil x) (printer.show_no_comma x)
  tokens-csv (x ∷ y ∷ xs) =
      tokens-cons (codes ",") (show x) (csv show (y ∷ xs)) b',' (printer.show-ne_nil x)
        (printer.show_no_comma x) refl
      ∙ ap (◌∷◌ (show x)) (tokens-csv (y ∷ xs))

  pub Clean-csv : (xs : List Real) → Clean stops (csv show xs)
  unfolding csv mem_byte
  Clean-csv [] = tt
  Clean-csv (x ∷ []) = printer.show_no_stop x
  Clean-csv (x ∷ y ∷ xs) =
      Clean-append stops (show x) (b',' ∷ csv show (y ∷ xs)) (printer.show_no_stop x)
        (refl, Clean-csv (y ∷ xs))

  csv_from-overlay :
      (xs pre out : List Real) (n m : ℕ)
      → length pre ≡ n
      → n + length out ≡ m
      → csv_from fl (map show xs) n m (pre ++ out)
        ≡ (n + min (length xs) (length out), pre ++ overlay xs out)
  unfolding csv_from overlay
  csv_from-overlay [] pre out n m p h =
      let count : n ≡ n + min 0 (length out) = omega arith in ap (λ k. (k, pre ++ out)) count
  csv_from-overlay (x ∷ xs) pre [] n m p h = ground arith
  csv_from-overlay (x ∷ xs) pre (o ∷ out) n m p h =
      let room : ltb n m ≡ true = ground arith in
      let stored : set (pre ++ (o ∷ out)) n (strtof (show x)) ≡ (pre ++ (x ∷ [])) ++ out =
        ap₂ (set (pre ++ (o ∷ out))) (sym p) (printer.strtof-show x) ∙ set-append pre out o x in
      let count : n + 1 + min (length xs) (length out)
          ≡ n + min (suc (length xs)) (suc (length out)) =
        omega arith in
      rw room (
        ap (csv_from fl (map show xs) (n + 1) m) stored
        ∙ csv_from-overlay xs (pre ++ (x ∷ [])) out (n + 1) m
            (omega (arith, length-append pre (x ∷ []))) (omega arith)
        ∙ ap₂ (λ k ys. (k, ys)) count (append_assoc pre (x ∷ []) (overlay xs out)))

  -- The numbers of a printed list, as many as the array has room for, overwrite its beginning.
  pub parse_csv_floats-csv :
      (xs out : List Real)
      → parse_csv_floats fl (csv show xs) out (length out)
        ≡ (min (length xs) (length out), overlay xs out)
  unfolding parse_csv_floats
  parse_csv_floats-csv xs out =
      ap (λ toks. csv_from fl toks 0 (length out) out) (tokens-csv xs)
      ∙ csv_from-overlay xs [] out 0 (length out) refl (omega arith)
      ∙ ap (λ k. (k, overlay xs out)) {y = min (length xs) (length out)} (omega arith)
