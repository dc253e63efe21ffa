-- ===== src/GrblLink/Reply/Other.antt =====
-- The words of a `$G` reply that name no coordinate system.
use pico2w_grbl_bridge.Base.{
  ℕ, zero, suc, ◌+◌, ◌/◌, ◌%◌, ◌<◌, ◌≡◌, ◌≢◌, refl, ap, ◌∙◌, true, false, ◌||◌, [], ◌∷◌, ◌++◌,
  arith, Bytes, ltb, codes, sym, Bool-cases, inl, inr,
}
use pico2w_grbl_bridge.CString.{is_digit, digits_from, skip_space, strtol}
use pico2w_grbl_bridge.CString.Decimal.{decimal, decimal_from}
use pico2w_grbl_bridge.CString.Decimal.Digits.{digits_from-decimal}
use pico2w_grbl_bridge.CString.Tokens.{Clean}
use pico2w_grbl_bridge.GrblLink.Reply.{is_wcs_word}

-- A word that begins with another letter than 'G', or 'G', a number and what is behind it.
pub data Word : Type 0 where
  letter : ℕ → Bytes → Word
  g_word : ℕ → Bytes → Word

abbrev pub text_of : Word → Bytes
text_of (letter c s) = c ∷ s
text_of (g_word n tail) = b'G' ∷ (decimal n ++ tail)

abbrev NoDigit : Bytes → Type 0
NoDigit [] = Unit
NoDigit (c ∷ s) = is_digit c ≡ false

-- The coordinate systems are G54 to G59, and G59.1 to G59.3.
abbrev pub NamesNone : Word → Type 0
NamesNone (letter c s) = c ≢ b'G'
NamesNone (g_word n tail) = ((ltb n 54 || ltb 59 n) ≡ true) × NoDigit tail

pub record IsOther (word : Word) : Type 0 where
  pub names_none : NamesNone word
  pub clean : Clean (codes " []") (text_of word)
  pub no_colon : Clean (codes ":") (text_of word)

-- The first digit.
decimal_from-first :
    (fuel n : ℕ)
    → n < fuel
    → (c : ℕ) × (s : Bytes) × (decimal_from fuel n ≡ c ∷ s) × (is_digit c ≡ true)
unfolding decimal_from
decimal_from-first zero n h = absurd (omega arith)
decimal_from-first (suc fuel) n h = elim (Bool-cases (ltb n 10)) [
  | inl one ↦ (b'0' + n, [], rw one refl, ground arith)
  | inr more ↦
      let (c, s, e, d) = decimal_from-first fuel (n / 10) (ground arith) in
      (c, s ++ ((b'0' + n % 10) ∷ []), rw more (ap (λ t. t ++ ((b'0' + n % 10) ∷ [])) e), d)
]

digits_from-stop : (n : ℕ) (tail : Bytes) → NoDigit tail → digits_from n tail ≡ (n, tail)
unfolding digits_from
digits_from-stop n [] h = refl
digits_from-stop n (c ∷ s) h = rw h refl

is_wcs_word-digits :
    (c n : ℕ) (s tail : Bytes)
    → is_digit c ≡ true
    → digits_from 0 (c ∷ s) ≡ (n, tail)
    → (ltb n 54 || ltb 59 n) ≡ true
    → is_wcs_word (b'G' ∷ c ∷ s) ≡ false
unfolding is_wcs_word strtol skip_space
is_wcs_word-digits c n s tail d e h = ground (arith, d, ap (λ (r : ℕ × Bytes). r.0) e)

pub is_wcs_word-other : (word : Word) → NamesNone word → is_wcs_word (text_of word) ≡ false
unfolding is_wcs_word decimal
is_wcs_word-other (letter c s) h = ground arith
is_wcs_word-other (g_word n tail) h =
    let (c, s, e, d) = decimal_from-first (n + 1) n (omega arith) in
    ap (λ t. is_wcs_word (b'G' ∷ (t ++ tail))) e
    ∙ is_wcs_word-digits c n (s ++ tail) tail d
        (ap (λ t. digits_from 0 (t ++ tail)) {x = c ∷ s} {y = decimal n} (sym e)
          ∙ digits_from-decimal n tail
          ∙ digits_from-stop n tail h.1)
        h.0
