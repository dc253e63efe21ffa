-- ===== src/HttpServer/Callbacks/Number.antt =====
-- `atoi` on a number that ends before the text does.
use pico2w_grbl_bridge.Base.{
  sym, min, ◌^◌, if◌then◌else◌, ℕ, ◌+◌, ◌*◌, ◌-◌, ◌≡◌, ◌≢◌, refl, ap, ◌∙◌, true, [], ◌∷◌, ◌++◌,
  arith, Bytes, Bool-cases, inl, inr,
}
use pico2w_grbl_bridge.CString.{
  strtol_sign, Strtol, c_str, is_digit, is_space, digits_from, skip_space, strtol,
}
use pico2w_grbl_bridge.CString.Laws.{IsText, c_str_of_IsText}
use pico2w_grbl_bridge.HttpServer.Callbacks.{number_at}

-- Behind its blanks the text starts with a digit, and its digits do not go on to its end.
abbrev pub DigitsIn : Bytes → Type 0
DigitsIn [] = ⊥
DigitsIn (c ∷ s) = (is_digit c ≡ true) × ((digits_from 0 (c ∷ s)).1 ≢ [])

abbrev pub EndsInside : Bytes → Type 0
EndsInside v = IsText v × DigitsIn (skip_space v)

c_str-append : (v t : Bytes) → IsText v → c_str (v ++ t) ≡ v ++ c_str t
unfolding c_str
c_str-append [] t h = refl
c_str-append (c ∷ v) t h = ground (arith, c_str-append v t)

digits_from-append :
    (acc : ℕ) (s t : Bytes)
    → (digits_from acc s).1 ≢ []
    → (digits_from acc (s ++ t)).0 ≡ (digits_from acc s).0
unfolding digits_from
digits_from-append acc [] t h = absurd (h refl)
digits_from-append acc (c ∷ s) t h = ground (arith, digits_from-append (acc * 10 + (c - b'0')) s t)

skip_space-append :
    (v t : Bytes) → DigitsIn (skip_space v) → skip_space (v ++ t) ≡ skip_space v ++ t
unfolding skip_space
skip_space-append [] t h = absurd h
skip_space-append (c ∷ v) t h = elim (Bool-cases (is_space c)) [
  | inl blank ↦ rw blank (skip_space-append v t (rw blank at h))
  | inr other ↦ rw other
]

abbrev value : Strtol → ℕ
value r = if r.negative then 0 else r.magnitude

digits_lem :
    (all s : Bytes) (c : ℕ)
    → is_digit c ≡ true
    → value (strtol_sign all (c ∷ s)) ≡ min (digits_from 0 (c ∷ s)).0 (2 ^ 31 - 1)
digits_lem all s c h = ground (arith, h)

value-append :
    (all other w t : Bytes)
    → DigitsIn w
    → value (strtol_sign all (w ++ t)) ≡ value (strtol_sign other w)
value-append all other [] t h = absurd h
value-append all other (c ∷ w) t h =
    digits_lem all (w ++ t) c h.0
    ∙ ap (λ n. min n (2 ^ 31 - 1)) (digits_from-append 0 (c ∷ w) t h.1)
    ∙ sym (digits_lem other w c h.0)

pub number_at-append : (v t : Bytes) → EndsInside v → number_at (v ++ t) ≡ number_at v
unfolding number_at strtol
number_at-append v t h =
    ap (λ s. value (strtol s)) (c_str-append v t h.0)
    ∙ ap (λ s. value (strtol_sign (v ++ c_str t) s)) (skip_space-append v (c_str t) h.1)
    ∙ value-append (v ++ c_str t) v (skip_space v) (c_str t) h.1
    ∙ ap (λ s. value (strtol s)) (sym (c_str_of_IsText v h.0))
