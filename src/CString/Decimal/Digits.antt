-- ===== src/CString/Decimal/Digits.antt =====
-- Decimal numbers: how long they are, and that reading them gives the number back.
use native.Mathlib.Nat.{pow-suc}
use pico2w_grbl_bridge.Base.{
  ℕ, zero, suc, ◌+◌, ◌-◌, ◌*◌, ◌/◌, ◌%◌, ◌^◌, ◌≤◌, ◌<◌, ◌≡◌, ap, ◌∙◌, true, [], ◌∷◌, ◌++◌, arith,
  length, length-append, ltb, Bytes, Bool-cases, inl, inr, append_assoc,
}
use pico2w_grbl_bridge.CString.{digits_from, is_digit}
use pico2w_grbl_bridge.CString.Decimal.{decimal_from, decimal}

length-decimal_from : (k fuel n : ℕ) → n < 10 ^ suc k → length (decimal_from fuel n) ≤ suc k
unfolding decimal_from
length-decimal_from k zero n h = omega arith
length-decimal_from zero (suc fuel) n h = ground arith
length-decimal_from (suc k) (suc fuel) n h = ground (
  arith,
  pow-suc 10 (suc k),
  length-append (decimal_from fuel (n / 10)) ((b'0' + n % 10) ∷ []),
  length-decimal_from k fuel (n / 10),
)

-- A number below 10^(k + 1) has at most k + 1 digits.
pub length-decimal : (k n : ℕ) → n < 10 ^ suc k → length (decimal n) ≤ suc k
unfolding decimal
length-decimal k n h = length-decimal_from k (n + 1) n h

digits_from-digit :
    (acc d : ℕ) (s : Bytes)
    → d < 10
    → digits_from acc ((b'0' + d) ∷ s) ≡ digits_from (acc * 10 + d) s
unfolding digits_from
digits_from-digit acc d s h =
    let digit : is_digit (b'0' + d) ≡ true = ground arith in
    rw digit (ap (λ v. digits_from (acc * 10 + v) s) {x = b'0' + d - b'0'} (omega arith))

-- Enough fuel writes all digits, so that reading them gives the number back.
digits_from-decimal_from :
    (fuel n : ℕ) (s : Bytes) → n < fuel → digits_from 0 (decimal_from fuel n ++ s) ≡ digits_from n s
unfolding decimal_from
digits_from-decimal_from zero n s h = absurd (omega arith)
digits_from-decimal_from (suc fuel) n s h = elim (Bool-cases (ltb n 10)) [
  | inl one ↦ rw one (
      digits_from-digit 0 n s (ground arith)
      ∙ ap (λ v. digits_from v s) {x = 0 * 10 + n} (omega arith))
  | inr more ↦ rw more (
      ap (digits_from 0) (append_assoc (decimal_from fuel (n / 10)) ((b'0' + n % 10) ∷ []) s)
      ∙ digits_from-decimal_from fuel (n / 10) ((b'0' + n % 10) ∷ s) (ground arith)
      ∙ digits_from-digit (n / 10) (n % 10) s (omega arith)
      ∙ ap (λ v. digits_from v s) {x = n / 10 * 10 + n % 10} (omega arith))
]

pub digits_from-decimal : (n : ℕ) (s : Bytes) → digits_from 0 (decimal n ++ s) ≡ digits_from n s
unfolding decimal
digits_from-decimal n s = digits_from-decimal_from (n + 1) n s (omega arith)
