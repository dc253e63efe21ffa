-- ===== src/Json/Decimal.antt =====
-- What `%u` writes is a number of JSON.
use pico2w_grbl_bridge.Base.{
  ℕ, zero, suc, ◌+◌, ◌/◌, ◌%◌, ◌<◌, ◌≡◌, refl, ap, ◌∙◌, true, false, [], ◌∷◌, ◌++◌, arith, ltb,
  ◌==◌, Bytes, Bool-cases, inl, inr,
}
use pico2w_grbl_bridge.CString.{is_digit}
use pico2w_grbl_bridge.CString.Decimal.{decimal_from, decimal}
use pico2w_grbl_bridge.Json.Number.{all_digits, digits_end, is_unsigned, is_number}

all_digits-digits_end : (s : Bytes) → all_digits s ≡ true → digits_end s ≡ true
unfolding all_digits digits_end
all_digits-digits_end [] h = refl
all_digits-digits_end (c ∷ s) h = ground (arith, all_digits-digits_end s)

all_digits-append :
    (s : Bytes) (c : ℕ)
    → all_digits s ≡ true
    → is_digit c ≡ true
    → all_digits (s ++ (c ∷ [])) ≡ true
unfolding all_digits
all_digits-append [] c h d = ground arith
all_digits-append (b ∷ s) c h d = ground (arith, all_digits-append s c)

-- digits, and no zero in front
record IsWhole (s : Bytes) : Type 0 where
  first : ℕ
  others : Bytes
  shape : s ≡ first ∷ others
  first_digit : is_digit first ≡ true
  no_zero : (first == b'0') ≡ false
  digits : all_digits others ≡ true

decimal_from-IsWhole : (fuel n : ℕ) → n < fuel → 0 < n → IsWhole (decimal_from fuel n)
unfolding decimal_from all_digits
decimal_from-IsWhole zero n h p = absurd (omega arith)
decimal_from-IsWhole (suc fuel) n h p = elim (Bool-cases (ltb n 10)) [
  | inl one ↦ record {
    first = b'0' + n;
    others = [];
    shape = rw one refl;
    first_digit = ground arith;
    no_zero = ground arith;
    digits = refl;
  }
  | inr more ↦
      let front = decimal_from-IsWhole fuel (n / 10) (ground arith) (ground arith) in
      record {
        first = front.first;
        others = front.others ++ ((b'0' + n % 10) ∷ []);
        shape = rw more (ap (λ s. s ++ ((b'0' + n % 10) ∷ [])) front.shape);
        first_digit = front.first_digit;
        no_zero = front.no_zero;
        digits = all_digits-append front.others (b'0' + n % 10) front.digits (ground arith);
      }
]

whole_number :
    (c : ℕ) (s : Bytes)
    → is_digit c ≡ true
    → (c == b'0') ≡ false
    → all_digits s ≡ true
    → is_number (c ∷ s) ≡ true
unfolding is_number is_unsigned
whole_number c [] d z h = ground arith
whole_number c (b ∷ s) d z h = ground (arith, all_digits-digits_end (b ∷ s))

pub is_number-decimal : (n : ℕ) → is_number (decimal n) ≡ true
unfolding decimal decimal_from is_number is_unsigned
is_number-decimal zero = refl
is_number-decimal (suc n) =
    let w = decimal_from-IsWhole (suc n + 1) (suc n) (omega arith) (omega arith) in
    ap is_number w.shape ∙ whole_number w.first w.others w.first_digit w.no_zero w.digits
