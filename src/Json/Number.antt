-- ===== src/Json/Number.antt =====
-- The numbers of JSON, without exponents.
use pico2w_grbl_bridge.Base.{
  Bool, true, false, ◌&&◌, ◌||◌, Option, none, some, [], ◌∷◌, ◌==◌, ℕ, ◌++◌, ◌≡◌, refl, ap, ◌∙◌,
  arith, if◌then◌else◌, Bytes,
}
use pico2w_grbl_bridge.CString.{is_digit}

unfoldable pub all_digits : Bytes → Bool
all_digits [] = true
all_digits (c ∷ s) = is_digit c && all_digits s

-- `.` and at least one digit
unfoldable pub is_fraction : Bytes → Bool
unfolding all_digits
is_fraction [] = false
is_fraction (c ∷ []) = false
is_fraction (c ∷ d ∷ s) = c == b'.' && (is_digit d && all_digits s)

-- what may follow a number's first digits
unfoldable pub digits_end : Bytes → Bool
unfolding is_fraction
digits_end [] = true
digits_end (c ∷ s) = if is_digit c then digits_end s else is_fraction (c ∷ s)

-- a number without sign: no digit follows a first zero
unfoldable pub is_unsigned : Bytes → Bool
unfolding digits_end is_fraction
is_unsigned [] = false
is_unsigned (c ∷ []) = is_digit c
is_unsigned (c ∷ d ∷ s) =
    if c == b'0' then is_fraction (d ∷ s) else is_digit c && digits_end (d ∷ s)

-- a number, with or without `-`
unfoldable pub is_number : Bytes → Bool
unfolding is_unsigned
is_number [] = false
is_number (c ∷ s) = if c == b'-' then is_unsigned s else is_unsigned (c ∷ s)

abbrev pub number_char : ℕ → Bool
number_char c = is_digit c || (c == b'-' || c == b'.')

-- the text up to the first byte that no number holds, and the rest
unfoldable pub span_number : Bytes → Bytes × Bytes
span_number [] = ([], [])
span_number (c ∷ s) =
    let (t, rest) = span_number s in if number_char c then (c ∷ t, rest) else ([], c ∷ s)

unfoldable pub read_number : Bytes → Option (Bytes × Bytes)
unfolding span_number is_number
read_number s = let (t, rest) = span_number s in if is_number t then some (t, rest) else none

-- A number ends where it does.
abbrev pub Ends : Bytes → Type 0
Ends [] = Unit
Ends (c ∷ s) = number_char c ≡ false

abbrev NumberChars : Bytes → Type 0
NumberChars [] = Unit
NumberChars (c ∷ s) = (number_char c ≡ true) × NumberChars s

all_digits-NumberChars : (s : Bytes) → all_digits s ≡ true → NumberChars s
unfolding all_digits
all_digits-NumberChars [] h = tt
all_digits-NumberChars (c ∷ s) h = ground (arith, all_digits-NumberChars s)

is_fraction-NumberChars : (s : Bytes) → is_fraction s ≡ true → NumberChars s
unfolding is_fraction
is_fraction-NumberChars [] h = tt
is_fraction-NumberChars (c ∷ []) h = cc
is_fraction-NumberChars (c ∷ d ∷ s) h = ground (arith, all_digits-NumberChars s)

digits_end-NumberChars : (s : Bytes) → digits_end s ≡ true → NumberChars s
unfolding digits_end
digits_end-NumberChars [] h = tt
digits_end-NumberChars (c ∷ s) h =
    ground (arith, digits_end-NumberChars s, is_fraction-NumberChars (c ∷ s))

is_unsigned-NumberChars : (s : Bytes) → is_unsigned s ≡ true → NumberChars s
unfolding is_unsigned
is_unsigned-NumberChars [] h = tt
is_unsigned-NumberChars (c ∷ []) h = ground arith
is_unsigned-NumberChars (c ∷ d ∷ s) h =
    ground (arith, digits_end-NumberChars (d ∷ s), is_fraction-NumberChars (d ∷ s))

is_number-NumberChars : (s : Bytes) → is_number s ≡ true → NumberChars s
unfolding is_number
is_number-NumberChars [] h = tt
is_number-NumberChars (c ∷ s) h =
    ground (arith, is_unsigned-NumberChars s, is_unsigned-NumberChars (c ∷ s))

span_number-append :
    (t rest : Bytes) → NumberChars t → Ends rest → span_number (t ++ rest) ≡ (t, rest)
unfolding span_number
span_number-append [] [] h e = refl
span_number-append [] (c ∷ rest) h e = rw e refl
span_number-append (c ∷ t) rest h e =
    rw h.0 (ap (λ p. (c ∷ p.0, p.1)) (span_number-append t rest h.1 e))

pub read_number-append :
    (t rest : Bytes) → is_number t ≡ true → Ends rest → read_number (t ++ rest) ≡ some (t, rest)
unfolding read_number
read_number-append t rest h e =
    ap (λ p. if is_number p.0 then some p else none)
      (span_number-append t rest (is_number-NumberChars t h) e)
    ∙ ap (λ b. if b then some (t, rest) else none) h
