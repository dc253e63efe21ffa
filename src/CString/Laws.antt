-- ===== src/CString/Laws.antt =====
-- Laws of the C string functions.
use pico2w_grbl_bridge.Base.{
  ◌++◌, take_all, ℕ, zero, suc, ◌≤◌, ◌≡◌, refl, ap, ◌∙◌, ◌≢◌, ◌↔◌, true, [], ◌∷◌, arith, length,
  take, length-take, take-take, Bytes,
}
use pico2w_grbl_bridge.CString.{c_str, strncpy, str_eq}

-- No byte of the text is a NUL.
abbrev pub IsText : Bytes → Type 0
IsText [] = Unit
IsText (c ∷ s) = (c ≢ 0) × IsText s

pub c_str-IsText : (s : Bytes) → IsText (c_str s)
unfolding c_str
c_str-IsText [] = tt
c_str-IsText (c ∷ s) = ground (arith, c_str-IsText s)

pub c_str_of_IsText : (s : Bytes) → IsText s → c_str s ≡ s
unfolding c_str
c_str_of_IsText [] h = refl
c_str_of_IsText (c ∷ s) h = ground (arith, c_str_of_IsText s)

pub take-IsText : (n : ℕ) (s : Bytes) → IsText s → IsText (take n s)
take-IsText zero s h = tt
take-IsText (suc n) [] h = tt
take-IsText (suc n) (c ∷ s) h = (h.0, take-IsText n s h.1)

pub strncpy-IsText : (n : ℕ) (s : Bytes) → IsText (strncpy n s)
unfolding strncpy
strncpy-IsText n s = take-IsText n (c_str s) (c_str-IsText s)

-- A copy fits its buffer.
pub length-strncpy : (n : ℕ) (s : Bytes) → length (strncpy n s) ≤ n
unfolding strncpy
length-strncpy n s = omega (arith, length-take n (c_str s))

-- Copying again changes nothing.
pub strncpy-strncpy : (n : ℕ) (s : Bytes) → strncpy n (strncpy n s) ≡ strncpy n s
unfolding strncpy
strncpy-strncpy n s =
    ap (take n) (c_str_of_IsText (take n (c_str s)) (strncpy-IsText n s)) ∙ take-take n (c_str s)

pub str_eq_iff : (a b : Bytes) → (str_eq a b ≡ true) ↔ (a ≡ b)
unfolding str_eq
str_eq_iff (x ∷ a) (y ∷ b) = ground (arith, str_eq_iff a b)
str_eq_iff _ _ = ground arith

pub str_eq_refl : (a : Bytes) → str_eq a a ≡ true
str_eq_refl a = (str_eq_iff a a).1 refl

pub IsText-append : (s t : Bytes) → IsText s → IsText t → IsText (s ++ t)
IsText-append [] t hs ht = ht
IsText-append (c ∷ s) t hs ht = (hs.0, IsText-append s t hs.1 ht)

-- A text that is short enough is copied whole.
pub strncpy_of_IsText : (n : ℕ) (s : Bytes) → IsText s → length s ≤ n → strncpy n s ≡ s
unfolding strncpy
strncpy_of_IsText n s h fits = ap (take n) (c_str_of_IsText s h) ∙ take_all n s fits

-- Cutting the source to the size of the copy makes no difference.
pub strncpy-take : (n : ℕ) (s : Bytes) → strncpy n (take n s) ≡ strncpy n s
unfolding strncpy c_str
strncpy-take zero s = refl
strncpy-take (suc n) [] = refl
strncpy-take (suc n) (c ∷ s) =
    let rest : take n (c_str (take n s)) ≡ take n (c_str s) = strncpy-take n s in ground arith

-- A copy of a text that is not empty is not empty.
pub strncpy_given : (n : ℕ) (s : Bytes) → IsText s → s ≢ [] → strncpy (suc n) s ≢ []
unfolding strncpy c_str
strncpy_given n [] text given = absurd (given refl)
strncpy_given n (c ∷ s) text given = ground (arith, text.0)
