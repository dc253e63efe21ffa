-- ===== src/CString.antt =====
-- C strings as byte lists, and the functions of the C library that the firmware calls on them.
-- A buffer that always holds a string is modelled by that string (its bytes before the NUL);
-- where raw bytes arrive, `c_str` says what a `char *` to them is read as.
pub mod Laws
pub mod Tokens
pub mod Decimal
use pico2w_grbl_bridge.Base.{
  ◌^◌, min, ℕ, zero, suc, ◌+◌, ◌-◌, ◌*◌, Bool, true, false, ◌&&◌, ◌||◌, Option, none, some, List,
  [], ◌∷◌, ◌++◌, take, leb, ◌==◌, if◌then◌else◌, Bytes,
}

-- The string at a `char *`: the bytes before the first NUL.
unfoldable pub c_str : Bytes → Bytes
c_str [] = []
c_str (c ∷ s) = if c == 0 then [] else c ∷ c_str s

-- The string in `dst` after `strncpy(dst, src, n); dst[n] = '\0';`.
unfoldable pub strncpy : ℕ → Bytes → Bytes
unfolding c_str
strncpy n src = take n (c_str src)

-- `strcmp(a, b) == 0`, on strings
unfoldable pub str_eq : Bytes → Bytes → Bool
str_eq [] [] = true
str_eq (a ∷ as') (b ∷ bs) = a == b && str_eq as' bs
str_eq [] (b ∷ bs) = false
str_eq (a ∷ as') [] = false

-- `strncmp(s, prefix, strlen(prefix)) == 0`
unfoldable pub starts_with : Bytes → Bytes → Bool
starts_with s [] = true
starts_with [] (p ∷ ps) = false
starts_with (c ∷ s) (p ∷ ps) = c == p && starts_with s ps

unfoldable pub mem_byte : ℕ → Bytes → Bool
mem_byte c [] = false
mem_byte c (d ∷ ds) = c == d || mem_byte c ds

abbrev cons_token : Bytes → List Bytes → List Bytes
cons_token [] ts = ts
cons_token (c ∷ t) ts = (c ∷ t) ∷ ts

-- All tokens that repeated `strtok_r(.., delims, &save)` returns: the non-empty runs of bytes
-- that are no delimiters. `token` is the run read so far.
unfoldable pub tokens_from : Bytes → Bytes → Bytes → List Bytes
unfolding mem_byte
tokens_from delims token [] = cons_token token []
tokens_from delims token (c ∷ s) =
    let ended = cons_token token (tokens_from delims [] s) in
    let longer = tokens_from delims (token ++ c ∷ []) s in
    if mem_byte c delims then ended else longer

unfoldable pub tokens : Bytes → Bytes → List Bytes
unfolding tokens_from
tokens delims s = tokens_from delims [] s

abbrev pub Split : Type 0
Split = Bytes × Bytes

abbrev pub keep_before : ℕ → Option Split → Option Split
keep_before c none = none
keep_before c (some (key, val)) = some (c ∷ key, val)

-- `p = strchr(s, c); *p = '\0'`: the text before the first `c`, and the text behind it.
unfoldable pub split_at : ℕ → Bytes → Option Split
split_at c [] = none
split_at c (d ∷ s) = if d == c then some ([], s) else keep_before d (split_at c s)

-- `isspace` in the C locale
abbrev pub is_space : ℕ → Bool
is_space c = c == 32 || (leb 9 c && leb c 13)

abbrev pub is_digit : ℕ → Bool
is_digit c = leb b'0' c && leb c b'9'

-- Leading digits read into `acc`, and what is left.
unfoldable pub digits_from : ℕ → Bytes → ℕ × Bytes
digits_from acc [] = (acc, [])
digits_from acc (c ∷ s) =
    let more = digits_from (acc * 10 + (c - b'0')) s in if is_digit c then more else (acc, c ∷ s)

unfoldable pub skip_space : Bytes → Bytes
skip_space [] = []
skip_space (c ∷ s) = if is_space c then skip_space s else c ∷ s

-- What `strtol(s, &end, 10)` finds: a sign, the magnitude held within 32 bits, and `end`.
pub record Strtol : Type 0 where
  pub negative : Bool
  pub magnitude : ℕ
  pub end : Bytes

-- The digits behind the sign; without any, nothing of `all` is taken.
abbrev pub strtol_digits : Bytes → Bool → Bytes → Strtol
strtol_digits all negative [] = record { negative = false; magnitude = 0; end = all }
strtol_digits all negative (c ∷ s) =
    let (n, rest) = digits_from 0 (c ∷ s) in
    if is_digit c
    then record {
      negative = negative;
      magnitude = min n (if negative then 2 ^ 31 else 2 ^ 31 - 1);
      end = rest;
    }
    else record { negative = false; magnitude = 0; end = all }

abbrev pub strtol_sign : Bytes → Bytes → Strtol
strtol_sign all [] = record { negative = false; magnitude = 0; end = all }
strtol_sign all (c ∷ s) =
    if c == b'-'
    then strtol_digits all true s
    else if c == b'+'
    then strtol_digits all false s
    else strtol_digits all false (c ∷ s)

unfoldable pub strtol : Bytes → Strtol
unfolding digits_from skip_space
strtol s = strtol_sign s (skip_space s)
