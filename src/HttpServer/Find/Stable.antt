-- ===== src/HttpServer/Find/Stable.antt =====
-- What `case_find` finds stays where it is when more bytes arrive.
use pico2w_grbl_bridge.Base.{
  ℕ, ◌+◌, ◌≤◌, ◌<◌, ◌≡◌, refl, none, some, [], ◌∷◌, ◌++◌, arith, length, length-append, leb,
  if◌then◌else◌, Bytes,
}
use pico2w_grbl_bridge.HttpServer.Find.{same_prefix, find_from, case_find}

same_prefix-append :
    (s t needle : Bytes)
    → length needle ≤ length s
    → same_prefix (s ++ t) needle ≡ same_prefix s needle
unfolding same_prefix
same_prefix-append s t [] h = refl
same_prefix-append [] t (n ∷ needle) h = absurd (omega arith)
same_prefix-append (c ∷ s) t (n ∷ needle) h = ground (arith, same_prefix-append s t needle)

-- Whole text: a place found is behind the start, and the needle fits behind it.
find_from-le :
    (i : ℕ) (s needle : Bytes) (k : ℕ)
    → find_from i s needle ≡ some k
    → (i ≤ k) × (k + length needle ≤ i + length s)
unfolding find_from
find_from-le i [] needle k h = cc
find_from-le i (c ∷ s) needle k h = ground (arith, find_from-le (i + 1) s needle k)

find_from_short :
    (i : ℕ) (s needle : Bytes) → length s < length needle → find_from i s needle ≡ none
unfolding find_from
find_from_short i [] needle h = refl
find_from_short i (c ∷ s) needle h = ground arith

-- Of a text that grows by `t`: what is found in the whole is found in the part that holds it, and
-- nothing is found before.
pub find_from-append :
    (i : ℕ) (s t needle : Bytes) (k : ℕ)
    → 0 < length needle
    → find_from i (s ++ t) needle ≡ some k
    → find_from i s needle ≡ (if leb (k + length needle) (i + length s) then some k else none)
unfolding find_from
find_from-append i [] t needle k given h = ground (arith, find_from-le i t needle k h)
find_from-append i (c ∷ s) t needle k given h = ground (
  arith,
  find_from-le i ((c ∷ s) ++ t) needle k h,
  length-append s t,
  same_prefix-append (c ∷ s) t needle,
  find_from-append (i + 1) s t needle k,
)

pub case_find-append :
    (s t needle : Bytes) (k : ℕ)
    → case_find (s ++ t) needle ≡ some k
    → case_find s needle ≡ (if leb (k + length needle) (length s) then some k else none)
unfolding case_find
case_find-append s t needle k h =
    ground
      (arith, length-append s t, find_from-append 0 s t needle k, find_from-le 0 (s ++ t) needle k)

pub case_find-le :
    (s needle : Bytes) (k : ℕ) → case_find s needle ≡ some k → k + length needle ≤ length s
unfolding case_find
case_find-le s needle k h = ground (arith, find_from-le 0 s needle k)
