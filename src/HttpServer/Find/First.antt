-- ===== src/HttpServer/Find/First.antt =====
-- `case_find` finds the first place at which the needle stands, up to the case of letters.
use pico2w_grbl_bridge.Base.{
  false, ◌==◌, ℕ, zero, suc, ◌+◌, ◌-◌, ◌<◌, ◌≤◌, ◌≡◌, ◌≢◌, refl, ap, true, Option, none, some, [],
  ◌∷◌, map, arith, length, take, drop, length-take, length-drop, length-map, ltb, Bytes, Bool-cases,
  inl, inr,
}
use pico2w_grbl_bridge.HttpServer.Find.{to_lower, same_prefix, find_from, case_find}

-- The needle stands in the hay from `i` on.
abbrev pub OccursAt : Bytes → Bytes → ℕ → Type 0
OccursAt hay needle i = map to_lower (take (length needle) (drop i hay)) ≡ map to_lower needle

abbrev pub IsFirst : Bytes → Bytes → Option ℕ → Type 0
IsFirst hay needle none = (j : ℕ) → ¬ OccursAt hay needle j
IsFirst hay needle (some k) = OccursAt hay needle k × ((j : ℕ) → j < k → ¬ OccursAt hay needle j)

same_prefix_sound : (hay needle : Bytes) → same_prefix hay needle ≡ true → OccursAt hay needle 0
unfolding same_prefix
same_prefix_sound hay [] h = refl
same_prefix_sound [] (n ∷ needle) h = cc
same_prefix_sound (c ∷ hay) (n ∷ needle) h = ground (arith, same_prefix_sound hay needle)

same_prefix_complete : (hay needle : Bytes) → OccursAt hay needle 0 → same_prefix hay needle ≡ true
unfolding same_prefix
same_prefix_complete hay [] h = refl
same_prefix_complete [] (n ∷ needle) h = cc
same_prefix_complete (c ∷ hay) (n ∷ needle) h = ground (arith, same_prefix_complete hay needle)

-- A needle does not stand in a shorter hay.
OccursAt-fits :
    (hay needle : Bytes) (j : ℕ) → OccursAt hay needle j → length needle ≤ length hay - j
OccursAt-fits hay needle j h = omega (
  arith,
  ap length h,
  length-map to_lower (take (length needle) (drop j hay)),
  length-map to_lower needle,
  length-take (length needle) (drop j hay),
  length-drop j hay,
)

-- What `find_from i` answers for the hay from `i` on.
abbrev From : ℕ → Bytes → Bytes → Option ℕ → Type 0
From i hay needle none = (j : ℕ) → ¬ OccursAt hay needle j
From i hay needle (some k) =
    (i ≤ k) × OccursAt hay needle (k - i) × ((j : ℕ) → j < k - i → ¬ OccursAt hay needle j)

None_later :
    (c : ℕ) (hay needle : Bytes) (m : ℕ)
    → ¬ OccursAt (c ∷ hay) needle 0
    → ((j : ℕ) → j < m → ¬ OccursAt hay needle j)
    → (j : ℕ) → j < suc m
    → ¬ OccursAt (c ∷ hay) needle j
None_later c hay needle m here later zero lt = here
None_later c hay needle m here later (suc j) lt = later j (omega arith)

From-later :
    (i c : ℕ) (hay needle : Bytes) (o : Option ℕ)
    → ¬ OccursAt (c ∷ hay) needle 0
    → From (i + 1) hay needle o
    → From i (c ∷ hay) needle o
From-later i c hay needle none here h =
    λ j. None_later c hay needle (suc j) here (λ k lt. h k) j (omega arith)
From-later i c hay needle (some k) here h =
    let offset : k - i ≡ suc (k - (i + 1)) = omega (arith, h.0) in
    rw offset (omega (arith, h.0), h.1, None_later c hay needle (k - (i + 1)) here h.2)

From-here : (i : ℕ) (hay needle : Bytes) → OccursAt hay needle 0 → From i hay needle (some i)
From-here i hay needle h =
    let offset : i - i ≡ 0 = omega arith in rw offset (omega arith, h, λ j lt. absurd (omega arith))

From-short : (i : ℕ) (hay needle : Bytes) → length hay < length needle → From i hay needle none
From-short i hay needle h = λ j occurs. omega (arith, OccursAt-fits hay needle j occurs)

find_from-From :
    (i : ℕ) (hay needle : Bytes) → 0 < length needle → From i hay needle (find_from i hay needle)
unfolding find_from
find_from-From i [] needle h = From-short i [] needle h
find_from-From i (c ∷ hay) needle h = elim (Bool-cases (ltb (length (c ∷ hay)) (length needle))) [
  | inl short ↦ rw short (From-short i (c ∷ hay) needle (ground arith))
  | inr room ↦ elim (Bool-cases (same_prefix (c ∷ hay) needle)) [
    | inl same ↦
        rw (room, same) (From-here i (c ∷ hay) needle (same_prefix_sound (c ∷ hay) needle same))
    | inr other ↦
        rw (room, other)
          (From-later i c hay needle (find_from (i + 1) hay needle)
            (λ occurs. cc (same_prefix_complete (c ∷ hay) needle occurs))
            (find_from-From (i + 1) hay needle h))
  ]
]

From-IsFirst : (hay needle : Bytes) (o : Option ℕ) → From 0 hay needle o → IsFirst hay needle o
From-IsFirst hay needle none h = h
From-IsFirst hay needle (some k) h =
    let whole : k - 0 ≡ k = omega arith in (rw whole at h.1, rw whole at h.2)

-- `case_find` answers with the first place of the hay at which the needle stands, whatever the
-- case of the letters, and with -1 exactly if there is none. (The needle is not empty.)
pub case_find-IsFirst :
    (hay needle : Bytes) → needle ≢ [] → IsFirst hay needle (case_find hay needle)
unfolding case_find
case_find-IsFirst hay [] h = absurd (h refl)
case_find-IsFirst hay (n ∷ needle) h =
    let given : (length (n ∷ needle) == 0) ≡ false = ground arith in
    elim (Bool-cases (ltb (length hay) (length (n ∷ needle)))) [
      | inl short ↦ rw (given, short) (From-short 0 hay (n ∷ needle) (ground arith))
      | inr room ↦
          rw (given, room)
            (From-IsFirst hay (n ∷ needle) (find_from 0 hay (n ∷ needle))
              (find_from-From 0 hay (n ∷ needle) (omega arith)))
    ]
