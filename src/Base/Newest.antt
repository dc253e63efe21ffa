-- ===== src/Base/Newest.antt =====
-- Laws of `newest`, the view that a client has of a bounded log.
use Prim.Native.Nat.{ℕ, suc, ◌+◌, ◌-◌, ◌≤◌}
use mathlib.Core.Path.{◌≡◌, sym, ap, ◌∙◌}
use mathlib.Core.List.{List, [], ◌∷◌, ◌++◌}
use native.Mathlib.Omega.{arith}
use pico2w_grbl_bridge.Base.Lists.{
  length, drop, drop-drop, drop-append, length-append, newest, length-newest,
}

module _ {ℓ} {A : Type ℓ} where
  pub newest_all : (n : ℕ) (xs : List A) → length xs ≤ n → newest n xs ≡ xs
  newest_all n xs h = let none_dropped : length xs - n ≡ 0 = omega arith in rw none_dropped

  pub newest-newest : (m n : ℕ) (xs : List A) → m ≤ n → newest m (newest n xs) ≡ newest m xs
  newest-newest m n xs h =
      drop-drop (length (newest n xs) - m) (length xs - n) xs
      ∙ ap (λ k. drop k xs) {x = length xs - n + (length (newest n xs) - m)}
          (omega (arith, length-newest n xs))

  pub newest-append :
      (m : ℕ) (xs ys : List A) → newest (m + length ys) (xs ++ ys) ≡ newest m xs ++ ys
  newest-append m xs ys =
      ap (λ k. drop k (xs ++ ys)) {x = length (xs ++ ys) - (m + length ys)}
        (omega (arith, length-append xs ys))
      ∙ drop-append (length xs - m) xs ys (omega arith)

  pub newest-suc-snoc :
      (n : ℕ) (xs : List A) (x : A) → newest (suc n) (xs ++ (x ∷ [])) ≡ newest n xs ++ (x ∷ [])
  newest-suc-snoc n xs x =
      ap (λ k. newest k (xs ++ (x ∷ []))) {x = suc n} {y = n + 1} (omega arith)
      ∙ newest-append n xs (x ∷ [])

  -- A log of `suc n` entries that takes one more keeps the newest of all that it has been given.
  pub newest-snoc :
      (n : ℕ) (xs : List A) (x : A)
      → newest (suc n) (newest (suc n) xs ++ (x ∷ [])) ≡ newest (suc n) (xs ++ (x ∷ []))
  newest-snoc n xs x =
      newest-suc-snoc n (newest (suc n) xs) x
      ∙ ap (λ ys. ys ++ (x ∷ [])) (newest-newest n (suc n) xs (omega arith))
      ∙ sym (newest-suc-snoc n xs x)

  -- A window that is wide enough for the last part of a log shows all of it.
  pub newest-append_le :
      (m k : ℕ) (xs ys : List A)
      → length ys ≡ k
      → k ≤ m
      → newest m (xs ++ ys) ≡ newest (m - k) xs ++ ys
  newest-append_le m k xs ys e h =
      ap (λ j. newest j (xs ++ ys)) {x = m} {y = m - k + length ys} (omega arith)
      ∙ newest-append (m - k) xs ys
