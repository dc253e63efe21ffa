-- ===== src/Base/Window.antt =====
-- The entries of an array that is used as a circular buffer: `window` reads `n` of them from
-- index `h` on, going round at `cap`. Shared by the console logs and the G-code queue.
use native.Mathlib.Nat.{mod-add-mod, mod-eq_of_lt, mod-eq-sub-mod}
use native.Mathlib.Decide.{dec_lt}
use pico2w_grbl_bridge.Base.Lists.{
  length, get_or, set, get_or-set_self, get_or-set_ne, drop, newest, drop-append, length-append,
}
use pico2w_grbl_bridge.Base.Newest.{newest_all}
use Prim.Native.Nat.{ℕ, zero, suc, ◌+◌, ◌-◌, ◌%◌, ◌≤◌, ◌<◌, min}
use mathlib.Core.Path.{◌≡◌, refl, sym, ap, ap₂, ◌∙◌}
use mathlib.Core.Logic.{◌≢◌}
use mathlib.Core.List.{List, [], ◌∷◌, ◌++◌}
use native.Mathlib.Omega.{arith}

module _ {ℓ} {A : Type ℓ} (d : A) (buf : List A) (cap : ℕ) where
  abbrev pub window : ℕ → ℕ → List A
  window h zero = []
  window h (suc n) = get_or buf h d ∷ window ((h + 1) % cap) n

  pub length-window : (h n : ℕ) → length (window h n) ≡ n
  length-window h zero = refl
  length-window h (suc n) = ap suc (length-window ((h + 1) % cap) n)

mod_one_turn : (cap n : ℕ) → cap ≤ n → n < cap + cap → n % cap ≡ n - cap
mod_one_turn cap n above below = mod-eq-sub-mod above ∙ mod-eq_of_lt (omega arith)

-- Fewer than `cap` steps round the buffer, and at least one, do not come back to the start.
steps_apart :
    (cap start steps : ℕ) → start < cap → 0 < steps → steps < cap → (start + steps) % cap ≢ start
steps_apart cap start steps inside some_steps few meets =
    let last : ℕ = start + steps in
    elim (dec_lt last cap) [
      | yes before ↦ omega (arith, meets, mod-eq_of_lt before)
      | no turned ↦ omega (arith, meets, mod_one_turn cap last (omega arith) (omega arith))
    ]

shift_mod : (h n cap : ℕ) → (h + suc n) % cap ≡ ((h + 1) % cap + n) % cap
shift_mod h n cap =
    sym (mod-add-mod (h + 1) cap n ∙ ap (λ k. k % cap) {x = h + 1 + n} (omega arith))

module _ {ℓ} {A : Type ℓ} (d : A) where
  -- Writing just past a window extends it by that entry.
  pub window-set :
      (buf : List A) (cap : ℕ) (x : A) (n h i : ℕ)
      → cap ≤ length buf
      → h < cap
      → n < cap
      → i ≡ (h + n) % cap
      → window d (set buf i x) cap h (suc n) ≡ window d buf cap h n ++ (x ∷ [])
  window-set buf cap x zero h i hs hh hn e =
      let here : i ≡ h = e ∙ ap (λ k. k % cap) {x = h + 0} (omega arith) ∙ mod-eq_of_lt hh in
      rw (here, get_or-set_self buf h x d (omega arith))
  window-set buf cap x (suc n) h i hs hh hn e =
      ap₂ ◌∷◌ (get_or-set_ne buf x d (rw e (steps_apart cap h (suc n) hh (omega arith) hn))) (
        window-set buf cap x n ((h + 1) % cap) i hs (omega arith) (omega arith)
          (e ∙ shift_mod h n cap))

  -- Dropping entries of a window moves its start.
  pub window-drop :
      (buf : List A) (cap k n h : ℕ)
      → h < cap
      → window d buf cap ((h + k) % cap) n ≡ drop k (window d buf cap h (k + n))
  window-drop buf cap zero n h hh =
      let start : (h + 0) % cap ≡ h =
        ap (λ k. k % cap) {x = h + 0} (omega arith) ∙ mod-eq_of_lt hh in
      let count : zero + n ≡ n = omega arith in rw (start, count)
  window-drop buf cap (suc k) n h hh =
      let count : suc k + n ≡ suc (k + n) = omega arith in
      rw (shift_mod h k cap, count) (window-drop buf cap k n ((h + 1) % cap) (omega arith))

  -- Writing over the oldest entry of a full buffer drops it and appends the new one.
  pub window-set_full :
      (buf : List A) (cap : ℕ) (x : A) (h : ℕ)
      → cap ≤ length buf
      → h < cap
      → window d (set buf h x) cap ((h + 1) % cap) cap ≡ drop 1 (window d buf cap h cap) ++ (x ∷ [])
  window-set_full buf zero x h hs hh = absurd (omega arith)
  window-set_full buf (suc c) x h hs hh =
      window-set buf (suc c) x c ((h + 1) % suc c) h hs (omega arith) (omega arith)
        (sym (mod-eq_of_lt hh) ∙ turn ∙ sym (mod-add-mod (h + 1) (suc c) c))
    where
      turn : h % suc c ≡ (h + 1 + c) % suc c
      turn = sym (
          mod-eq-sub-mod {n = h + 1 + c} {m = suc c} (omega arith)
          ∙ ap (λ k. k % suc c) {x = h + 1 + c - suc c} (omega arith))

-- A log in a circular buffer keeps the newest `cap` entries of those that it is given.
module _ {ℓ} {A : Type ℓ} (d : A) (buf : List A) (cap : ℕ) (x : A) (h n i : ℕ) where
  pub window-log_room :
      cap ≤ length buf
      → h < cap
      → n < cap
      → i ≡ (h + n) % cap
      → window d (set buf i x) cap h (n + 1) ≡ newest cap (window d buf cap h n ++ (x ∷ []))
  window-log_room hs hh hn e =
      ap (window d (set buf i x) cap h) {y = suc n} (omega arith)
      ∙ window-set d buf cap x n h i hs hh hn e
      ∙ sym (
          newest_all cap (window d buf cap h n ++ (x ∷ [])) (
            omega
              (arith, length-append (window d buf cap h n) (x ∷ []), length-window d buf cap h n)))

  pub window-log_full :
      cap ≤ length buf
      → h < cap
      → n ≡ cap
      → i ≡ (h + n) % cap
      → window d (set buf i x) cap ((h + 1) % cap) n ≡ newest cap (window d buf cap h n ++ (x ∷ []))
  window-log_full hs hh hn e = rw (here, hn) (window-set_full d buf cap x h hs hh ∙ sym cut)
    where
      full : List A
      full = window d buf cap h cap

      here : i ≡ h
      here =
          e
          ∙ mod-eq-sub-mod {n = h + n} {m = cap} (omega arith)
          ∙ ap (λ k. k % cap) {x = h + n - cap} {y = h} (omega arith)
          ∙ mod-eq_of_lt hh

      cut : newest cap (full ++ (x ∷ [])) ≡ drop 1 full ++ (x ∷ [])
      cut =
          ap (λ k. drop k (full ++ (x ∷ []))) {y = 1}
            (omega (arith, length-append full (x ∷ []), length-window d buf cap h cap))
          ∙ drop-append 1 full (x ∷ []) (omega (arith, length-window d buf cap h cap))

-- The last `n` entries of a window of `count`.
pub window-newest {ℓ} :
    {A : Type ℓ} (d : A) (buf : List A) (cap h count m n : ℕ)
    → h < cap
    → n ≡ min count m
    → window d buf cap ((h + (count - n)) % cap) n ≡ newest m (window d buf cap h count)
window-newest d buf cap h count m n hh e =
    window-drop d buf cap (count - n) n h hh
    ∙ ap (λ j. drop (count - n) (window d buf cap h j)) whole
    ∙ ap (λ k. drop k (window d buf cap h count)) (sym dropped)
  where
    whole : count - n + n ≡ count
    whole = omega arith

    dropped : length (window d buf cap h count) - m ≡ count - n
    dropped = omega (arith, length-window d buf cap h count)
