-- ===== src/GrblLink/Report/Wco.antt =====
-- The cached work coordinate offset.
use pico2w_grbl_bridge.Base.{
  length-replicate, replicate, refl, true, false, Bytes, ◌&&◌, ◌||◌, ℕ, zero, suc, ◌+◌, ◌≤◌, ◌≡◌,
  sym, ap, List, arith, length, get_or, set, get_or-set_self, get_or-set_ne, length-set, ltb,
  if◌then◌else◌,
}
use native.Mathlib.Decide.{ℕ_discrete}
use pico2w_grbl_bridge.Floats.{Floats}
use pico2w_grbl_bridge.GrblLink.State.{Link}
use pico2w_grbl_bridge.GrblLink.Report.{subtract_axes, assemble, cache, Fields}

pub get_or-replicate : {A : Type 0} (n j : ℕ) (x : A) → get_or (replicate n x) j x ≡ x
get_or-replicate zero j x = refl
get_or-replicate (suc n) zero x = refl
get_or-replicate (suc n) (suc j) x = get_or-replicate n j x

module _ (fl : Floats) where
  open fl use {Real, zero_real, subtract}

  -- After the loop, the entries from `i` on that it has reached are differences, the others are
  -- as before.
  pub subtract_axes-get :
      (left i j : ℕ) (mpos wco wpos : List Real)
      → i + left ≤ length wpos
      → get_or (subtract_axes fl left i mpos wco wpos) j zero_real ≡ (
          if ltb j i
          then get_or wpos j zero_real
          else if ltb j (i + left)
          then subtract (get_or mpos j zero_real) (get_or wco j zero_real)
          else get_or wpos j zero_real)
  unfolding subtract_axes
  subtract_axes-get zero i j mpos wco wpos h = ground arith
  subtract_axes-get (suc left) i j mpos wco wpos h =
      let v : Real = subtract (get_or mpos i zero_real) (get_or wco i zero_real) in
      elim (ℕ_discrete j i) [
        | yes e ↦ ground (
          arith,
          subtract_axes-get left (i + 1) j mpos wco (set wpos i v),
          get_or-set_self wpos i v zero_real,
          length-set wpos i v,
          ap (λ k. get_or mpos k zero_real) e,
          ap (λ k. get_or wco k zero_real) e,
          ap (λ k. get_or (set wpos i v) k zero_real) e,
        )
        | no ne ↦ ground (
          arith,
          subtract_axes-get left (i + 1) j mpos wco (set wpos i v),
          get_or-set_ne wpos {i = i} {j = j} v zero_real (λ e. ne (sym e)),
          length-set wpos i v,
        )
      ]

  -- A report with a machine position and no work position, when an offset came with it or with an
  -- earlier report: the work position is the machine position less the newest offset, on the axes
  -- that both have, and 0 on the others. (The offset has at most the six axes of its array.)
  pub assemble_wpos :
      (word : Bytes) (f : Fields Real) (l : Link Real) (j : ℕ)
      → f.have_mpos ≡ true
      → f.have_wpos ≡ false
      → (f.have_wco || l.have_last_wco) ≡ true
      → (if f.have_wco then f.n_wco else l.last_wco_count) ≤ 6
      → (let ns = assemble fl word f (cache fl f l) in
          let wco = (if f.have_wco then f.wco else l.last_wco) in
          let count = (if f.have_wco then f.n_wco else l.last_wco_count) in
          (ns.has_wpos ≡ true)
          × (get_or ns.wpos j zero_real ≡ (
              if ltb j f.n_mpos && ltb j count
              then subtract (get_or f.mpos j zero_real) (get_or wco j zero_real)
              else zero_real)))
  unfolding assemble cache
  assemble_wpos word f l j have no_wpos offset six =
      let count : ℕ = if f.have_wco then f.n_wco else l.last_wco_count in
      let wco : List Real = if f.have_wco then f.wco else l.last_wco in
      let n : ℕ = if ltb f.n_mpos count then f.n_mpos else count in
      ground (
        arith,
        subtract_axes-get n 0 j f.mpos wco (replicate 6 zero_real),
        get_or-replicate 6 j zero_real,
        length-replicate 6 zero_real,
      )
