-- ===== src/Api/Gcode/Counts.antt =====
-- What a POST of G-code does to the queue, and what it answers.
use mathlib.Core.Path.{subst}
use pico2w_grbl_bridge.Api.Gcode.Lines.{
  gcode_lines, nonblank, cons_line, stripped, strip_front, strip_back, split_lines, gcode_lines_lem,
}
use pico2w_grbl_bridge.Base.{
  ◌≢◌, ℕ, zero, suc, ◌+◌, ◌-◌, ◌<◌, min, ◌≡◌, refl, ap, ◌&&◌, List, [], ◌∷◌, ◌++◌, map, arith,
  length, length-append, take, ltb, ◌==◌, if◌then◌else◌, append-nil, append_assoc, Bytes,
}
use native.Mathlib.Decide.{ℕ_discrete}
use pico2w_grbl_bridge.CString.{strncpy}
use pico2w_grbl_bridge.CString.Laws.{strncpy-take}
use pico2w_grbl_bridge.SharedState.Machine.{clear_alarm}
use pico2w_grbl_bridge.SharedState.Queue
use pico2w_grbl_bridge.SharedState.Queue.{Queue}
use pico2w_grbl_bridge.SharedState.Queue.Fifo
use pico2w_grbl_bridge.SharedState.Queue.Laws.{
  IsValid, contents, length-contents, push-IsValid, push_refines,
}
use pico2w_grbl_bridge.SharedState.Shared.{Shared}
use pico2w_grbl_bridge.Api.Gcode.{segments_from, trim, Tally, submit, submit_all, handle_gcode_post}

-- No line is empty.
abbrev pub NoneEmpty : List Bytes → Type 0
NoneEmpty [] = Unit
NoneEmpty (line ∷ lines) = (line ≢ []) × NoneEmpty lines

cons_line-NoneEmpty :
    (line : Bytes) (lines : List Bytes) → NoneEmpty lines → NoneEmpty (cons_line line lines)
cons_line-NoneEmpty [] lines h = h
cons_line-NoneEmpty (c ∷ s) lines h = (λ e. cc, h)

stripped-NoneEmpty : (segs : List Bytes) → NoneEmpty (stripped segs)
unfolding stripped
stripped-NoneEmpty [] = tt
stripped-NoneEmpty (seg ∷ segs) =
    cons_line-NoneEmpty (strip_front (strip_back seg)) (stripped segs) (stripped-NoneEmpty segs)

pub gcode_lines-NoneEmpty : (body : Bytes) → NoneEmpty (gcode_lines body)
gcode_lines-NoneEmpty body = stripped-NoneEmpty (split_lines body)

-- What the loop has done when it ends, started with `t` on `lines`.
record Submitted (lines : List Bytes) (t u : Tally) : Type 0 where
  valid : IsValid u.queue
  total_is : u.total ≡ t.total + length lines
  queued_is : u.queued ≡ t.queued + min (length lines) (32 - t.queue.count)
  rejected_is : u.rejected ≡ t.rejected + (length lines - (32 - t.queue.count))
  contents_is :
      contents u.queue ≡ contents t.queue ++ take (32 - t.queue.count) (map (strncpy 95) lines)

take-nil {ℓ} : (A : Type ℓ) (n : ℕ) → take {A = A} n [] ≡ []
take-nil A zero = refl
take-nil A (suc n) = refl

take_pos {ℓ} :
    {A : Type ℓ} (n : ℕ) (x : A) (xs : List A) → 0 < n → take n (x ∷ xs) ≡ x ∷ take (n - 1) xs
take_pos zero x xs h = absurd (omega arith)
take_pos (suc n) x xs h = ap (λ k. x ∷ take k xs) {y = suc n - 1} (omega arith)

module _ (c : ℕ) (s : Bytes) (t : Tally) (v : IsValid t.queue) where
  abbrev x : Bytes
  x = strncpy 95 (c ∷ s)

  submit_full :
      t.queue.count ≡ 32
      → submit (c ∷ s) t ≡ record t { total = t.total + 1; rejected = t.rejected + 1 }
  unfolding submit Queue.push
  submit_full full = ground arith

  record Accepted (u : Tally) : Type 0 where
    valid : IsValid u.queue
    total_is : u.total ≡ t.total + 1
    queued_is : u.queued ≡ t.queued + 1
    rejected_is : u.rejected ≡ t.rejected
    count_is : u.queue.count ≡ t.queue.count + 1
    contents_is : contents u.queue ≡ contents t.queue ++ (x ∷ [])

  submit_room : t.queue.count < 32 → Accepted (submit (c ∷ s) t)
  unfolding submit Fifo.push
  submit_room room =
      let pushed : Bytes = take 95 (c ∷ s) in
      let q' : Queue = (Queue.push t.queue pushed).1 in
      ground (
        arith,
        push_refines pushed v,
        push-IsValid pushed v,
        length-contents t.queue,
        length-contents q',
        length-append (contents t.queue) (x ∷ []),
        strncpy-take 95 (c ∷ s),
      )

-- One more line in front of what the loop does with the others.
Submitted-cons :
    (c : ℕ) (s : Bytes) (t u : Tally) (lines : List Bytes)
    → IsValid t.queue
    → Submitted lines (submit (c ∷ s) t) u
    → Submitted ((c ∷ s) ∷ lines) t u
Submitted-cons c s t u lines v r = elim (ℕ_discrete t.queue.count 32) [
  | yes full ↦ ground (
    arith,
    submit_full c s t v full,
    take_pos (32 - t.queue.count) (strncpy 95 (c ∷ s)) (map (strncpy 95) lines),
  )
  | no room ↦ ground (
    arith,
    submit_room c s t v,
    take_pos (32 - t.queue.count) (strncpy 95 (c ∷ s)) (map (strncpy 95) lines),
    append_assoc (contents t.queue) (strncpy 95 (c ∷ s) ∷ [])
        (take (32 - t.queue.count - 1) (map (strncpy 95) lines)),
  )
]

submit-IsValid : (line : Bytes) (t : Tally) → IsValid t.queue → IsValid (submit line t).queue
unfolding submit
submit-IsValid [] t v = v
submit-IsValid (c ∷ s) t v = push-IsValid (take 95 (c ∷ s)) v

submit_all-Submitted :
    (segs : List Bytes) (t : Tally)
    → IsValid t.queue
    → Submitted (nonblank segs) t (submit_all segs t)
unfolding submit_all
submit_all-Submitted [] t v =
    ground (arith, append-nil (contents t.queue), take-nil Bytes (32 - t.queue.count))
submit_all-Submitted (seg ∷ segs) t v =
    step (trim seg)
      (submit_all-Submitted segs (submit (trim seg) t) (submit-IsValid (trim seg) t v))
  where
    step :
        (line : Bytes)
        → Submitted (nonblank segs) (submit line t) (submit_all segs (submit line t))
        → Submitted (cons_line line (nonblank segs)) t (submit_all segs (submit line t))
    step [] r = unfold submit in r
    step (c ∷ s) r = Submitted-cons c s t (submit_all segs (submit (c ∷ s) t)) (nonblank segs) v r

-- A POST of G-code puts the lines of its body into the queue behind those that are there, each cut
-- to 95 bytes, as many as there is room for, and answers 503 exactly if it has lines but none of
-- them found room, else 200. The banner is cleared. Its lines are what stands between its
-- newlines, without the blanks around it, but for blank lines. (The queue is in a valid state.)
pub handle_gcode_post-effect :
    {F : Type 0} (body : Bytes) (cap_len : ℕ) (s : Shared F)
    → IsValid s.queue
    → (let (r, s') = handle_gcode_post body cap_len s in
        let lines = gcode_lines body in
        (contents s'.queue ≡ contents s.queue ++ take (32 - s.queue.count) (map (strncpy 95) lines))
        × (r.status ≡ (if ltb 0 (length lines) && s.queue.count == 32 then 503 else 200))
        × (s'.machine.alarm ≡ [])
        × IsValid s'.queue)
unfolding handle_gcode_post clear_alarm
handle_gcode_post-effect body cap_len s v =
    let start : Tally = record { total = 0; queued = 0; rejected = 0; queue = s.queue } in
    let done =
      subst (λ lines. Submitted lines start (submit_all (segments_from [] body) start))
        (gcode_lines_lem body) (submit_all-Submitted (segments_from [] body) start v) in
    ground (arith, done)
