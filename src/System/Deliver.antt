-- ===== src/System/Deliver.antt =====
-- The last part of core1's loop and the queue.
use pico2w_grbl_bridge.Base.{
  ◌≡◌, refl, sym, ap, ap₂, ◌∙◌, Bool, true, false, List, [], ◌∷◌, ◌++◌, map, append-nil, arith,
  length, drop, drop-append, if◌then◌else◌, Bytes, Bool-cases, inl, inr,
}
use mathlib.Core.Path.{subst}
use pico2w_grbl_bridge.CString.{strncpy}
use pico2w_grbl_bridge.CString.Laws.{strncpy-strncpy}
use pico2w_grbl_bridge.SharedState.Queue
use pico2w_grbl_bridge.SharedState.Queue.{Queue}
use pico2w_grbl_bridge.SharedState.Queue.Fifo
use pico2w_grbl_bridge.SharedState.Queue.Laws.{IsValid, contents, push_refines, length-contents}
use pico2w_grbl_bridge.UsbHost.{is_mounted}
use pico2w_grbl_bridge.GrblLink.Pass.{Env, World, check_timeout, query_parser_state, send_line}
use pico2w_grbl_bridge.GrblLink.Pass.InFlight.{Kept}
use pico2w_grbl_bridge.GrblLink.Pass.Progress.{send_line-Sent}
use pico2w_grbl_bridge.GrblLink.Pass.Program.{out, TakesWhole, popped, send_none}

-- Lines as the queue keeps them.
abbrev pub AreCut : List Bytes → Type 0
AreCut [] = Unit
AreCut (text ∷ lines) = (strncpy 95 text ≡ text) × AreCut lines

pub AreCut-append : (xs ys : List Bytes) → AreCut xs → AreCut ys → AreCut (xs ++ ys)
AreCut-append [] ys hx hy = hy
AreCut-append (x ∷ xs) ys hx hy = (hx.0, AreCut-append xs ys hx.1 hy)

-- the line that `gcode_queue_push` adds
abbrev pub taken_in : Bytes → Queue → List Bytes
taken_in text q = if (Queue.push q text).0 then strncpy 95 text ∷ [] else []

pub taken_in-AreCut : (text : Bytes) (q : Queue) → AreCut (taken_in text q)
taken_in-AreCut text q = elim (Bool-cases (Queue.push q text).0) [
  | inl ok ↦ rw ok (strncpy-strncpy 95 text, tt)
  | inr full ↦ rw full tt
]

pub contents-push :
    (text : Bytes) (q : Queue)
    → IsValid q
    → contents (Queue.push q text).1 ≡ contents q ++ taken_in text q
unfolding Fifo.push
contents-push text q v = ground (arith, push_refines {q = q} text v, append-nil (contents q))

drop_all : (xs : List Bytes) → drop (length xs) xs ≡ []
drop_all [] = refl
drop_all (x ∷ xs) = drop_all xs

module _ {F : Type 0} where
  abbrev pub queued : World F → List Bytes
  queued w = contents w.core.shared.queue

  -- What a part other than the last leaves alone.
  pub record Calm (v w : World F) : Type 0 where
    pub queue_same : w.core.shared.queue ≡ v.core.shared.queue
    pub usb_same : w.usb ≡ v.usb

  pub Kept-Calm : (v w : World F) → Kept v w → Calm v w
  Kept-Calm v w k = record { queue_same = k.queue_same; usb_same = k.usb_same }

  pub timeout-Calm : (e : Env) (w : World F) → Calm w (check_timeout e w)
  unfolding check_timeout
  timeout-Calm e w = ground arith

  pub query-Calm :
      (e : Env) (mounted : Bool) (w : World F) → Calm w (query_parser_state e mounted w)
  unfolding query_parser_state
  query-Calm e mounted w = ground arith

  -- what the last part writes to the device
  abbrev pub sent_lines : Env → Bool → World F → List Bytes
  sent_lines e mounted w = drop (length w.wire) (send_line e mounted w).wire

  -- The last part hands out the queue in its order.
  pub record Delivers (e : Env) (mounted : Bool) (w : World F) : Type 0 where
    pub valid : IsValid (send_line e mounted w).core.shared.queue
    pub cut : AreCut (queued (send_line e mounted w))
    pub in_order :
        map out (queued w) ≡ sent_lines e mounted w ++ map out (queued (send_line e mounted w))

  idle-Delivers :
      (e : Env) (mounted : Bool) (w : World F)
      → IsValid w.core.shared.queue
      → AreCut (queued w)
      → send_line e mounted w ≡ w
      → Delivers e mounted w
  idle-Delivers e mounted w v c h = record {
    valid = subst (λ (u : World F). IsValid u.core.shared.queue) (sym h) v;
    cut = subst (λ (u : World F). AreCut (queued u)) (sym h) c;
    in_order =
        subst
          (λ (u : World F). map out (queued w) ≡ drop (length w.wire) u.wire ++ map out (queued u))
          (sym h) (ap (λ sent. sent ++ map out (queued w)) (sym (drop_all w.wire)));
  }

  free-Delivers :
      (e : Env) (w : World F) (lines : List Bytes)
      → IsValid w.core.shared.queue
      → queued w ≡ lines
      → AreCut lines
      → is_mounted w.usb e.cdc_mounted ≡ true
      → w.core.link.waiting_ok ≡ false
      → TakesWhole e lines
      → Delivers e true w
  free-Delivers e w [] v h c m f takes =
      idle-Delivers e true w v (subst AreCut (sym h) tt)
        (send_none e w (sym (length-contents w.core.shared.queue) ∙ ap length h))
  free-Delivers e w (text ∷ rest) v h c m f takes =
      let p = popped w.core.shared.queue text rest v h c.0 in
      let s = send_line-Sent e w text p.left m f p.pop_is takes in
      let left : queued (send_line e true w) ≡ rest = ap contents s.queue_rest ∙ p.rest_is in
      record {
        valid = subst IsValid (sym s.queue_rest) p.left_valid;
        cut = subst AreCut (sym left) c.1;
        in_order =
            ap (map out) h
            ∙ ap₂ (λ sent lines. sent ++ map out lines)
                (sym (
                  ap (drop (length w.wire)) s.on_wire
                  ∙ drop-append (length w.wire) w.wire (out text ∷ []) (omega arith)
                  ∙ ap (λ t. t ++ out text ∷ []) (drop_all w.wire)))
                (sym left);
      }

  -- The last part finds the device ready for the whole of the next line, if it is to send one.
  abbrev pub SendsWhole : Env → Bool → World F → Type 0
  SendsWhole e mounted w = mounted ≡ true → w.core.link.waiting_ok ≡ false → TakesWhole e (queued w)

  pub line-Delivers :
      (e : Env) (mounted : Bool) (w : World F)
      → IsValid w.core.shared.queue
      → AreCut (queued w)
      → mounted ≡ is_mounted w.usb e.cdc_mounted
      → SendsWhole e mounted w
      → Delivers e mounted w
  unfolding send_line
  line-Delivers e false w v c m takes = idle-Delivers e false w v c refl
  line-Delivers e true w v c m takes = elim (Bool-cases w.core.link.waiting_ok) [
    | inl waits ↦ idle-Delivers e true w v c (rw waits refl)
    | inr free ↦ free-Delivers e w (queued w) v refl c (sym m) free (takes refl free)
  ]
