-- ===== src/UsbHost/Mount.antt =====
-- Which device is tracked, and what the mount callback hears.
use pico2w_grbl_bridge.Base.{
  ℕ, ◌≡◌, ◌≢◌, refl, Bool, false, not, Option, some, List, [], ◌∷◌, arith, ◌==◌,
}
use pico2w_grbl_bridge.UsbHost.{Usb, initial, cdc_mount_cb, cdc_umount_cb}

-- TinyUSB's reports of CDC interfaces that come and go
pub data Event : Type 0 where
  mount : ℕ → Event
  umount : ℕ → Event

-- The mount callback, as a log of its calls, the latest first.
abbrev pub note : Option (Bool → List Bool → List Bool)
note = some ◌∷◌

unfoldable pub run : List Event → Usb → List Bool → Usb × List Bool
run [] u log = (u, log)
run (mount idx ∷ events) u log = let (u', log') = cdc_mount_cb note idx u log in run events u' log'
run (umount idx ∷ events) u log =
    let (u', log') = cdc_umount_cb note idx u log in run events u' log'

abbrev pub AllReal : List Event → Type 0
AllReal [] = Unit
AllReal (mount idx ∷ events) = (idx ≢ 0xff) × AllReal events
AllReal (umount idx ∷ events) = (idx ≢ 0xff) × AllReal events

-- The calls alternate from `true`, and the latest says whether a device is tracked.
abbrev pub Alternates : List Bool → Bool → Type 0
Alternates [] now = now ≡ false
Alternates (b ∷ log) now = (b ≡ now) × Alternates log (not b)

step_mount :
    (idx : ℕ) (u : Usb) (log : List Bool)
    → idx ≢ 0xff
    → Alternates log (not (u.mounted_idx == 0xff))
    → let (u', log') = cdc_mount_cb note idx u log in Alternates log' (not (u'.mounted_idx == 0xff))
unfolding cdc_mount_cb
step_mount idx u log h a = ground arith

step_umount :
    (idx : ℕ) (u : Usb) (log : List Bool)
    → idx ≢ 0xff
    → Alternates log (not (u.mounted_idx == 0xff))
    → let (u', log') = cdc_umount_cb note idx u log in
      Alternates log' (not (u'.mounted_idx == 0xff))
unfolding cdc_umount_cb
step_umount idx u log h a = ground arith

run-Alternates :
    (events : List Event) (u : Usb) (log : List Bool)
    → AllReal events
    → Alternates log (not (u.mounted_idx == 0xff))
    → let (u', log') = run events u log in Alternates log' (not (u'.mounted_idx == 0xff))
unfolding run
run-Alternates [] u log h a = a
run-Alternates (mount idx ∷ events) u log h a =
    let (u', log') = cdc_mount_cb note idx u log in
    run-Alternates events u' log' h.1 (step_mount idx u log h.0 a)
run-Alternates (umount idx ∷ events) u log h a =
    let (u', log') = cdc_umount_cb note idx u log in
    run-Alternates events u' log' h.1 (step_umount idx u log h.0 a)

-- However CDC interfaces come and go, the mount callback hears `true` and `false` in turn, `true`
-- first, and its latest word is whether a device is tracked at that moment (`mounted_idx` is not
-- 0xFF); it has heard nothing only if none is. (0xFF is no interface's index.)
pub run-Alternates-initial :
    (events : List Event)
    → AllReal events
    → let (u, log) = run events initial [] in Alternates log (not (u.mounted_idx == 0xff))
run-Alternates-initial events h = run-Alternates events initial [] h refl
