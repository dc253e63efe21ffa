-- ===== src/GrblLink/Report/Tests.antt =====
-- Tests of the status reports.
use pico2w_grbl_bridge.Base.{
  zero, get_or, true, refl, arith, suc, length-replicate, false, List, replicate, ℕ, ◌≡◌, codes, [],
  ◌∷◌, Bytes, arith,
}
use pico2w_grbl_bridge.CString.{str_eq, mem_byte}
use pico2w_grbl_bridge.CString.Tokens.{Clean}
use pico2w_grbl_bridge.Floats.Examples.{strokes, show}
use pico2w_grbl_bridge.SharedState.Shared
use pico2w_grbl_bridge.GrblLink.State
use pico2w_grbl_bridge.GrblLink.State.{Core, Link}
use pico2w_grbl_bridge.GrblLink.Report.Says.{Says}
use pico2w_grbl_bridge.GrblLink.Report.Wco.{assemble_wpos}
use pico2w_grbl_bridge.GrblLink.Report.{Fields, parse_status_report, assemble, cache, no_fields}
use pico2w_grbl_bridge.GrblLink.Report.Print.{Field, mpos, wco, fs, wcs, print, meanings}
use pico2w_grbl_bridge.GrblLink.Report.Values.{stops, IsPrinter}
use pico2w_grbl_bridge.SharedState.Filtered.History.{push_all}
use pico2w_grbl_bridge.GrblLink.Report.Log.{Reported, AllReadable, run, changes, filtered-run}
use pico2w_grbl_bridge.GrblLink.Report.RoundTrip.{parse_status_report-print}

replicate-Clean :
    (delims : Bytes) (n : ℕ) → mem_byte b'1' delims ≡ false → Clean delims (replicate n b'1')
replicate-Clean delims zero h = tt
replicate-Clean delims (suc n) h = (h, replicate-Clean delims n h)

show-IsPrinter : IsPrinter strokes show
unfolding mem_byte
show-IsPrinter = record {
  strtof-show = λ x. let one : ℕ = b'1' in omega (arith, length-replicate x one);
  show-ne_nil = λ x e. cc;
  show_no_comma = λ x. replicate-Clean (codes ",") (suc x) refl;
  show_no_stop = λ x. replicate-Clean stops (suc x) refl;
}

abbrev idle : Core ℕ
idle = record { link = State.initial 0; shared = Shared.initial 0 }

abbrev report : List (Field ℕ)
report = mpos (1 ∷ 2 ∷ 3 ∷ []) ∷ fs 4 5 ∷ wco (1 ∷ 1 ∷ 0 ∷ []) ∷ wcs (codes "G54") ∷ []

parse_status_report-print_example :
    Says strokes
      (print show (codes "Idle") report)
      (codes "Idle")
      (meanings report (no_fields strokes))
      7000
      idle
      (parse_status_report strokes (print show (codes "Idle") report) 7000 idle)
unfolding mem_byte print
parse_status_report-print_example =
    parse_status_report-print strokes show show-IsPrinter (codes "Idle") report 7000 idle
      (refl, (refl, (refl, (refl, tt)))) (tt, (tt, (tt, ((refl, (refl, (refl, tt))), tt))))
      (omega arith) (omega arith)

-- a report with a machine position only, on an offset from an earlier one
abbrev moved : Fields ℕ
moved = record (no_fields strokes) {
  mpos = 9 ∷ 8 ∷ 7 ∷ 0 ∷ 0 ∷ 0 ∷ [];
  n_mpos = 3;
  have_mpos = true;
}

abbrev shifted : Link ℕ
shifted = record (State.initial 0) {
  last_wco = 1 ∷ 2 ∷ 0 ∷ 0 ∷ 0 ∷ 0 ∷ [];
  last_wco_count = 2;
  have_last_wco = true;
}

assemble_wpos_example :
    let ns = assemble strokes (codes "Run") moved (cache strokes moved shifted) in
    (ns.has_wpos ≡ true) × (get_or ns.wpos 1 0 ≡ 6)
assemble_wpos_example =
    assemble_wpos strokes (codes "Run") moved shifted 1 refl refl refl (omega arith)

abbrev seen : Bytes → ℕ → Reported ℕ
seen word time = record { word = word; fields = []; time = time }

abbrev polled : List (Reported ℕ)
polled = seen (codes "Idle") 500 ∷ seen (codes "Run") 1000 ∷ seen (codes "Run") 1500 ∷ []

polled-AllReadable : AllReadable strokes show polled
unfolding mem_byte print
polled-AllReadable = (
  (refl, (refl, (refl, (refl, tt)))),
  tt,
  omega arith,
  omega arith,
  (
    (refl, (refl, (refl, tt))),
    tt,
    omega arith,
    omega arith,
    ((refl, (refl, (refl, tt))), tt, omega arith, omega arith, tt),
  ),
)

filtered-run_example :
    (run strokes show polled idle).shared.filtered
    ≡ push_all idle.shared.filtered (changes strokes show [] polled)
filtered-run_example = filtered-run strokes show show-IsPrinter polled idle polled-AllReadable refl

changes-polled : changes strokes show [] polled ≡ codes "<Run>" ∷ []
unfolding changes str_eq print
changes-polled = refl
