-- ===== src/Api/Status/Examples.antt =====
-- What the tests of the status response start from.
use pico2w_grbl_bridge.Api.Status.Room.{HasSizes}
use pico2w_grbl_bridge.Api.Output.Json.{visible}
use pico2w_grbl_bridge.CString.{strncpy}
use pico2w_grbl_bridge.Api.Status.Text.{HasCleanTexts}
use pico2w_grbl_bridge.Api.Status.Valid.{HasNumbers, Prints}
use pico2w_grbl_bridge.Json.Text.{quoted}
use pico2w_grbl_bridge.Json.Number.{is_number, is_unsigned}
use pico2w_grbl_bridge.SharedState.Shared.{Shared}
use pico2w_grbl_bridge.Base.{ℕ, ◌∷◌, arith, codes, zero, suc, replicate, get_or, refl}
use pico2w_grbl_bridge.Floats.{Floats}
use pico2w_grbl_bridge.SharedState.Machine
use pico2w_grbl_bridge.SharedState.Console
use pico2w_grbl_bridge.SharedState.Filtered
use pico2w_grbl_bridge.SharedState.Shared
use pico2w_grbl_bridge.WifiConfig

-- Whole numbers of one digit, printed with as many zeros behind the point as asked for.
abbrev pub digits_only : Floats
digits_only = record {
  Real = ℕ;
  zero_real = b'0';
  subtract = λ a b. a;
  strtof = λ s. b'0';
  print = λ decimals x. x ∷ b'.' ∷ replicate decimals b'0';
}

-- A state with an alarm and a line in both logs, and all of its quotes.
abbrev pub alarmed : Shared ℕ
alarmed =
    let s : Shared ℕ = Shared.initial b'0' in
    record s {
      machine = record s.machine { status = codes "Alarm"; alarm = codes "\"X\" limit"; naxes = 2 };
      console = Console.push s.console (codes "say \"hi\"\\");
      filtered = Filtered.push s.filtered (codes "say \"hi\"\\");
    }

zeros : (n i : ℕ) → Prints digits_only 3 (get_or (replicate n b'0') i b'0')
unfolding is_number is_unsigned
zeros zero i = refl
zeros (suc n) zero = refl
zeros (suc n) (suc i) = zeros n i

pub alarmed-HasNumbers : HasNumbers digits_only alarmed.machine
unfolding Machine.init is_number
alarmed-HasNumbers = record {
  mpos_prints = zeros 6;
  wpos_prints = zeros 6;
  feed_prints = refl;
  speed_prints = refl;
  table_prints = refl;
  table_abs_prints = refl;
  servo_prints = refl;
}

pub alarmed-HasCleanTexts : HasCleanTexts digits_only alarmed.machine WifiConfig.initial
unfolding Machine.init
alarmed-HasCleanTexts = record {
  status_clean = (refl, refl, (refl, refl, (refl, refl, (refl, refl, (refl, refl, tt)))));
  wcs_clean = tt;
  ap_ssid_clean = tt;
}

pub alarmed-HasSizes : HasSizes digits_only alarmed WifiConfig.initial
unfolding quoted visible strncpy Machine.init Console.push Console.snapshot Console.copy_out
    Filtered.push Filtered.snapshot Filtered.copy_lines Filtered.copy_seqs
alarmed-HasSizes = record {
  status_within = omega arith;
  naxes_within = omega arith;
  alarm_within = omega arith;
  wcs_within = omega arith;
  ap_ssid_within = omega arith;
  last_status_within = omega arith;
  console_within = (omega arith, tt);
  filtered_within = (omega arith, tt);
  seqs_within = (omega arith, tt);
}
