-- ===== src/Floats/Examples.antt =====
-- Numbers for the tests.
use pico2w_grbl_bridge.Base.{ℕ, ◌-◌, Bytes, length, replicate, suc}
use pico2w_grbl_bridge.Floats.{Floats}

abbrev pub show : ℕ → Bytes
show x = replicate (suc x) b'1'

-- Numbers in unary, with one stroke more than they count.
abbrev pub strokes : Floats
strokes = record {
  Real = ℕ;
  zero_real = 0;
  subtract = λ a b. a - b;
  strtof = λ s. length s - 1;
  print = λ decimals x. show x;
}
