-- ===== src/Floats.antt =====
-- `float` and what the firmware calls on it, as an interface: the programs' results never depend
-- on how the machine rounds, so its numbers are a parameter of the model.
pub mod Examples
use pico2w_grbl_bridge.Base.{ℕ, Bytes}

pub record Floats : Type 1 where
  pub Real : Type 0
  -- the constant 0.0f
  pub zero_real : Real
  -- `a - b`
  pub subtract : Real → Real → Real
  -- `strtof(s, NULL)`
  pub strtof : Bytes → Real
  -- `%.*f`, with the number of decimals
  pub print : ℕ → Real → Bytes
