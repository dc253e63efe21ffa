-- ===== src/UsbHost/Overlong.antt =====
-- Lines that do not fit the buffer.
use pico2w_grbl_bridge.Base.{ℕ, ◌≡◌, ◌∙◌, some, [], ◌∷◌, ◌++◌, arith, length, Bytes}
use pico2w_grbl_bridge.CString.Laws.{c_str_of_IsText}
use pico2w_grbl_bridge.UsbHost.{rx_byte, rx_bytes}
use pico2w_grbl_bridge.UsbHost.Lines.{IsPlain, IsPlain-IsText, rx_bytes-plain}

module _ {S : Type 0} (cb : Bytes → S → S) where
  rx_flush :
      (line rest : Bytes) (c : ℕ) (s : S)
      → IsPlain line
      → length line ≡ 255
      → IsPlain (c ∷ [])
      → rx_bytes (some cb) line s (c ∷ rest) ≡ rx_bytes (some cb) [] (cb line s) rest
  unfolding rx_bytes rx_byte
  rx_flush line rest c s p h q = ground (arith, c_str_of_IsText line (IsPlain-IsText line p))

  -- Of a line longer than 255 bytes the first 255 are handed on as a line, and the 256th is lost:
  -- the assembly goes on with the bytes behind it from an empty buffer, whatever that byte was. (The buffer
  -- was empty, and the 256 bytes hold no NUL, CR and LF.)
  pub rx_bytes_overlong :
      (line rest : Bytes) (c : ℕ) (s : S)
      → IsPlain line
      → length line ≡ 255
      → IsPlain (c ∷ [])
      → rx_bytes (some cb) [] s (line ++ (c ∷ rest)) ≡ rx_bytes (some cb) [] (cb line s) rest
  rx_bytes_overlong line rest c s p h q =
      rx_bytes-plain (some cb) line [] (c ∷ rest) s p (omega arith) ∙ rx_flush line rest c s p h q
