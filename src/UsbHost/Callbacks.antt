-- ===== src/UsbHost/Callbacks.antt =====
-- What a line callback keeps, the receive callback keeps.
use pico2w_grbl_bridge.Base.{ℕ, some, List, [], ◌∷◌, arith, Bytes}
use pico2w_grbl_bridge.CString.{c_str}
use pico2w_grbl_bridge.UsbHost.{Usb, rx_byte, rx_bytes, rx_reads, cdc_rx_cb}

module _ {S : Type 0} (P : S → Type 0) (cb : Bytes → S → S)
    (keep : (line : Bytes) (s : S) → P s → P (cb line s)) where
  rx_byte_inv : (line : Bytes) (s : S) (c : ℕ) → P s → P (rx_byte (some cb) line s c).1
  unfolding rx_byte
  rx_byte_inv line s c p = ground (arith, keep (c_str line) s p)

  rx_bytes_inv : (xs line : Bytes) (s : S) → P s → P (rx_bytes (some cb) line s xs).1
  unfolding rx_bytes
  rx_bytes_inv [] line s p = p
  rx_bytes_inv (x ∷ xs) line s p =
      let (line', s') = rx_byte (some cb) line s x in
      rx_bytes_inv xs line' s' (rx_byte_inv line s x p)

  rx_reads_inv :
      (reads : List Bytes) (line : Bytes) (s : S) → P s → P (rx_reads (some cb) line s reads).1
  unfolding rx_reads
  rx_reads_inv [] line s p = p
  rx_reads_inv ([] ∷ reads) line s p = p
  rx_reads_inv ((c ∷ cs) ∷ reads) line s p =
      let (line', s') = rx_bytes (some cb) line s (c ∷ cs) in
      rx_reads_inv reads line' s' (rx_bytes_inv (c ∷ cs) line s p)

  pub cdc_rx_cb_inv :
      (idx : ℕ) (reads : List Bytes) (u : Usb) (s : S)
      → P s
      → P (cdc_rx_cb (some cb) idx reads u s).1
  unfolding cdc_rx_cb
  cdc_rx_cb_inv idx reads u s p = ground (arith, p, rx_reads_inv reads u.line s p)
