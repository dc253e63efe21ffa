-- ===== src/UsbHost.antt =====
-- src/usb_host_cdc.c: the USB-host CDC link. TinyUSB's answers are arguments: what `tuh_cdc_read`
-- returns, how many bytes `tuh_cdc_write` takes, whether `tuh_cdc_mounted` holds. The callbacks act
-- on a state `S` of the client. Messages on the debug console are left out.
pub mod Lines
pub mod Overlong
pub mod Mount
pub mod Callbacks
mod Tests
use pico2w_grbl_bridge.Base.{
  ℕ, ◌+◌, ◌-◌, Bool, true, false, not, ◌&&◌, Option, none, some, List, [], ◌∷◌, ◌++◌, length, take,
  ltb, ◌==◌, if◌then◌else◌, Bytes,
}
use pico2w_grbl_bridge.CString.{c_str}

abbrev pub line_buf_len : ℕ
line_buf_len = 256

abbrev pub no_idx : ℕ
no_idx = 0xff

-- `mounted_idx`, and the first `line_len` bytes of `line_buf`: `line_len` is the length of `line`.
pub record Usb : Type 0 where
  pub mounted_idx : ℕ
  pub line : Bytes

abbrev pub initial : Usb
initial = record { mounted_idx = no_idx; line = [] }

-- `usb_host_cdc_is_mounted`, for what `tuh_cdc_mounted(mounted_idx)` answers
unfoldable pub is_mounted : Usb → Bool → Bool
is_mounted u cdc_mounted = not (u.mounted_idx == no_idx) && cdc_mounted

-- `usb_host_cdc_write`, for the number of bytes that `tuh_cdc_write` takes: the return value, and
-- the bytes that leave for the device.
unfoldable pub write : Usb → Bool → ℕ → Bytes → Bool × Bytes
unfolding is_mounted
write u cdc_mounted written bytes =
    if not (is_mounted u cdc_mounted)
    then (false, [])
    else (written == length bytes, take written bytes)

module _ {S : Type 0} where
  -- `if (cb) cb(arg);`
  abbrev pub call {ℓ} : {A : Type ℓ} → Option (A → S → S) → A → S → S
  call none a s = s
  call (some cb) a s = cb a s

  -- `tuh_cdc_mount_cb`
  unfoldable pub cdc_mount_cb : Option (Bool → S → S) → ℕ → Usb → S → Usb × S
  cdc_mount_cb mount_cb idx u s =
      if u.mounted_idx == no_idx
      then (record u { mounted_idx = idx; line = [] }, call mount_cb true s)
      else (u, s)

  -- `tuh_cdc_umount_cb`
  unfoldable pub cdc_umount_cb : Option (Bool → S → S) → ℕ → Usb → S → Usb × S
  cdc_umount_cb mount_cb idx u s =
      if idx == u.mounted_idx
      then (record u { mounted_idx = no_idx; line = [] }, call mount_cb false s)
      else (u, s)

  -- the body of the `for` loop of `tuh_cdc_rx_cb`: the line buffer and the client's state behind it
  unfoldable pub rx_byte : Option (Bytes → S → S) → Bytes → S → ℕ → Bytes × S
  rx_byte line_cb line s c =
      if c == b'\r'
      then (line, s)
      else if c == b'\n'
      then ([], (if ltb 0 (length line) then call line_cb (c_str line) s else s))
      else if ltb (length line) (line_buf_len - 1)
      then (line ++ (c ∷ []), s)
      else ([], call line_cb (c_str line) s)

  -- the `for` loop, over the bytes of one read
  unfoldable pub rx_bytes : Option (Bytes → S → S) → Bytes → S → Bytes → Bytes × S
  rx_bytes line_cb line s [] = (line, s)
  rx_bytes line_cb line s (c ∷ cs) =
      let (line', s') = rx_byte line_cb line s c in rx_bytes line_cb line' s' cs

  -- the `while` loop, over what each `tuh_cdc_read` returns: it ends at the first empty read
  unfoldable pub rx_reads : Option (Bytes → S → S) → Bytes → S → List Bytes → Bytes × S
  rx_reads line_cb line s [] = (line, s)
  rx_reads line_cb line s ([] ∷ reads) = (line, s)
  rx_reads line_cb line s ((c ∷ cs) ∷ reads) =
      let (line', s') = rx_bytes line_cb line s (c ∷ cs) in rx_reads line_cb line' s' reads

  -- `tuh_cdc_rx_cb`
  unfoldable pub cdc_rx_cb : Option (Bytes → S → S) → ℕ → List Bytes → Usb → S → Usb × S
  unfolding rx_reads rx_bytes rx_byte
  cdc_rx_cb line_cb idx reads u s =
      let (line', s') = rx_reads line_cb u.line s reads in
      if not (idx == u.mounted_idx) then (u, s) else (record u { line = line' }, s')
