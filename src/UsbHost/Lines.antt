-- ===== src/UsbHost/Lines.antt =====
-- Line assembly: what the byte stream from grblHAL becomes.
use pico2w_grbl_bridge.Base.{
  sym, ◌∙◌, ap, some, ℕ, ◌+◌, ◌≤◌, ◌<◌, ◌≡◌, ◌≢◌, refl, Option, List, [], ◌∷◌, ◌++◌, arith, length,
  length-append, append-nil, append_assoc, Bytes,
}
use pico2w_grbl_bridge.CString.Laws.{c_str_of_IsText, IsText}
use pico2w_grbl_bridge.UsbHost.{Usb, cdc_rx_cb, rx_reads, rx_byte, rx_bytes}

-- Bytes of a line: no NUL, no CR, no LF.
abbrev pub IsPlain : Bytes → Type 0
IsPlain [] = Unit
IsPlain (c ∷ cs) = ((c ≢ 0) × (c ≢ b'\r') × (c ≢ b'\n')) × IsPlain cs

-- A line that the buffer can hold.
abbrev pub Fits : Bytes → Type 0
Fits line = IsPlain line × (0 < length line) × (length line ≤ 255)

abbrev pub AllFit : List Bytes → Type 0
AllFit [] = Unit
AllFit (line ∷ lines) = Fits line × AllFit lines

-- The bytes that grblHAL sends for these lines.
unfoldable pub send : List Bytes → Bytes
send [] = []
send (line ∷ lines) = line ++ (b'\r' ∷ b'\n' ∷ send lines)

-- the pieces in which the reads hand over the bytes
abbrev pub joined : List Bytes → Bytes
joined [] = []
joined (piece ∷ pieces) = piece ++ joined pieces

abbrev pub NoneEmpty : List Bytes → Type 0
NoneEmpty [] = Unit
NoneEmpty (piece ∷ pieces) = (piece ≢ []) × NoneEmpty pieces

-- the line callback on each of `lines`
unfoldable pub deliver_all : {S : Type 0} → (Bytes → S → S) → List Bytes → S → S
deliver_all cb [] s = s
deliver_all cb (line ∷ lines) s = deliver_all cb lines (cb line s)

pub IsPlain-IsText : (cs : Bytes) → IsPlain cs → IsText cs
IsPlain-IsText [] h = tt
IsPlain-IsText (c ∷ cs) h = (h.0.0, IsPlain-IsText cs h.1)

module _ {S : Type 0} (line_cb : Option (Bytes → S → S)) where
  -- Feeding two pieces one after the other is feeding them as one.
  pub rx_bytes-append :
      (xs ys line : Bytes) (s : S)
      → rx_bytes line_cb line s (xs ++ ys)
        ≡ (let (line', s') = rx_bytes line_cb line s xs in rx_bytes line_cb line' s' ys)
  unfolding rx_bytes
  rx_bytes-append [] ys line s = refl
  rx_bytes-append (x ∷ xs) ys line s =
      let (line', s') = rx_byte line_cb line s x in rx_bytes-append xs ys line' s'

  -- Plain bytes that fit are stored.
  pub rx_bytes-plain :
      (xs line rest : Bytes) (s : S)
      → IsPlain xs
      → length line + length xs ≤ 255
      → rx_bytes line_cb line s (xs ++ rest) ≡ rx_bytes line_cb (line ++ xs) s rest
  unfolding rx_bytes rx_byte
  rx_bytes-plain [] line rest s p h = rw append-nil
  rx_bytes-plain (x ∷ xs) line rest s p h = ground (
    arith,
    length-append line (x ∷ []),
    append_assoc line (x ∷ []) xs,
    rx_bytes-plain xs (line ++ (x ∷ [])) rest s,
  )

  length-rx_byte :
      (line : Bytes) (s : S) (x : ℕ) → length line ≤ 255 → length (rx_byte line_cb line s x).0 ≤ 255
  unfolding rx_byte
  length-rx_byte line s x h = ground (arith, length-append line (x ∷ []))

  -- What a read leaves in the buffer does not depend on how the bytes come in pieces.
  pub rx_reads-joined :
      (reads : List Bytes) (line : Bytes) (s : S)
      → NoneEmpty reads
      → rx_reads line_cb line s reads ≡ rx_bytes line_cb line s (joined reads)
  unfolding rx_reads rx_bytes
  rx_reads-joined [] line s h = refl
  rx_reads-joined ([] ∷ reads) line s h = absurd (h.0 refl)
  rx_reads-joined ((c ∷ cs) ∷ reads) line s h =
      let (line', s') = rx_bytes line_cb line s (c ∷ cs) in
      rx_reads-joined reads line' s' h.1 ∙ sym (rx_bytes-append (c ∷ cs) (joined reads) line s)

  -- The line buffer never takes more than 255 bytes, so the NUL behind them is inside it.
  pub length-rx_bytes :
      (xs line : Bytes) (s : S) → length line ≤ 255 → length (rx_bytes line_cb line s xs).0 ≤ 255
  unfolding rx_bytes
  length-rx_bytes [] line s h = h
  length-rx_bytes (x ∷ xs) line s h =
      let (line', s') = rx_byte line_cb line s x in
      length-rx_bytes xs line' s' (length-rx_byte line s x h)

  length-rx_reads :
      (reads : List Bytes) (line : Bytes) (s : S)
      → length line ≤ 255
      → length (rx_reads line_cb line s reads).0 ≤ 255
  unfolding rx_reads
  length-rx_reads [] line s h = h
  length-rx_reads ([] ∷ reads) line s h = h
  length-rx_reads ((c ∷ cs) ∷ reads) line s h =
      let (line', s') = rx_bytes line_cb line s (c ∷ cs) in
      length-rx_reads reads line' s' (length-rx_bytes (c ∷ cs) line s h)

  -- Whatever the device sends, the line buffer of 256 bytes is never overrun: after any callback
  -- at most 255 bytes are stored if at most 255 were before.
  pub length-cdc_rx_cb :
      (idx : ℕ) (reads : List Bytes) (u : Usb) (s : S)
      → length u.line ≤ 255
      → length (cdc_rx_cb line_cb idx reads u s).0.line ≤ 255
  unfolding cdc_rx_cb
  length-cdc_rx_cb idx reads u s h = ground (arith, length-rx_reads reads u.line s h)

module _ {S : Type 0} (cb : Bytes → S → S) where
  rx_newline :
      (line rest : Bytes) (s : S)
      → Fits line
      → rx_bytes (some cb) line s (b'\r' ∷ b'\n' ∷ rest) ≡ rx_bytes (some cb) [] (cb line s) rest
  unfolding rx_bytes rx_byte
  rx_newline line rest s h = ground (arith, c_str_of_IsText line (IsPlain-IsText line h.0))

  rx_bytes-send :
      (lines : List Bytes) (s : S)
      → AllFit lines
      → rx_bytes (some cb) [] s (send lines) ≡ ([], deliver_all cb lines s)
  unfolding send deliver_all rx_bytes
  rx_bytes-send [] s h = refl
  rx_bytes-send (line ∷ lines) s h =
      rx_bytes-plain (some cb) line [] (b'\r' ∷ b'\n' ∷ send lines) s h.0.0 (omega arith)
      ∙ rx_newline line (send lines) s h.0
      ∙ rx_bytes-send lines (cb line s) h.1

  -- Lines of 1 to 255 bytes without NUL, CR and LF, sent with "\r\n" behind each, reach the line
  -- callback exactly as they were sent, in order and once each, however the reads cut the bytes
  -- into pieces, and the line buffer is empty behind them. (The device is the tracked one, and the
  -- buffer was empty.)
  pub cdc_rx_cb-send :
      (idx : ℕ) (lines reads : List Bytes) (u : Usb) (s : S)
      → AllFit lines
      → NoneEmpty reads
      → joined reads ≡ send lines
      → u.mounted_idx ≡ idx
      → u.line ≡ []
      → cdc_rx_cb (some cb) idx reads u s ≡ (u, deliver_all cb lines s)
  unfolding cdc_rx_cb
  cdc_rx_cb-send idx lines reads u s fit full e tracked empty = ground (arith, received)
    where
      received : rx_reads (some cb) u.line s reads ≡ ([], deliver_all cb lines s)
      received =
          ap (λ line. rx_reads (some cb) line s reads) empty
          ∙ rx_reads-joined (some cb) reads [] s full
          ∙ ap (rx_bytes (some cb) [] s) e
          ∙ rx_bytes-send lines s fit
