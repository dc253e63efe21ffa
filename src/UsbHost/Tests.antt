-- ===== src/UsbHost/Tests.antt =====
-- Tests of the USB link.
use pico2w_grbl_bridge.Base.{
  ◌≤◌, ◌≡◌, refl, not, some, List, [], ◌∷◌, ◌++◌, arith, length, replicate, ◌==◌, codes, Bytes,
}
use pico2w_grbl_bridge.CString.{c_str}
use pico2w_grbl_bridge.UsbHost.{Usb, initial, rx_bytes, cdc_rx_cb}
use pico2w_grbl_bridge.UsbHost.Lines.{send, deliver_all, length-cdc_rx_cb, cdc_rx_cb-send}
use pico2w_grbl_bridge.UsbHost.Overlong.{rx_bytes_overlong}
use pico2w_grbl_bridge.UsbHost.Mount.{Event, mount, umount, Alternates, run, run-Alternates-initial}

abbrev tracked : Usb
tracked = record initial { mounted_idx = 0 }

abbrev note : Bytes → List Bytes → List Bytes
note line log = line ∷ log

abbrev reads : List Bytes
reads = codes "ok\r\n<Id" ∷ codes "le>\r\n" ∷ []

received : cdc_rx_cb (some note) 0 reads tracked [] ≡ (tracked, codes "<Idle>" ∷ codes "ok" ∷ [])
unfolding cdc_rx_cb c_str
received = refl

cdc_rx_cb-send_example :
    cdc_rx_cb (some note) 0 reads tracked []
    ≡ (tracked, deliver_all note (codes "ok" ∷ codes "<Idle>" ∷ []) [])
unfolding send
cdc_rx_cb-send_example =
    cdc_rx_cb-send note 0 (codes "ok" ∷ codes "<Idle>" ∷ []) reads tracked [] (omega arith)
      ((λ e. cc), ((λ e. cc), tt)) refl refl refl

length-cdc_rx_cb_example : length (cdc_rx_cb (some note) 0 reads tracked []).0.line ≤ 255
length-cdc_rx_cb_example = length-cdc_rx_cb (some note) 0 reads tracked [] (omega arith)

abbrev long_line : Bytes
long_line = replicate 255 b'x'

rx_bytes_overlong_example :
    rx_bytes (some note) [] [] (long_line ++ (b'y' ∷ codes "z\n"))
    ≡ rx_bytes (some note) [] (long_line ∷ []) (codes "z\n")
rx_bytes_overlong_example =
    rx_bytes_overlong note long_line (codes "z\n") b'y' [] (omega arith) refl (omega arith)

abbrev events : List Event
events = mount 1 ∷ mount 2 ∷ umount 2 ∷ umount 1 ∷ []

run-Alternates-initial_example :
    let (u, log) = run events initial [] in Alternates log (not (u.mounted_idx == 0xff))
run-Alternates-initial_example = run-Alternates-initial events (omega arith)
