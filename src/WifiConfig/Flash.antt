-- ===== src/WifiConfig/Flash.antt =====
-- The credentials in flash, of src/wifi_config.c.
pub mod Roundtrip
pub mod Checksum
mod Tests
use Prim.Native.Nat.{bit_and, bit_xor}
use pico2w_grbl_bridge.Base.{
  ℕ, zero, suc, ◌+◌, ◌-◌, ◌/◌, ◌%◌, ◌^◌, Bool, true, false, not, Option, none, some, [], ◌∷◌, ◌++◌,
  length, replicate, ◌==◌, if◌then◌else◌, Bytes,
}
use pico2w_grbl_bridge.CString.{strncpy}
use pico2w_grbl_bridge.WifiConfig.{Credentials, wifi_ssid_max_len, wifi_pass_max_len}

abbrev pub wifi_cfg_magic : ℕ
wifi_cfg_magic = 0x57494669

-- One round of the inner loop: `-(crc & 1u)` is taken in 32 bits.
unfoldable pub crc_bit : ℕ → ℕ
crc_bit crc =
    let mask : ℕ = (2 ^ 32 - crc % 2) % 2 ^ 32 in bit_xor (crc / 2) (bit_and 0xEDB88320 mask)

-- the inner loop, with that many rounds
unfoldable pub crc_bits : ℕ → ℕ → ℕ
unfolding crc_bit
crc_bits zero crc = crc
crc_bits (suc n) crc = crc_bits n (crc_bit crc)

-- the outer loop
unfoldable pub crc_from : ℕ → Bytes → ℕ
unfolding crc_bits
crc_from crc [] = crc
crc_from crc (c ∷ data_) = crc_from (crc_bits 8 (bit_xor crc c)) data_

unfoldable pub crc32_calc : Bytes → ℕ
unfolding crc_from
crc32_calc data_ = 0xFFFFFFFF - crc_from 0xFFFFFFFF data_

-- `wifi_cfg_record_t`, with all 33 bytes of `ssid` and all 65 of `password`
pub record CfgRecord : Type 0 where
  pub magic : ℕ
  pub ssid : Bytes
  pub password : Bytes
  pub crc32 : ℕ

-- the bytes that the checksum is over
abbrev pub checked : CfgRecord → Bytes
checked rec = rec.ssid ++ rec.password

-- The end of `wifi_config_load`. `none` is `false`, whose `out` no caller reads.
abbrev pub usable : Credentials → Option Credentials
usable out = if length out.ssid == 0 then none else some out

-- `wifi_config_load`, from what flash holds
unfoldable pub wifi_config_load : CfgRecord → Option Credentials
unfolding crc32_calc strncpy
wifi_config_load rec =
    if not (rec.magic == wifi_cfg_magic)
    then none
    else if not (crc32_calc (checked rec) == rec.crc32)
    then none
    else usable (record {
      ssid = strncpy wifi_ssid_max_len rec.ssid;
      password = strncpy wifi_pass_max_len rec.password;
    })

-- a zeroed array of that size and one byte more, after `strncpy` of at most that size
unfoldable pub filled : ℕ → Bytes → Bytes
unfolding strncpy
filled size src = let s : Bytes = strncpy size src in s ++ replicate (size + 1 - length s) 0

-- the record that `wifi_config_save` writes
unfoldable pub record_of : Credentials → CfgRecord
unfolding filled crc32_calc
record_of creds =
    let ssid : Bytes = filled wifi_ssid_max_len creds.ssid in
    let password : Bytes = filled wifi_pass_max_len creds.password in
    record {
      magic = wifi_cfg_magic;
      ssid = ssid;
      password = password;
      crc32 = crc32_calc (ssid ++ password);
    }

-- What `flash_safe_execute` does: whether it calls the function, and whether it returns `PICO_OK`.
pub record Execute : Type 0 where
  pub called : Bool
  pub ok : Bool

-- `do_flash_write`: the sector is erased and the page that holds the record is programmed.
abbrev pub do_flash_write : CfgRecord → CfgRecord → CfgRecord
do_flash_write page flash = page

-- `wifi_config_save`: what flash holds then, and what is returned
unfoldable pub wifi_config_save : Execute → Credentials → CfgRecord → CfgRecord × Bool
unfolding record_of
wifi_config_save x creds flash =
    (if x.called then do_flash_write (record_of creds) flash else flash, x.ok)

-- `wifi_config_apply_and_reboot`: what flash holds at the next start
unfoldable pub apply_and_reboot : Execute → Credentials → CfgRecord → CfgRecord
unfolding wifi_config_save
apply_and_reboot x creds flash = (wifi_config_save x creds flash).0
