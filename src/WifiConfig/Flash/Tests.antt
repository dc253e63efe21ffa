-- ===== src/WifiConfig/Flash/Tests.antt =====
-- Tests of the record in flash.
use pico2w_grbl_bridge.Base.{◌≡◌, refl, none, codes, arith}
use pico2w_grbl_bridge.WifiConfig.Flash.{CfgRecord, crc32_calc, wifi_config_load}
use pico2w_grbl_bridge.WifiConfig.Flash.Checksum.{load_damaged}

-- the check value that is published for this checksum
check_value : crc32_calc (codes "123456789") ≡ 0xCBF43926
unfolding crc32_calc
check_value = refl

abbrev home : CfgRecord
home = record { magic = 0x57494669; ssid = codes "ab"; password = codes "cd"; crc32 = 0xED82CD11 }

abbrev damaged : CfgRecord
damaged = record {
  magic = 0x57494669;
  ssid = codes "ab";
  password = codes "xd";
  crc32 = 0xED82CD11;
}

home_is_right : crc32_calc (codes "abcd") ≡ 0xED82CD11
unfolding crc32_calc
home_is_right = refl

load_damaged_example : wifi_config_load damaged ≡ none
load_damaged_example =
    load_damaged home damaged (codes "ab") (codes "d") b'c' b'x' home_is_right refl refl refl
      (omega arith) (omega arith) (omega arith)
