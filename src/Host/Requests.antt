-- ===== src/Host/Requests.antt =====
-- What the functions of fruitchip-include/modchip poke on the bus before they peek an answer.
use fruitchip.Common.{ℕ, Bool, List, [], ◌∷◌, ◌++◌, to_ℕ, u8, bytes16, bytes32, bit_xor}
use fruitchip.Modchip.{
  cmd_kv_get, cmd_kv_set, cmd_read_ee_stage3, cmd_read_app, cmd_write_lock, cmd_get_partition_size,
  cmd_write_flash_sector, cmd_erase_flash_sector, cmd_reboot, cmd_pin_config,
}

-- io.h; the bytes of a word leave in the order of a little-endian memory.
abbrev pub modchip_poke_u8 : ℕ → List ℕ
modchip_poke_u8 byte = u8 byte ∷ []

abbrev pub modchip_poke_u16 : ℕ → List ℕ
modchip_poke_u16 v = bytes16 v

abbrev pub modchip_poke_u32 : ℕ → List ℕ
modchip_poke_u32 v = bytes32 v

-- settings.h
abbrev pub settings_get_request : ℕ → List ℕ
settings_get_request key =
    modchip_poke_u32 cmd_kv_get ++ (modchip_poke_u16 key ++ modchip_poke_u16 (bit_xor key 0xFFFF))

abbrev pub settings_set_request : ℕ → ℕ → List ℕ
settings_set_request key value =
    modchip_poke_u32 cmd_kv_set
    ++ (modchip_poke_u16 key
        ++ (modchip_poke_u16 (bit_xor key 0xFFFF)
            ++ (modchip_poke_u32 value ++ modchip_poke_u32 (bit_xor value 0xFFFFFFFF))))

-- apps.h
abbrev pub stage3_read_request : ℕ → ℕ → Bool → List ℕ
stage3_read_request offset size with_crc =
    modchip_poke_u32 cmd_read_ee_stage3
    ++ (modchip_poke_u32 offset
        ++ (modchip_poke_u32 (bit_xor offset 0xFFFFFFFF)
            ++ (modchip_poke_u32 size
                ++ (modchip_poke_u32 (bit_xor size 0xFFFFFFFF)
                    ++ (modchip_poke_u8 (to_ℕ with_crc)
                        ++ modchip_poke_u8 (bit_xor (to_ℕ with_crc) 0xFF))))))

abbrev pub apps_read_request : ℕ → ℕ → ℕ → Bool → List ℕ
apps_read_request offset size app_idx with_crc =
    modchip_poke_u32 cmd_read_app
    ++ (modchip_poke_u8 app_idx
        ++ (modchip_poke_u8 (bit_xor app_idx 0xFF)
            ++ (modchip_poke_u32 offset
                ++ (modchip_poke_u32 (bit_xor offset 0xFFFFFFFF)
                    ++ (modchip_poke_u32 size
                        ++ (modchip_poke_u32 (bit_xor size 0xFFFFFFFF)
                            ++ (modchip_poke_u8 (to_ℕ with_crc)
                                ++ modchip_poke_u8 (bit_xor (to_ℕ with_crc) 0xFF))))))))

-- flash.h
abbrev pub get_partition_size_request : ℕ → List ℕ
get_partition_size_request idx =
    modchip_poke_u32 cmd_get_partition_size
    ++ (modchip_poke_u8 idx ++ modchip_poke_u8 (bit_xor idx 0xFF))

abbrev pub set_write_lock_request : Bool → List ℕ
set_write_lock_request lock =
    modchip_poke_u32 cmd_write_lock
    ++ (modchip_poke_u8 (to_ℕ lock) ++ modchip_poke_u8 (bit_xor (to_ℕ lock) 0xFF))

abbrev pub poke_sector : List ℕ → List ℕ
poke_sector [] = []
poke_sector (x ∷ xs) = modchip_poke_u8 x ++ poke_sector xs

abbrev pub write_flash_sector_request : ℕ → ℕ → ℕ → List ℕ → List ℕ
write_flash_sector_request partition_idx sector_idx sector_crc sector =
    modchip_poke_u32 cmd_write_flash_sector
    ++ (modchip_poke_u8 partition_idx
        ++ (modchip_poke_u8 (bit_xor partition_idx 0xFF)
            ++ (modchip_poke_u32 sector_idx
                ++ (modchip_poke_u32 (bit_xor sector_idx 0xFFFFFFFF)
                    ++ (modchip_poke_u32 sector_crc
                        ++ (modchip_poke_u32 (bit_xor sector_crc 0xFFFFFFFF)
                            ++ poke_sector sector))))))

abbrev pub erase_flash_sector_request : ℕ → ℕ → ℕ → List ℕ
erase_flash_sector_request partition_idx sector_idx sector_count =
    modchip_poke_u32 cmd_erase_flash_sector
    ++ (modchip_poke_u8 partition_idx
        ++ (modchip_poke_u8 (bit_xor partition_idx 0xFF)
            ++ (modchip_poke_u32 sector_idx
                ++ (modchip_poke_u32 (bit_xor sector_idx 0xFFFFFFFF)
                    ++ (modchip_poke_u32 sector_count
                        ++ modchip_poke_u32 (bit_xor sector_count 0xFFFFFFFF))))))

abbrev pub reboot_request : ℕ → List ℕ
reboot_request mode =
    modchip_poke_u32 cmd_reboot ++ (modchip_poke_u8 mode ++ modchip_poke_u8 (bit_xor mode 0xFF))

-- config.h
abbrev pub pin_config_request : ℕ → List ℕ
pin_config_request pin =
    modchip_poke_u32 cmd_pin_config ++ (modchip_poke_u8 pin ++ modchip_poke_u8 (bit_xor pin 0xFF))
