-- ===== src/BootRom/Write/Kv.antt =====
-- fruitchip-fw/src/boot_rom/write/kv.c: reading and writing a setting by its key.
use fruitchip.Common.{
  or_byte, is_complement, ℕ, true, List, [], ◌∷◌, ◌++◌, ◌&&◌, ◌==◌, if◌then◌else◌, leb, ltb, to_ℕ,
  is_nonzero, u8, u16, byte_of, map,
}
use fruitchip.Modchip.{
  cmd_kv_get, cmd_kv_set, result_ok, result_err, settings_menu_autoboot,
  settings_menu_autoboot_delay, settings_menu_autoboot_item_idx, settings_menu_osdsys_settings,
  settings_keys_total,
}
use fruitchip.Settings.{
  Settings, StoreWrite, wear_leveling_write, settings_set_menu_autoboot,
  settings_set_menu_autoboot_delay_sec, settings_set_menu_autoboot_item_idx,
  settings_set_menu_osdsys_options,
}
use fruitchip.Hal.{Memory, Hal}
use fruitchip.BootRom.Defs.{
  Source, KvSet, Chip, Effect, start_status_code, start_data_with_status_code, start_busy_code,
  stop_busy_code, store,
}
use fruitchip.BootRom.Write.Step.{count_byte, wait, finish}

-- The `switch` of `handle_write_kv_get`; another key leaves the response as it was.
unfoldable pub get_setting : ℕ → Settings → ℕ → ℕ
get_setting idx s response =
    if idx == settings_menu_autoboot
    then to_ℕ s.menu_autoboot
    else if idx == settings_menu_autoboot_delay
    then s.menu_autoboot_delay_sec
    else if idx == settings_menu_autoboot_item_idx
    then s.menu_autoboot_item_idx
    else if idx == settings_menu_osdsys_settings
    then s.menu_osdsys_options
    else response

-- The `switch` of `handle_write_kv_set`; the value is converted to each setter's parameter.
unfoldable pub set_setting : ℕ → ℕ → Settings → Settings × List StoreWrite
unfolding settings_set_menu_autoboot settings_set_menu_autoboot_delay_sec
    settings_set_menu_autoboot_item_idx settings_set_menu_osdsys_options
set_setting idx value s =
    if idx == settings_menu_autoboot
    then settings_set_menu_autoboot (is_nonzero value) s
    else if idx == settings_menu_autoboot_delay
    then settings_set_menu_autoboot_delay_sec (u16 value) s
    else if idx == settings_menu_autoboot_item_idx
    then settings_set_menu_autoboot_item_idx (u16 value) s
    else if idx == settings_menu_osdsys_settings
    then settings_set_menu_osdsys_options (u8 value) s
    else (s, [])

-- The block of byte 7 of `handle_write_kv_get`.
unfoldable pub answer_kv_get : Chip → Effect
answer_kv_get c =
    let k = c.kv_get in
    if is_complement 0xFFFF k.idx k.idx_xor && ltb k.idx settings_keys_total
    then (let response = get_setting k.idx c.settings k.response in
        finish (record c { kv_get = record k { response = response } })
          (start_data_with_status_code result_ok (Source.response_word response) 4 true ∷ []))
    else finish c (start_status_code result_err ∷ [])

unfoldable pub handle_write_kv_get : Chip → ℕ → Effect
handle_write_kv_get s w =
    let c = count_byte s in
    let k = c.kv_get in
    let n = c.cmd_byte_counter in
    if n == 3
    then (if w == byte_of cmd_kv_get 3 then wait c else finish c [])
    else if n == 4
    then wait (record c { kv_get = record k { idx = w } })
    else if n == 5
    then wait (record c { kv_get = record k { idx = or_byte k.idx w 8 } })
    else if n == 6
    then wait (record c { kv_get = record k { idx_xor = w } })
    else if n == 7
    then answer_kv_get (record c { kv_get = record k { idx_xor = or_byte k.idx_xor w 8 } })
    else finish c []

-- What the calls of the store do to the flash.
unfoldable pub store_all : Hal → List StoreWrite → Memory → Memory
store_all hal [] m = m
store_all hal (wear_leveling_write address value ∷ writes) m =
    store_all hal writes (hal.wear_leveling_write address value m)

-- The block of byte 15 of `handle_write_kv_set`.
unfoldable pub answer_kv_set : Hal → Chip → Effect
answer_kv_set hal c =
    let k = c.kv_set in
    if (is_complement 0xFFFF k.idx k.idx_xor && ltb k.idx settings_keys_total)
      && is_complement 0xFFFFFFFF k.value k.value_xor
    then (let (settings, writes) = set_setting k.idx k.value c.settings in
        finish (record c { settings = settings; memory = store_all hal writes c.memory })
          (start_busy_code ∷ (map store writes ++ stop_busy_code result_ok ∷ [])))
    else finish c (start_status_code result_err ∷ [])

-- The bytes 4 to 15 of the command, each into its field; `n` is the counter.
unfoldable pub take_kv_set_byte : KvSet → ℕ → ℕ → KvSet
take_kv_set_byte k n w =
    if n == 4
    then record k { idx = w }
    else if n == 5
    then record k { idx = or_byte k.idx w 8 }
    else if n == 6
    then record k { idx_xor = w }
    else if n == 7
    then record k { idx_xor = or_byte k.idx_xor w 8 }
    else if n == 8
    then record k { value = w }
    else if n == 9
    then record k { value = or_byte k.value w 8 }
    else if n == 10
    then record k { value = or_byte k.value w 16 }
    else if n == 11
    then record k { value = or_byte k.value w 24 }
    else if n == 12
    then record k { value_xor = w }
    else if n == 13
    then record k { value_xor = or_byte k.value_xor w 8 }
    else if n == 14
    then record k { value_xor = or_byte k.value_xor w 16 }
    else record k { value_xor = or_byte k.value_xor w 24 }

unfoldable pub handle_write_kv_set : Hal → Chip → ℕ → Effect
unfolding take_kv_set_byte
handle_write_kv_set hal s w =
    let c = count_byte s in
    let n = c.cmd_byte_counter in
    let taken = record c { kv_set = take_kv_set_byte c.kv_set n w } in
    if n == 3
    then (if w == byte_of cmd_kv_set 3 then wait c else finish c [])
    else if leb 4 n && leb n 14
    then wait taken
    else if n == 15
    then answer_kv_set hal taken
    else finish c []
