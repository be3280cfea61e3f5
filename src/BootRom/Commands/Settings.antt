-- ===== src/BootRom/Commands/Settings.antt =====
-- Setting a key and reading it back through the two commands of kv.c.
use fruitchip.Common.{
  ℕ, zero, suc, true, List, [], ◌∷◌, ◌++◌, ◌^◌, ◌%◌, ◌<◌, ◌≡◌, ◌≢◌, refl, arith, ◌∙◌, ap, sym, to_ℕ,
  is_nonzero, bit_xor, lt→ltb, map,
}
use fruitchip.Common.Words.{sum_ones, xor_ones-lt}
use fruitchip.Modchip.{result_ok}
use fruitchip.Board.{Board}
use fruitchip.Hal.{Hal}
use fruitchip.Settings.{Settings}
use fruitchip.Host.Requests.{settings_get_request, settings_set_request}
use fruitchip.BootRom.Defs.{
  Call, Handler, Chip, Source, start_data_with_status_code, start_busy_code, stop_busy_code, store,
}
use fruitchip.BootRom.Write.Kv.{get_setting, set_setting, store_all}
use fruitchip.BootRom.Write.Idle.{write_bytes}
use fruitchip.BootRom.Commands.Kv.{kv_set-eq, kv_get-eq}

-- Every field fits its type.
pub record IsValid (s : Settings) : Type 0 where
  pub delay_fits : s.menu_autoboot_delay_sec < 2 ^ 16
  pub item_fits : s.menu_autoboot_item_idx < 2 ^ 8
  pub options_fit : s.menu_osdsys_options < 2 ^ 8

pub set_setting-IsValid :
    (key value : ℕ) (s : Settings) → IsValid s → IsValid (set_setting key value s).0
unfolding set_setting
set_setting-IsValid key value s v = ground arith

-- What is left of a value that is stored under a key: a truth value, 16 bits, or 8 bits.
abbrev pub kept : ℕ → ℕ → ℕ
kept zero value = to_ℕ (is_nonzero value)
kept (suc zero) value = value % 2 ^ 16
kept (suc (suc key)) value = value % 2 ^ 8

pub get_setting-set_setting :
    (key value response : ℕ) (s : Settings)
    → key < 4
    → IsValid s
    → get_setting key (set_setting key value s).0 response ≡ kept key value
unfolding get_setting set_setting
get_setting-set_setting zero value response s h v = ground arith
get_setting-set_setting (suc zero) value response s h v = ground arith
get_setting-set_setting (suc (suc zero)) value response s h v = ground arith
get_setting-set_setting (suc (suc (suc zero))) value response s h v = ground arith
get_setting-set_setting (suc (suc (suc (suc k)))) value response s h v = absurd (omega arith)

pub get_setting-set_setting_ne :
    (other key value response : ℕ) (s : Settings)
    → other ≢ key
    → get_setting other (set_setting key value s).0 response ≡ get_setting other s response
unfolding get_setting set_setting
get_setting-set_setting_ne other key value response s ne = ground arith

module _ (b : Board) (hal : Hal) (s : Chip) (idle : s.write_handler ≡ Handler.idle) where
  -- The console's request to set a key is accepted: it changes the settings and the memory as
  -- the key's setter does, and is answered by the busy code and then OK.
  pub settings_set_request-accepted :
      (key value : ℕ)
      → key < 4
      → value < 2 ^ 32
      → let (t, calls) = write_bytes b hal s (settings_set_request key value) in
        (t.write_handler ≡ Handler.idle)
        × (t.settings ≡ (set_setting key value s.settings).0)
        × (t.memory ≡ store_all hal (set_setting key value s.settings).1 s.memory)
        × (calls
            ≡ start_busy_code
              ∷ (map store (set_setting key value s.settings).1 ++ stop_busy_code result_ok ∷ []))
  settings_set_request-accepted key value h hv =
      rw
        (
          kv_set-eq b hal s idle key (bit_xor key 0xFFFF) value (bit_xor value 0xFFFFFFFF)
              (omega arith) (xor_ones-lt 16 key (omega arith)) hv (xor_ones-lt 32 value hv),
          sum_ones 16 key (omega arith),
          lt→ltb key 4 h,
          sum_ones 32 value hv,
        )
        (refl, refl, refl, refl)

  -- The console's request to read a key is answered by OK and the setting.
  pub settings_get_request-answer :
      (key : ℕ)
      → key < 4
      → (write_bytes b hal s (settings_get_request key)).1
        ≡ start_data_with_status_code result_ok
            (Source.response_word (get_setting key s.settings s.kv_get.response))
            4
            true
          ∷ []
  settings_get_request-answer key h =
      rw
        (
          kv_get-eq b hal s idle key (bit_xor key 0xFFFF) (omega arith)
              (xor_ones-lt 16 key (omega arith)),
          sum_ones 16 key (omega arith),
          lt→ltb key 4 h,
        )
        refl

-- A key in range always has its own answer.
get_setting_response :
    (key r r' : ℕ) (s : Settings) → key < 4 → get_setting key s r ≡ get_setting key s r'
unfolding get_setting
get_setting_response key r r' s h = ground arith

module _ (b : Board) (hal : Hal) (s : Chip) (idle : s.write_handler ≡ Handler.idle) where
  -- A value set by the console is read back by the console, cut to the width of its key; every
  -- other key reads as before. The chip is between two commands, and its settings fit their types.
  pub settings_get-settings_set :
      (key value : ℕ)
      → key < 4
      → value < 2 ^ 32
      → IsValid s.settings
      → let t = (write_bytes b hal s (settings_set_request key value)).0 in
        ((write_bytes b hal t (settings_get_request key)).1
          ≡ start_data_with_status_code result_ok (Source.response_word (kept key value)) 4 true
            ∷ [])
        × ((other : ℕ)
            → other < 4
            → other ≢ key
            → (write_bytes b hal t (settings_get_request other)).1
              ≡ (write_bytes b hal s (settings_get_request other)).1)
  settings_get-settings_set key value h hv valid = (
    settings_get_request-answer b hal t accepted.0 key h
        ∙ ap answer (
            rw accepted.1 (get_setting-set_setting key value t.kv_get.response s.settings h valid)),
    λ other ho ne.
        settings_get_request-answer b hal t accepted.0 other ho
        ∙ ap answer (
            rw accepted.1 (
              get_setting-set_setting_ne other key value t.kv_get.response s.settings ne
              ∙ get_setting_response other t.kv_get.response s.kv_get.response s.settings ho))
        ∙ sym (settings_get_request-answer b hal s idle other ho),
  )
    where
      t : Chip
      t = (write_bytes b hal s (settings_set_request key value)).0

      accepted :
          (t.write_handler ≡ Handler.idle) × (t.settings ≡ (set_setting key value s.settings).0)
      accepted =
          let all = settings_set_request-accepted b hal s idle key value h hv in (all.0, all.1)

      answer : ℕ → List Call
      answer v = start_data_with_status_code result_ok (Source.response_word v) 4 true ∷ []
