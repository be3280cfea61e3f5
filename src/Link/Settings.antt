-- ===== src/Link/Settings.antt =====
-- fruitchip-include/modchip/settings.h against the firmware.
use fruitchip.Common.{
  ℕ, Bool, true, List, [], ◌∷◌, ◌++◌, ◌^◌, ◌<◌, ◌≡◌, refl, arith, ◌∙◌, ap, bytes16, bytes32,
  bit_xor, byte_of, some, ◌==◌, map, ==-refl, if◌then◌else◌, false,
}
use fruitchip.Crc32.Bounds.{crc32_from-lt}
use fruitchip.Common.Words.{word32-byte_of}
use fruitchip.Modchip.{cmd_kv_get, cmd_kv_set, result_ok}
use fruitchip.Board.{Board}
use fruitchip.Hal.{Memory, Hal}
use fruitchip.Settings.{StoreWrite}
use fruitchip.Host.Requests.{settings_get_request, settings_set_request}
use fruitchip.Host.Bus.{poke, return, wait_while_busy}
use fruitchip.Host.Settings.{modchip_settings_get, modchip_settings_set, peek_checked_word}
use fruitchip.Crc32.{crc32}
use fruitchip.BootRom.Defs.{
  Call, Handler, Chip, Source, Effect, start_data_with_status_code, store, start_busy_code,
  stop_busy_code,
}
use fruitchip.BootRom.Write.Kv.{handle_write_kv_set, handle_write_kv_get, get_setting, set_setting}
use fruitchip.BootRom.Write.Idle.{write_bytes, group0_handler}
use fruitchip.BootRom.Commands.Start.{write_bytes-group0}
use fruitchip.BootRom.Commands.Settings.{settings_set_request-accepted, settings_get_request-answer}
use fruitchip.Link.{World, Device, bus, device_of, quiet, busy_words, call_bytes}
use fruitchip.Link.Pokes.{poke_request, busy_word_ends}

module _ (b : Board) (hal : Hal) (s : Chip) (idle : s.write_handler ≡ Handler.idle) where
  kv_set_silent :
      (i0 i1 j0 j1 v0 v1 v2 v3 y0 y1 y2 : ℕ)
      → (write_bytes b hal s
          (bytes32 cmd_kv_set ++ i0 ∷ i1 ∷ j0 ∷ j1 ∷ v0 ∷ v1 ∷ v2 ∷ v3 ∷ y0 ∷ y1 ∷ y2 ∷ [])).1
        ≡ []
  unfolding write_bytes handle_write_kv_set group0_handler
  kv_set_silent i0 i1 j0 j1 v0 v1 v2 v3 y0 y1 y2 =
      ap (λ e. e.1)
        (write_bytes-group0 b hal s 0xb1
          (0x40 ∷ i0 ∷ i1 ∷ j0 ∷ j1 ∷ v0 ∷ v1 ∷ v2 ∷ v3 ∷ y0 ∷ y1 ∷ y2 ∷ []) idle)

  kv_get_silent :
      (i0 i1 j0 : ℕ) → (write_bytes b hal s (bytes32 cmd_kv_get ++ i0 ∷ i1 ∷ j0 ∷ [])).1 ≡ []
  unfolding write_bytes handle_write_kv_get group0_handler
  kv_get_silent i0 i1 j0 =
      ap (λ e. e.1) (write_bytes-group0 b hal s 0x27 (0x1d ∷ i0 ∷ i1 ∷ j0 ∷ []) idle)

-- The checksum hardware computes what the console computes.
abbrev pub ComputesCrc : Hal → Type 0
ComputesCrc hal = (xs : List ℕ) → hal.sniff_crc32 xs 0xFFFFFFFF ≡ crc32 xs

module _ (b : Board) (hal : Hal) (world : World) (computes : ComputesCrc hal) where
  -- A word and its checksum are received as they were sent.
  pub checked_word :
      (v : ℕ) (c : Chip)
      → v < 2 ^ 32
      → peek_checked_word
          (bus b hal world)
          (record { chip = c; out = bytes32 v ++ bytes32 (hal.sniff_crc32 (bytes32 v) 0xFFFFFFFF) })
        ≡ ((true, v), quiet c)
  unfolding peek_checked_word crc32
  checked_word v c h =
      rw
        (
          word32-byte_of v h,
          computes (bytes32 v),
          word32-byte_of (crc32 (bytes32 v)) (crc32_from-lt 0xFFFFFFFF (bytes32 v) (omega arith)),
          ==-refl (crc32 (bytes32 v)),
        )
        refl

module _ (b : Board) (hal : Hal) (world : World) (s : Chip)
    (idle : s.write_handler ≡ Handler.idle) where
  set_request_poked :
      (key value : ℕ)
      → (poke (bus b hal world) (settings_set_request key value) (quiet s)).1
        ≡ device_of b hal world (write_bytes b hal s (settings_set_request key value))
  set_request_poked key value =
      poke_request b hal world
        (bytes32 cmd_kv_set
          ++ (bytes16 key
              ++ (bytes16 (bit_xor key 0xFFFF)
                  ++ (bytes32 value
                      ++ byte_of (bit_xor value 0xFFFFFFFF) 0
                        ∷ byte_of (bit_xor value 0xFFFFFFFF) 1
                        ∷ byte_of (bit_xor value 0xFFFFFFFF) 2
                        ∷ []))))
        (byte_of (bit_xor value 0xFFFFFFFF) 3) s (kv_set_silent b hal s idle _ _ _ _ _ _ _ _ _ _ _)

  get_request_poked :
      (key : ℕ)
      → (poke (bus b hal world) (settings_get_request key) (quiet s)).1
        ≡ device_of b hal world (write_bytes b hal s (settings_get_request key))
  get_request_poked key =
      poke_request b hal world
        (bytes32 cmd_kv_get ++ (bytes16 key ++ byte_of (bit_xor key 0xFFFF) 0 ∷ []))
        (byte_of (bit_xor key 0xFFFF) 1) s (kv_get_silent b hal s idle _ _ _)

  stores_send_nothing :
      (m : Memory) (pend : List ℕ) (ws : List StoreWrite) (calls : List Call)
      → call_bytes b hal world m pend (map store ws ++ calls) ≡ call_bytes b hal world m pend calls
  stores_send_nothing m pend [] calls = refl
  stores_send_nothing m pend (w ∷ ws) calls = stores_send_nothing m pend ws calls

  set_answer :
      (e : Effect) (ws : List StoreWrite)
      → e.1 ≡ start_busy_code ∷ (map store ws ++ stop_busy_code result_ok ∷ [])
      → device_of b hal world e
        ≡ record { chip = e.0; out = busy_words world.busy ++ (bytes32 result_ok ++ []) }
  set_answer e ws calls =
      ap (λ (cs : List Call). device_of b hal world (e.0, cs)) calls
      ∙ ap (λ (xs : List ℕ). device_with e.0 (busy_words world.busy ++ xs))
          (stores_send_nothing e.0.memory [] ws (stop_busy_code result_ok ∷ []))
    where
      device_with : Chip → List ℕ → Device
      device_with c xs = record { chip = c; out = xs }

  -- The console sets a key of a modchip that is between two commands, and waits for longer than the
  -- modchip is busy: the call returns true, the modchip has made the change of the key's setter,
  -- and has sent all that it had to send.
  pub modchip_settings_set-accepted :
      (fuel key value : ℕ)
      → key < 4
      → value < 2 ^ 32
      → world.busy < fuel
      → modchip_settings_set (bus b hal world) fuel key value (quiet s)
        ≡ (some true, quiet (write_bytes b hal s (settings_set_request key value)).0)
  unfolding modchip_settings_set
  modchip_settings_set-accepted fuel key value hk hv patient =
      ap (wait_while_busy (bus b hal world) fuel) (
        set_request_poked key value
        ∙ set_answer (write_bytes b hal s (settings_set_request key value))
            (set_setting key value s.settings).1
            (settings_set_request-accepted b hal s idle key value hk hv).3)
      ∙ busy_word_ends b hal world world.busy result_ok []
          (write_bytes b hal s (settings_set_request key value)).0 (omega arith)
          (λ e. absurd (ground (arith, e))) fuel patient

  module _ (computes : ComputesCrc hal) where
    -- The console reads a key of a modchip that is between two commands: the call returns true and
    -- the setting, and the modchip has sent all.
    pub modchip_settings_get-answer :
        (key old : ℕ)
        → key < 4
        → get_setting key s.settings s.kv_get.response < 2 ^ 32
        → modchip_settings_get (bus b hal world) key old (quiet s) ≡ (
          (true, get_setting key s.settings s.kv_get.response),
          quiet (write_bytes b hal s (settings_get_request key)).0,
        )
    unfolding modchip_settings_get
    modchip_settings_get-answer key old hk fits =
        ap after (
          get_request_poked key
          ∙ ap
              (λ (cs : List Call).
                device_of b hal world ((write_bytes b hal s (settings_get_request key)).0, cs))
              (settings_get_request-answer b hal s idle key hk))
        ∙ answered (get_setting key s.settings s.kv_get.response)
            (write_bytes b hal s (settings_get_request key)).0 fits
      where
        after : Device → (Bool × ℕ) × Device
        after d =
            let (r, t) = (bus b hal world).peek_u32 d in
            (if r == result_ok then peek_checked_word (bus b hal world) else return (false, old)) t

        answered :
            (v : ℕ) (c : Chip)
            → v < 2 ^ 32
            → after (
                device_of b hal world
                  (c, start_data_with_status_code result_ok (Source.response_word v) 4 true ∷ []))
              ≡ ((true, v), quiet c)
        answered v c h = checked_word b hal world computes v c h
