-- ===== src/BootRom/Commands/Kv.antt =====
-- The commands of kv.c from their first byte to their answer.
use fruitchip.Common.{
  ℕ, true, [], ◌∷◌, ◌++◌, ◌+◌, ◌^◌, ◌<◌, ◌≡◌, ◌&&◌, ◌==◌, ltb, refl, ◌∙◌, map, or_byte, word16,
  word32, bytes16, bytes32, if◌then◌else◌,
}
use fruitchip.Common.Words.{word16-byte_of, word32-byte_of, is_complement_sum}
use fruitchip.Modchip.{cmd_kv_get, cmd_kv_set, result_ok, result_err}
use fruitchip.Board.{Board}
use fruitchip.Hal.{Hal}
use fruitchip.BootRom.Defs.{
  Handler, KvGet, KvSet, Chip, Source, start_status_code, start_data_with_status_code,
  start_busy_code, stop_busy_code, store,
}
use fruitchip.BootRom.Write.Kv.{
  get_setting, set_setting, store_all, answer_kv_get, answer_kv_set, handle_write_kv_get,
  handle_write_kv_set,
}
use fruitchip.BootRom.Write.Idle.{write_bytes, group0_handler}
use fruitchip.BootRom.Commands.Start.{write_bytes-group0, write_bytes_last}

-- The state when the last operand of `MODCHIP_CMD_KV_SET` has arrived.
abbrev pub kv_set_received : Chip → ℕ → KvSet → Chip
kv_set_received s n k = record s {
  cmd_byte_counter = n;
  write_handler = Handler.kv_set;
  kv_set = k;
}

abbrev pub kv_get_received : Chip → ℕ → KvGet → Chip
kv_get_received s n k = record s {
  cmd_byte_counter = n;
  write_handler = Handler.kv_get;
  kv_get = k;
}

module _ (b : Board) (hal : Hal) (s : Chip) (idle : s.write_handler ≡ Handler.idle) where
  -- Any twelve operand bytes.
  kv_set_operands :
      (i0 i1 j0 j1 v0 v1 v2 v3 y0 y1 y2 y3 : ℕ)
      → write_bytes b hal s
          (bytes32 cmd_kv_set ++ i0 ∷ i1 ∷ j0 ∷ j1 ∷ v0 ∷ v1 ∷ v2 ∷ v3 ∷ y0 ∷ y1 ∷ y2 ∷ y3 ∷ [])
        ≡ answer_kv_set hal (
            kv_set_received s 15 (record {
              idx = word16 i0 i1;
              idx_xor = word16 j0 j1;
              value = word32 v0 v1 v2 v3;
              value_xor = word32 y0 y1 y2 y3;
            }))
  unfolding write_bytes handle_write_kv_set group0_handler
  kv_set_operands i0 i1 j0 j1 v0 v1 v2 v3 y0 y1 y2 y3 =
      write_bytes-group0 b hal s 0xb1
        (0x40 ∷ i0 ∷ i1 ∷ j0 ∷ j1 ∷ v0 ∷ v1 ∷ v2 ∷ v3 ∷ y0 ∷ y1 ∷ y2 ∷ y3 ∷ []) idle
      ∙ write_bytes_last b hal
          (kv_set_received s 14 (record {
            idx = word16 i0 i1;
            idx_xor = word16 j0 j1;
            value = word32 v0 v1 v2 v3;
            value_xor = or_byte (or_byte y0 y1 8) y2 16;
          }))
          y3

  pub kv_set_words :
      (idx idx_xor value value_xor : ℕ)
      → idx < 2 ^ 16
      → idx_xor < 2 ^ 16
      → value < 2 ^ 32
      → value_xor < 2 ^ 32
      → write_bytes b hal s (
          bytes32 cmd_kv_set
          ++ (bytes16 idx ++ (bytes16 idx_xor ++ (bytes32 value ++ bytes32 value_xor))))
        ≡ answer_kv_set hal (
            kv_set_received s 15
              (record { idx = idx; idx_xor = idx_xor; value = value; value_xor = value_xor }))
  kv_set_words idx idx_xor value value_xor hi hj hv hy =
      kv_set_operands _ _ _ _ _ _ _ _ _ _ _ _
      ∙ rw
          (
            word16-byte_of idx hi,
            word16-byte_of idx_xor hj,
            word32-byte_of value hv,
            word32-byte_of value_xor hy,
          )
          refl

  -- A chip between two commands gets `MODCHIP_CMD_KV_SET` with any four operand words. If the key
  -- and its complement add up to 0xFFFF, the key is below 4, and the value and its complement add up
  -- to 0xFFFFFFFF, it sets the key and answers busy and then OK, with what the setter writes to the
  -- store in between, which is what it does to the memory. Otherwise it answers with an error, and the settings and the memory are as
  -- before. Either way it is back at idle.
  pub kv_set-eq :
      (idx idx_xor value value_xor : ℕ)
      → idx < 2 ^ 16
      → idx_xor < 2 ^ 16
      → value < 2 ^ 32
      → value_xor < 2 ^ 32
      → write_bytes b hal s (
          bytes32 cmd_kv_set
          ++ (bytes16 idx ++ (bytes16 idx_xor ++ (bytes32 value ++ bytes32 value_xor))))
        ≡ (let received = record s {
          cmd_byte_counter = 15;
          write_handler = Handler.idle;
          kv_set = record { idx = idx; idx_xor = idx_xor; value = value; value_xor = value_xor };
        } in
            if (idx + idx_xor == 0xFFFF && ltb idx 4) && value + value_xor == 0xFFFFFFFF
            then (
              record received {
                settings = (set_setting idx value s.settings).0;
                memory = store_all hal (set_setting idx value s.settings).1 s.memory;
              },
              start_busy_code
                  ∷ (map store (set_setting idx value s.settings).1
                      ++ stop_busy_code result_ok ∷ []),
            )
            else (received, start_status_code result_err ∷ []))
  unfolding answer_kv_set
  kv_set-eq idx idx_xor value value_xor hi hj hv hy =
      kv_set_words idx idx_xor value value_xor hi hj hv hy
      ∙ rw (is_complement_sum 16 idx idx_xor hi hj, is_complement_sum 32 value value_xor hv hy) refl

  kv_get_operands :
      (i0 i1 j0 j1 : ℕ)
      → write_bytes b hal s (bytes32 cmd_kv_get ++ i0 ∷ i1 ∷ j0 ∷ j1 ∷ [])
        ≡ answer_kv_get (
            kv_get_received s 7
              (record { idx = word16 i0 i1; idx_xor = word16 j0 j1; response = s.kv_get.response }))
  unfolding write_bytes handle_write_kv_get group0_handler
  kv_get_operands i0 i1 j0 j1 =
      write_bytes-group0 b hal s 0x27 (0x1d ∷ i0 ∷ i1 ∷ j0 ∷ j1 ∷ []) idle
      ∙ write_bytes_last b hal
          (kv_get_received s 6
            (record { idx = word16 i0 i1; idx_xor = j0; response = s.kv_get.response }))
          j1

  -- A chip between two commands gets `MODCHIP_CMD_KV_GET` with any two operand words. If they add up
  -- to 0xFFFF and the key is below 4, it answers OK with the setting; otherwise it answers with an
  -- error. Nothing but the command's own statics changes, and it is back at idle.
  pub kv_get-eq :
      (idx idx_xor : ℕ)
      → idx < 2 ^ 16
      → idx_xor < 2 ^ 16
      → write_bytes b hal s (bytes32 cmd_kv_get ++ (bytes16 idx ++ bytes16 idx_xor)) ≡ (
          let answer = get_setting idx s.settings s.kv_get.response in
          let received = λ (response : ℕ). record s {
            cmd_byte_counter = 7;
            write_handler = Handler.idle;
            kv_get = record { idx = idx; idx_xor = idx_xor; response = response };
          } in
          if idx + idx_xor == 0xFFFF && ltb idx 4
          then (
            received answer,
            start_data_with_status_code result_ok (Source.response_word answer) 4 true ∷ [],
          )
          else (received s.kv_get.response, start_status_code result_err ∷ []))
  unfolding answer_kv_get
  kv_get-eq idx idx_xor hi hj =
      kv_get_operands _ _ _ _
      ∙ rw
          (word16-byte_of idx hi, word16-byte_of idx_xor hj, is_complement_sum 16 idx idx_xor hi hj)
          refl
