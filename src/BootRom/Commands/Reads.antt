-- ===== src/BootRom/Commands/Reads.antt =====
-- The two commands that read a range, from their first byte to their answer.
use native.Mathlib.Nat.{mod-eq_of_lt}
use fruitchip.Common.{
  ℕ, Bool, true, false, List, [], ◌∷◌, ◌++◌, ◌+◌, ◌^◌, ◌<◌, ◌≡◌, ◌&&◌, refl, ◌∙◌, ap, word32,
  bytes32, bit_xor, if◌then◌else◌, is_complement, ltb, u8, u32, to_ℕ, is_nonzero,
}
use fruitchip.Common.Words.{word32-byte_of, is_complement-xor, xor_ones-lt}
use fruitchip.Modchip.{cmd_read_app, cmd_read_ee_stage3, result_ok, result_err}
use fruitchip.Board.{Board}
use fruitchip.Hal.{Hal}
use fruitchip.Apps.{
  apps_partition_detect, apps_partition_entries_count, apps_partition_entry_addr,
  apps_partition_entry_length,
}
use fruitchip.Host.Requests.{apps_read_request, stage3_read_request}
use fruitchip.BootRom.Defs.{
  Handler, Chip, Effect, Call, Source, start_status_code, start_data_with_status_code,
}
use fruitchip.BootRom.Write.App.{handle_write_read_apps_partition}
use fruitchip.BootRom.Write.Payload.{handle_write_read_ee_stage3}
use fruitchip.BootRom.Write.Idle.{write_bytes, write_byte, group0_handler}
use fruitchip.BootRom.Commands.Start.{write_bytes-group0, write_bytes_quiet}

flag_byte : (c : Bool) → is_nonzero (u8 (to_ℕ c)) ≡ c
flag_byte true = refl
flag_byte false = refl

flag_complement : (c : Bool) → is_complement 0xFF (to_ℕ c) (u8 (bit_xor (to_ℕ c) 0xFF)) ≡ true
flag_complement true = refl
flag_complement false = refl

choose :
    (detected inside known : Bool) (c : Chip) (good bad : List Call)
    → ◌≡◌ {A = Effect}
        (if detected && (inside && (true && (known && true))) then (c, good) else (c, bad))
        (c, (if detected && (inside && known) then good else bad))
choose false inside known c good bad = refl
choose true false known c good bad = refl
choose true true false c good bad = refl
choose true true true c good bad = refl

choose_inside :
    (inside : Bool) (c : Chip) (good bad : List Call)
    → ◌≡◌ {A = Effect}
        (if inside && true then (c, good) else (c, bad))
        (c, (if inside then good else bad))
choose_inside false c good bad = refl
choose_inside true c good bad = refl

module _ (b : Board) (hal : Hal) (s : Chip) (idle : s.write_handler ≡ Handler.idle) where
  -- The state when only the complement of `with_crc` is missing, from the operands.
  abbrev pub app_received : ℕ → ℕ → ℕ → ℕ → ℕ → ℕ → Bool → Chip
  app_received a a' o o' z z' crc = record s {
    cmd_byte_counter = 22;
    write_handler = Handler.read_apps_partition_end;
    app = record {
      read_offset = o;
      read_offset_xor = o';
      read_size = z;
      read_size_xor = z';
      app_idx = a;
      app_idx_xor = a';
      with_crc = crc;
      is_valid_apps_partition = apps_partition_detect hal s.memory;
      is_valid_read_offset =
          is_complement 0xFFFFFFFF o o' && ltb o (apps_partition_entry_length hal s.memory a);
      is_valid_read_size = is_complement 0xFFFFFFFF z z';
      is_valid_app_idx =
          is_complement 0xFF a a' && ltb a (apps_partition_entries_count hal s.memory);
      read_addr = u32 (apps_partition_entry_addr hal s.memory a + o);
    };
  }

  app_prefix :
      (a a' o0 o1 o2 o3 p0 p1 p2 p3 z0 z1 z2 z3 y0 y1 y2 y3 crc : ℕ)
      → write_bytes b hal s (
          bytes32 cmd_read_app
          ++ a ∷ a' ∷ o0 ∷ o1 ∷ o2 ∷ o3 ∷ p0 ∷ p1 ∷ p2 ∷ p3 ∷ z0 ∷ z1 ∷ z2 ∷ z3 ∷ y0 ∷ y1 ∷ y2 ∷ y3
            ∷ crc ∷ [])
        ≡ (
          app_received a a'
              (word32 o0 o1 o2 o3)
              (word32 p0 p1 p2 p3)
              (word32 z0 z1 z2 z3)
              (word32 y0 y1 y2 y3)
              (is_nonzero crc),
          [],
        )
  unfolding write_bytes handle_write_read_apps_partition group0_handler
  app_prefix a a' o0 o1 o2 o3 p0 p1 p2 p3 z0 z1 z2 z3 y0 y1 y2 y3 crc =
      write_bytes-group0 b hal s 0xb8
        (0x33 ∷ a ∷ a' ∷ o0 ∷ o1 ∷ o2 ∷ o3 ∷ p0 ∷ p1 ∷ p2 ∷ p3 ∷ z0 ∷ z1 ∷ z2 ∷ z3 ∷ y0 ∷ y1 ∷ y2
          ∷ y3 ∷ crc ∷ [])
        idle

  -- The state when only the complement of `with_crc` of the other command is missing.
  abbrev pub stage3_received : ℕ → ℕ → ℕ → ℕ → Bool → Chip
  stage3_received o o' z z' crc = record s {
    cmd_byte_counter = 20;
    write_handler = Handler.read_ee_stage3_end;
    payload = record {
      read_offset = o;
      read_offset_xor = o';
      read_size = z;
      read_size_xor = z';
      with_crc = crc;
    };
  }

  stage3_prefix :
      (o0 o1 o2 o3 p0 p1 p2 p3 z0 z1 z2 z3 y0 y1 y2 y3 crc : ℕ)
      → write_bytes b hal s (
          bytes32 cmd_read_ee_stage3
          ++ o0 ∷ o1 ∷ o2 ∷ o3 ∷ p0 ∷ p1 ∷ p2 ∷ p3 ∷ z0 ∷ z1 ∷ z2 ∷ z3 ∷ y0 ∷ y1 ∷ y2 ∷ y3 ∷ crc
            ∷ [])
        ≡ (
          stage3_received
              (word32 o0 o1 o2 o3)
              (word32 p0 p1 p2 p3)
              (word32 z0 z1 z2 z3)
              (word32 y0 y1 y2 y3)
              (is_nonzero crc),
          [],
        )
  unfolding write_bytes handle_write_read_ee_stage3 group0_handler
  stage3_prefix o0 o1 o2 o3 p0 p1 p2 p3 z0 z1 z2 z3 y0 y1 y2 y3 crc =
      write_bytes-group0 b hal s 0x38
        (0x73 ∷ o0 ∷ o1 ∷ o2 ∷ o3 ∷ p0 ∷ p1 ∷ p2 ∷ p3 ∷ z0 ∷ z1 ∷ z2 ∷ z3 ∷ y0 ∷ y1 ∷ y2 ∷ y3 ∷ crc
          ∷ [])
        idle

  -- The bytes of the console's request but the last, and the last.
  abbrev pub apps_read_front : ℕ → ℕ → ℕ → Bool → List ℕ
  apps_read_front offset size app_idx crc =
      bytes32 cmd_read_app
      ++ (u8 app_idx
          ∷ u8 (bit_xor app_idx 0xFF)
          ∷ (bytes32 offset
              ++ (bytes32 (bit_xor offset 0xFFFFFFFF)
                  ++ (bytes32 size ++ (bytes32 (bit_xor size 0xFFFFFFFF) ++ u8 (to_ℕ crc) ∷ [])))))

  abbrev pub crc_complement : Bool → ℕ
  crc_complement crc = u8 (bit_xor (to_ℕ crc) 0xFF)

  abbrev app_sent : ℕ → ℕ → ℕ → Bool → Chip
  app_sent offset size app_idx crc =
      app_received (u8 app_idx) (u8 (bit_xor app_idx 0xFF)) offset (bit_xor offset 0xFFFFFFFF) size
        (bit_xor size 0xFFFFFFFF) crc

  pub apps_read_front-eq :
      (offset size app_idx : ℕ) (crc : Bool)
      → offset < 2 ^ 32
      → size < 2 ^ 32
      → write_bytes b hal s (apps_read_front offset size app_idx crc)
        ≡ (app_sent offset size app_idx crc, [])
  apps_read_front-eq offset size app_idx crc ho hz =
      app_prefix _ _ _ _ _ _ _ _ _ _ _ _ _ _ _ _ _ _ _
      ∙ rw
          (
            word32-byte_of offset ho,
            word32-byte_of (bit_xor offset 0xFFFFFFFF) (xor_ones-lt 32 offset ho),
            word32-byte_of size hz,
            word32-byte_of (bit_xor size 0xFFFFFFFF) (xor_ones-lt 32 size hz),
          )
          (ap (λ (c : Bool). ready c) (flag_byte crc))
    where
      ready : Bool → Effect
      ready c = (app_sent offset size app_idx c, [])

  app_end :
      (offset size app_idx : ℕ) (crc : Bool)
      → offset < 2 ^ 32
      → size < 2 ^ 32
      → app_idx < 256
      → write_byte b hal (app_sent offset size app_idx crc) (crc_complement crc) ≡ (
        record (app_sent offset size app_idx crc) { write_handler = Handler.idle },
        (if apps_partition_detect hal s.memory
              && (ltb offset (apps_partition_entry_length hal s.memory app_idx)
                  && ltb app_idx (apps_partition_entries_count hal s.memory))
            then start_data_with_status_code result_ok
                (Source.flash_window
                  (u32 (apps_partition_entry_addr hal s.memory app_idx + offset)))
                size
                crc
              ∷ []
            else start_status_code result_err ∷ []),
      )
  unfolding write_byte
  app_end offset size app_idx crc ho hz ha =
      rw
        (
          mod-eq_of_lt ha,
          mod-eq_of_lt (xor_ones-lt 8 app_idx ha),
          is_complement-xor 8 app_idx ha,
          is_complement-xor 32 offset ho,
          is_complement-xor 32 size hz,
          flag_complement crc,
        )
        (choose (apps_partition_detect hal s.memory)
          (ltb offset (apps_partition_entry_length hal s.memory app_idx))
          (ltb app_idx (apps_partition_entries_count hal s.memory)) _ _ _)

  apps_request :
      (offset size app_idx : ℕ) (crc : Bool)
      → offset < 2 ^ 32
      → size < 2 ^ 32
      → write_bytes b hal s (apps_read_request offset size app_idx crc)
        ≡ write_byte b hal (app_sent offset size app_idx crc) (crc_complement crc)
  apps_request offset size app_idx crc ho hz =
      write_bytes_quiet b hal (apps_read_front offset size app_idx crc) (crc_complement crc) s
        (ap (λ e. e.1) (apps_read_front-eq offset size app_idx crc ho hz))
      ∙ ap (λ (e : Effect). write_byte b hal e.0 (crc_complement crc))
          (apps_read_front-eq offset size app_idx crc ho hz)

  -- The console asks a modchip that is between two commands for a range of an entry. With a valid
  -- table, an entry that it has and an offset inside the entry, the answer is OK and the range that
  -- begins there, and else an error. No memory changes, and the modchip is back at idle.
  pub apps_read_request-answer :
      (offset size app_idx : ℕ) (crc : Bool)
      → offset < 2 ^ 32
      → size < 2 ^ 32
      → app_idx < 256
      → let (t, calls) = write_bytes b hal s (apps_read_request offset size app_idx crc) in
        (t.write_handler ≡ Handler.idle)
        × (t.memory ≡ s.memory)
        × (calls ≡ (
            if apps_partition_detect hal s.memory
              && (ltb offset (apps_partition_entry_length hal s.memory app_idx)
                  && ltb app_idx (apps_partition_entries_count hal s.memory))
            then start_data_with_status_code result_ok
                (Source.flash_window
                  (u32 (apps_partition_entry_addr hal s.memory app_idx + offset)))
                size
                crc
              ∷ []
            else start_status_code result_err ∷ []))
  apps_read_request-answer offset size app_idx crc ho hz ha =
      let e : write_bytes b hal s (apps_read_request offset size app_idx crc) ≡ _ =
        apps_request offset size app_idx crc ho hz ∙ app_end offset size app_idx crc ho hz ha in
      (
        ap (λ (r : Effect). r.0.write_handler) e,
        ap (λ (r : Effect). r.0.memory) e,
        ap (λ (r : Effect). r.1) e,
      )

  -- The bytes of the request for the third stage but the last.
  abbrev pub stage3_read_front : ℕ → ℕ → Bool → List ℕ
  stage3_read_front offset size crc =
      bytes32 cmd_read_ee_stage3
      ++ (bytes32 offset
          ++ (bytes32 (bit_xor offset 0xFFFFFFFF)
              ++ (bytes32 size ++ (bytes32 (bit_xor size 0xFFFFFFFF) ++ u8 (to_ℕ crc) ∷ []))))

  abbrev stage3_sent : ℕ → ℕ → Bool → Chip
  stage3_sent offset size crc =
      stage3_received offset (bit_xor offset 0xFFFFFFFF) size (bit_xor size 0xFFFFFFFF) crc

  pub stage3_read_front-eq :
      (offset size : ℕ) (crc : Bool)
      → offset < 2 ^ 32
      → size < 2 ^ 32
      → write_bytes b hal s (stage3_read_front offset size crc) ≡ (stage3_sent offset size crc, [])
  stage3_read_front-eq offset size crc ho hz =
      stage3_prefix _ _ _ _ _ _ _ _ _ _ _ _ _ _ _ _ _
      ∙ rw
          (
            word32-byte_of offset ho,
            word32-byte_of (bit_xor offset 0xFFFFFFFF) (xor_ones-lt 32 offset ho),
            word32-byte_of size hz,
            word32-byte_of (bit_xor size 0xFFFFFFFF) (xor_ones-lt 32 size hz),
          )
          (ap (λ (c : Bool). ready c) (flag_byte crc))
    where
      ready : Bool → Effect
      ready c = (stage3_sent offset size c, [])

  stage3_end :
      (offset size : ℕ) (crc : Bool)
      → offset < 2 ^ 32
      → size < 2 ^ 32
      → write_byte b hal (stage3_sent offset size crc) (crc_complement crc) ≡ (
        record (stage3_sent offset size crc) { write_handler = Handler.idle },
        (if ltb offset b.ee_stage3_size
            then start_data_with_status_code result_ok (Source.ee_stage3 offset) size crc ∷ []
            else start_status_code result_err ∷ []),
      )
  unfolding write_byte
  stage3_end offset size crc ho hz =
      rw (is_complement-xor 32 offset ho, is_complement-xor 32 size hz, flag_complement crc)
        (choose_inside (ltb offset b.ee_stage3_size) _ _ _)

  -- The console asks a modchip that is between two commands for a range of the third stage: with an
  -- offset inside the image the answer is OK and the range that begins there, and else an error. No
  -- memory changes, and the modchip is back at idle.
  pub stage3_read_request-answer :
      (offset size : ℕ) (crc : Bool)
      → offset < 2 ^ 32
      → size < 2 ^ 32
      → let (t, calls) = write_bytes b hal s (stage3_read_request offset size crc) in
        (t.write_handler ≡ Handler.idle)
        × (t.memory ≡ s.memory)
        × (calls ≡ (
            if ltb offset b.ee_stage3_size
            then start_data_with_status_code result_ok (Source.ee_stage3 offset) size crc ∷ []
            else start_status_code result_err ∷ []))
  stage3_read_request-answer offset size crc ho hz =
      let e : write_bytes b hal s (stage3_read_request offset size crc) ≡ _ =
        write_bytes_quiet b hal (stage3_read_front offset size crc) (crc_complement crc) s
          (ap (λ r. r.1) (stage3_read_front-eq offset size crc ho hz))
        ∙ ap (λ (r : Effect). write_byte b hal r.0 (crc_complement crc))
            (stage3_read_front-eq offset size crc ho hz)
        ∙ stage3_end offset size crc ho hz in
      (
        ap (λ (r : Effect). r.0.write_handler) e,
        ap (λ (r : Effect). r.0.memory) e,
        ap (λ (r : Effect). r.1) e,
      )
