-- ===== src/Link/Loader/Stages.antt =====
-- The first two stages of the loader against the firmware, up to the start of the third.
use mathlib.Core.List.{append_assoc}
use fruitchip.Common.{
  ℕ, Bool, true, false, List, [], ◌∷◌, ◌++◌, ◌^◌, ◌<◌, ◌≡◌, refl, ==-refl, arith, ◌∙◌, ap, bytes32,
  if◌then◌else◌, length,
}
use fruitchip.Modchip.{result_ok, cmd_get_ee_stage1_size, cmd_get_ee_stage2_size, cmd_get_ee_stage2}
use fruitchip.Board.{Board}
use fruitchip.Hal.{Hal}
use fruitchip.Host.Bus.{Bus, M, poke, with_retry, return, modchip_peek_n}
use fruitchip.BootRom.Defs.{Handler, Chip, Source, start_data_with_status_code}
use fruitchip.BootRom.Write.Idle.{write_bytes, group0_handler}
use fruitchip.BootRom.Write.Payload.{
  handle_write_get_ee_stage1_size, handle_write_get_ee_stage2_size, handle_write_get_ee_stage2,
}
use fruitchip.BootRom.Commands.Start.{write_bytes-group0}
use fruitchip.Crc32.{crc32}
use fruitchip.Crc32.Bounds.{crc32_from-lt}
use fruitchip.Loader.Elf.{Ram, store_bytes, clear_bytes, Loaded, stage3_reader}
use fruitchip.Loader.Elf.Place.{IsProgram, load_elf-place_all, place_all, header}
use fruitchip.Loader.Stage1.Checks.{ram_bytes-store_bytes}
use fruitchip.Loader.Stage1.{exec_ps2, fetch_stage2, receive_stage2, is_intact, ee_stage_2_addr}
use fruitchip.Loader.Stage2.{start, user_mem_start_addr, user_mem_size}
use fruitchip.Link.Settings.{ComputesCrc}
use fruitchip.Link.Loader.{HasStage3, IsWaiting, firmware-GivesImage}
use fruitchip.Loader.Stage1.{Stage1, PanicType, modchip_cmd_or_panic, cmd_answer}
use fruitchip.Link.{World, Device, bus, device_of, quiet, data_bytes, source_bytes}
use fruitchip.Link.Reads.{Bytes, sending, all_received}
use fruitchip.Link.Pokes.{poke_request, peek_word}

-- The modchip behind a command of four bytes.
abbrev pub served : Chip → Chip
served s = record s { cmd_byte_counter = 3; write_handler = Handler.idle }

module _ (b : Board) (hal : Hal) (s : Chip) (idle : s.write_handler ≡ Handler.idle) where
  silent : (code : ℕ) → (write_bytes b hal s (0xcf ∷ 0x0c ∷ code ∷ [])).1 ≡ []
  unfolding write_bytes
  silent code = ap (λ e. e.1) (write_bytes-group0 b hal s code [] idle)

  stage1_size_sent :
      write_bytes b hal s (bytes32 cmd_get_ee_stage1_size)
      ≡ (served s, start_data_with_status_code result_ok Source.ee_stage1_size 4 false ∷ [])
  unfolding write_bytes group0_handler handle_write_get_ee_stage1_size
  stage1_size_sent = write_bytes-group0 b hal s 0x08 (0xd0 ∷ []) idle

  stage2_size_sent :
      write_bytes b hal s (bytes32 cmd_get_ee_stage2_size)
      ≡ (served s, start_data_with_status_code result_ok Source.ee_stage2_size 4 false ∷ [])
  unfolding write_bytes group0_handler handle_write_get_ee_stage2_size
  stage2_size_sent = write_bytes-group0 b hal s 0x6e (0xc4 ∷ []) idle

  stage2_sent : write_bytes b hal s (bytes32 cmd_get_ee_stage2) ≡ (
    served s,
    start_data_with_status_code result_ok Source.ee_stage2 b.ee_stage2_size true ∷ [],
  )
  unfolding write_bytes group0_handler handle_write_get_ee_stage2
  stage2_sent = write_bytes-group0 b hal s 0x2c (0x88 ∷ []) idle

  module _ (world : World) where
    -- A command that is answered with data is answered at the first attempt.
    answered :
        (code last : ℕ) (src : Source) (n : ℕ) (crc : Bool)
        → write_bytes b hal s (0xcf ∷ 0x0c ∷ code ∷ last ∷ [])
          ≡ (served s, start_data_with_status_code result_ok src n crc ∷ [])
        → (poke (bus b hal world) (0xcf ∷ 0x0c ∷ code ∷ last ∷ []) (quiet s)).1
          ≡ sending b hal world (served s) (
              bytes32 result_ok
              ++ (data_bytes b hal world (source_bytes b hal world s.memory src n) crc ++ []))
    answered code last src n crc e =
        poke_request b hal world (0xcf ∷ 0x0c ∷ code ∷ []) last s (silent code)
        ∙ ap (device_of b hal world) e

    continues :
        (cmd : ℕ) (ram : Ram) (next : M Device Stage1) (src : Source) (n : ℕ) (crc : Bool)
        → (poke (bus b hal world) (bytes32 cmd) (quiet s)).1
          ≡ sending b hal world (served s) (
              bytes32 result_ok
              ++ (data_bytes b hal world (source_bytes b hal world s.memory src n) crc ++ []))
        → modchip_cmd_or_panic (bus b hal world) cmd ram next (quiet s)
          ≡ next (
              sending b hal world
                (served s)
                (data_bytes b hal world (source_bytes b hal world s.memory src n) crc ++ []))
    unfolding modchip_cmd_or_panic cmd_answer with_retry
    continues cmd ram next src n crc e = rw e refl

-- The firmware has an image of the second stage.
pub record HasStage2 (b : Board) (world : World) (image : List ℕ) : Type 0 where
  pub size : b.ee_stage2_size ≡ length image
  pub small : length image < 2 ^ 32
  pub bytes : Bytes image
  pub sends : world.image Source.ee_stage2 b.ee_stage2_size ≡ image

-- The console's memory holds a first stage of the size that the firmware has, and its checksum.
pub record HasStage1 (b : Board) (ram : Ram) : Type 0 where
  pub small : b.ee_stage1_size < 2 ^ 32
  pub intact : is_intact ram b.ee_stage1_size ≡ true

crc32-lt : (xs : List ℕ) → crc32 xs < 2 ^ 32
unfolding crc32
crc32-lt xs = crc32_from-lt 0xFFFFFFFF xs (omega arith)

module _ {S : Type 0} (bus : Bus S) where
  receive_step :
      (bytes : List ℕ) (ram : Ram) (s t u : S)
      → modchip_peek_n bus (length bytes) s ≡ (bytes, t)
      → bus.peek_u32 t ≡ (crc32 bytes, u)
      → receive_stage2 bus (length bytes) ram s
        ≡ (Stage1.jump ee_stage_2_addr (store_bytes ee_stage_2_addr bytes ram), u)
  unfolding receive_stage2
  receive_step bytes ram s t u e e' =
      rw (e, e', ram_bytes-store_bytes ram ee_stage_2_addr bytes, ==-refl (crc32 bytes)) refl

module _ (b : Board) (hal : Hal) (world : World) (computes : ComputesCrc hal) (image : List ℕ)
    (has : HasStage2 b world image) (ram : Ram) where
  -- The memory with the second stage in it.
  abbrev pub staged : Ram
  staged = store_bytes ee_stage_2_addr image ram

  received :
      (c : Chip)
      → receive_stage2 (bus b hal world) b.ee_stage2_size ram (
          sending b hal world c
            (data_bytes b hal world (world.image Source.ee_stage2 b.ee_stage2_size) true ++ []))
        ≡ (Stage1.jump ee_stage_2_addr staged, quiet c)
  received c =
      ap
        (λ (xs : List ℕ).
          receive_stage2 (bus b hal world) b.ee_stage2_size ram
            (sending b hal world c (data_bytes b hal world xs true ++ [])))
        has.sends
      ∙ ap (λ n. receive_stage2 (bus b hal world) n ram (sending b hal world c sent)) has.size
      ∙ receive_step (bus b hal world) image ram (sending b hal world c sent) _ (quiet c) first last
    where
      sent : List ℕ
      sent = data_bytes b hal world image true ++ []

      sum : List ℕ
      sum = bytes32 (hal.sniff_crc32 image 0xFFFFFFFF) ++ []

      first :
          modchip_peek_n (bus b hal world) (length image) (sending b hal world c sent)
          ≡ (image, sending b hal world c sum)
      first =
          ap (λ l. modchip_peek_n (bus b hal world) (length image) (sending b hal world c l))
            (append_assoc image (bytes32 (hal.sniff_crc32 image 0xFFFFFFFF)) [])
          ∙ all_received b hal world image sum c has.bytes

      last : (bus b hal world).peek_u32 (sending b hal world c sum) ≡ (crc32 image, quiet c)
      last =
          ap (λ v. (bus b hal world).peek_u32 (sending b hal world c (bytes32 v ++ [])))
            (computes image)
          ∙ peek_word b hal world (crc32 image) [] c (crc32-lt image)

  fetched :
      (s : Chip)
      → s.write_handler ≡ Handler.idle
      → fetch_stage2 (bus b hal world) ram (quiet s)
        ≡ (Stage1.jump ee_stage_2_addr staged, quiet (served s))
  unfolding fetch_stage2
  fetched s idle =
      continues b hal s idle world cmd_get_ee_stage2_size ram _ Source.ee_stage2_size 4 false (
        answered b hal s idle world 0x6e 0xc4 Source.ee_stage2_size 4 false
          (stage2_size_sent b hal s idle))
      ∙ ap sized (
          peek_word b hal world b.ee_stage2_size [] (served s) (omega (arith, has.size, has.small)))
      ∙ continues b hal (served s) refl world cmd_get_ee_stage2 ram _ Source.ee_stage2
          b.ee_stage2_size true
          (answered b hal (served s) refl world 0x2c 0x88 Source.ee_stage2 b.ee_stage2_size true
            (stage2_sent b hal (served s) refl))
      ∙ received (served s)
    where
      sized : ℕ × Device → Stage1 × Device
      sized r =
          modchip_cmd_or_panic (bus b hal world) cmd_get_ee_stage2 ram
            (receive_stage2 (bus b hal world) r.0 ram) r.1

  pub exec_ps2-HasStage2 :
      HasStage1 b ram
      → (s : Chip) → s.write_handler ≡ Handler.idle
      → exec_ps2 (bus b hal world) ram (quiet s)
        ≡ (Stage1.jump ee_stage_2_addr staged, quiet (served s))
  unfolding exec_ps2
  exec_ps2-HasStage2 own s idle =
      continues b hal s idle world cmd_get_ee_stage1_size ram _ Source.ee_stage1_size 4 false (
        answered b hal s idle world 0x08 0xd0 Source.ee_stage1_size 4 false
          (stage1_size_sent b hal s idle))
      ∙ ap sized (peek_word b hal world b.ee_stage1_size [] (served s) own.small)
      ∙ ap (λ (c : Bool). checked c) own.intact
      ∙ fetched (served s) refl
    where
      checked : Bool → Stage1 × Device
      checked c =
          (if c
              then fetch_stage2 (bus b hal world) ram
              else return (Stage1.panic PanicType.bad_crc ram))
            (quiet (served s))

      sized : ℕ × Device → Stage1 × Device
      sized r =
          (if is_intact ram r.0
              then fetch_stage2 (bus b hal world) ram
              else return (Stage1.panic PanicType.bad_crc ram))
            r.1

  -- The firmware has a second stage and a third one that is a program, the console's memory holds the first stage with
  -- its checksum, and the modchip is between two commands. Then the first stage jumps to the second one,
  -- which is in memory as the firmware has it, and the second one clears the memory of programs and starts the third one
  -- at its entry, with its segments placed.
  pub exec_ps2-start :
      (image3 : List ℕ)
      → HasStage3 b world image3
      → IsProgram image3
      → HasStage1 b ram
      → (s : Chip) → s.write_handler ≡ Handler.idle
      → let (r, d) = exec_ps2 (bus b hal world) ram (quiet s) in
        (r ≡ Stage1.jump ee_stage_2_addr staged)
        × ((t : Device) × (start (bus b hal world) staged d ≡ (
          Loaded.started (header image3).entry (
              place_all image3
                (header image3).phnum
                0
                (clear_bytes user_mem_start_addr user_mem_size staged)),
          t,
        ))
            × IsWaiting t)
  exec_ps2-start image3 has3 is_program own s idle =
      let e = exec_ps2-HasStage2 own s idle in
      let next =
        load_elf-place_all (stage3_reader (bus b hal world)) IsWaiting image3
          (firmware-GivesImage b hal world computes image3 has3) is_program
          (clear_bytes user_mem_start_addr user_mem_size staged)
          (exec_ps2 (bus b hal world) ram (quiet s)).1 (served s, ap (λ r. r.1) e, refl) in
      (ap (λ r. r.0) e, (next.0, next.1, next.2))
