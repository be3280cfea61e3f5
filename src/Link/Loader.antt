-- ===== src/Link/Loader.antt =====
-- fruitchip-loader against the firmware: what the console reads of the third stage is the image that
-- the firmware has.
pub mod Stages
use mathlib.Core.Path.{subst}
use fruitchip.Common.{
  ℕ, zero, suc, Bool, true, false, List, [], ◌∷◌, ◌++◌, ◌+◌, ◌-◌, ◌*◌, ◌^◌, ◌<◌, ◌≤◌, ◌≡◌, refl,
  arith, ◌∙◌, ap, sym, bytes32, if◌then◌else◌, ltb, u32, length, All, take, drop, lt→ltb,
  length-take, length-drop, All-take, All-drop,
}
use fruitchip.Modchip.{result_ok, result_err}
use fruitchip.Board.{Board}
use fruitchip.Hal.{Memory, Hal}
use fruitchip.Host.Bus.{with_retry}
use fruitchip.Host.Apps.{Code, modchip_stage3_read, modchip_stage3_read_with_retry, read_answer}
use fruitchip.Host.Requests.{stage3_read_request}
use fruitchip.BootRom.Defs.{
  Call, Handler, Chip, Source, Effect, start_status_code, start_data_with_status_code,
}
use fruitchip.BootRom.Write.Idle.{write_bytes}
use fruitchip.BootRom.Commands.Reads.{
  stage3_read_front, stage3_read_front-eq, stage3_read_request-answer, crc_complement,
}
use fruitchip.Loader.Elf.{stage3_reader}
use fruitchip.Loader.Elf.Place.{GivesImage}
use fruitchip.Link.{World, Device, bus, device_of, quiet, data_bytes}
use fruitchip.Link.Pokes.{poke_request}
use fruitchip.Link.Settings.{ComputesCrc}
use fruitchip.Link.Reads.{Bytes, sending, read_answered}

-- The firmware has an image of the third stage.
pub record HasStage3 (b : Board) (world : World) (image : List ℕ) : Type 0 where
  pub size : b.ee_stage3_size ≡ length image
  pub small : length image < 2 ^ 32
  pub bytes : Bytes image
  pub sends :
      (offset n : ℕ)
      → offset + n ≤ length image
      → world.image (Source.ee_stage3 offset) n ≡ take n (drop offset image)

-- The modchip is between two commands and has nothing to send.
abbrev pub IsWaiting : Device → Type 0
IsWaiting d = (s : Chip) × (d ≡ quiet s) × (s.write_handler ≡ Handler.idle)

module _ (b : Board) (hal : Hal) (world : World) (computes : ComputesCrc hal) (image : List ℕ)
    (has : HasStage3 b world image) where
  module _ (s : Chip) (idle : s.write_handler ≡ Handler.idle) where
    abbrev after : ℕ → ℕ → Chip
    after offset size = (write_bytes b hal s (stage3_read_request offset size true)).0

    stage3_accepted :
        (offset size : ℕ)
        → offset < length image
        → size < 2 ^ 32
        → device_of b hal world (write_bytes b hal s (stage3_read_request offset size true))
          ≡ sending b hal world (after offset size) (
              bytes32 result_ok
              ++ (data_bytes b hal world (world.image (Source.ee_stage3 offset) size) true ++ []))
    stage3_accepted offset size inside hz =
        ap (λ (calls : List Call). device_of b hal world (after offset size, calls))
          ((stage3_read_request-answer b hal s idle offset size true (omega (arith, has.small))
              hz).2
            ∙ ap (λ (c : Bool). chosen c)
                (lt→ltb offset b.ee_stage3_size (omega (arith, has.size))))
      where
        chosen : Bool → List Call
        chosen c =
            if c
            then start_data_with_status_code result_ok (Source.ee_stage3 offset) size true ∷ []
            else start_status_code result_err ∷ []

    modchip_stage3_read-answer :
        (offset size : ℕ) (old : List ℕ)
        → offset < length image
        → offset + size ≤ length image
        → modchip_stage3_read (bus b hal world) offset size true old (quiet s)
          ≡ ((Code.zero_ok, take size (drop offset image)), quiet (after offset size))
    unfolding modchip_stage3_read
    modchip_stage3_read-answer offset size old inside fits =
        ap (read_answer (bus b hal world) size true old) (
          poke_request b hal world (stage3_read_front b hal s idle offset size true)
            (crc_complement b hal s idle true) s
            (ap (λ (e : Effect). e.1)
              (stage3_read_front-eq b hal s idle offset size true (omega (arith, has.small))
                (omega (arith, has.small))))
          ∙ stage3_accepted offset size inside (omega (arith, has.small))
          ∙ ap answering (has.sends offset size fits))
        ∙ ap (λ n. read_answer (bus b hal world) n true old (answering part)) (sym part_length)
        ∙ read_answered b hal world computes part old true (after offset size) (
            All-take (λ x. x < 256) size (drop offset image)
              (All-drop (λ x. x < 256) offset image has.bytes))
      where
        part : List ℕ
        part = take size (drop offset image)

        answering : List ℕ → Device
        answering xs =
            sending b hal world (after offset size)
              (bytes32 result_ok ++ (data_bytes b hal world xs true ++ []))

        left : length (drop offset image) ≡ length image - offset
        left = length-drop offset image

        part_length : length part ≡ size
        part_length = length-take size (drop offset image) (omega (arith, left))

    reads_stage3 :
        (offset size : ℕ) (old : List ℕ)
        → offset < length image
        → offset + size ≤ length image
        → stage3_reader (bus b hal world) offset size old (quiet s)
          ≡ ((Code.zero_ok, take size (drop offset image)), quiet (after offset size))
    unfolding stage3_reader with_retry modchip_stage3_read_with_retry
    reads_stage3 offset size old inside fits =
        rw (modchip_stage3_read-answer offset size old inside fits) refl

  -- The firmware gives the bytes of its image of the third stage.
  pub firmware-GivesImage : GivesImage (stage3_reader (bus b hal world)) IsWaiting image
  firmware-GivesImage = record {
    gives = λ offset size old d ready inside fits.
        let e =
          ap (λ d. stage3_reader (bus b hal world) offset size old d) ready.1
          ∙ reads_stage3 ready.0 ready.2 offset size old inside fits in
        (
          ap (λ r. r.0) e,
          subst IsWaiting (sym (ap (λ r. r.1) e)) (
            after ready.0 ready.2 offset size,
            refl,
            (stage3_read_request-answer b hal ready.0 ready.2 offset size true
                (omega (arith, has.small)) (omega (arith, has.small))).0,
          ),
        );
  }
