-- ===== src/Link.antt =====
-- The console and the modchip on one bus: a store to the boot ROM's address is a byte for the write
-- handlers, and what fruitchip-fw/src/boot_rom/data_out.c starts is what the loads get. While a
-- transfer runs the sniffers are stopped, so a store is not seen; without one a load gets the boot
-- ROM's own byte.
pub mod Pokes
pub mod Settings
pub mod Reads
pub mod RoundTrip
pub mod Files
pub mod Loader
use fruitchip.Common.{
  ℕ, zero, suc, Bool, true, false, List, [], ◌∷◌, ◌++◌, ◌+◌, if◌then◌else◌, bytes32, word32, take,
}
use fruitchip.Modchip.{result_busy}
use fruitchip.Board.{Board}
use fruitchip.Hal.{Memory, Hal}
use fruitchip.Host.Bus.{Bus}
use fruitchip.BootRom.Defs.{
  Source, Call, Chip, Effect, start_status_code, start_data_with_status_code,
  start_data_without_status_code, set_data, start_busy_code, stop_busy_code,
}
use fruitchip.BootRom.Write.Idle.{write_byte}
use fruitchip.Bootloader.{read_bytes}

-- What the model does not fix: the images in the firmware, by a number of bytes, and how many times
-- the console gets the busy code before a command has ended.
pub record World : Type 0 where
  pub image : Source → ℕ → List ℕ
  pub busy : ℕ

-- The modchip, and the bytes that the transfer which runs has not sent yet.
pub record Device : Type 0 where
  pub chip : Chip
  pub out : List ℕ

abbrev pub busy_words : ℕ → List ℕ
busy_words zero = []
busy_words (suc n) = bytes32 result_busy ++ busy_words n

module _ (b : Board) (hal : Hal) (world : World) where
  abbrev pub source_bytes : Memory → Source → ℕ → List ℕ
  source_bytes m (Source.response_word v) n = take n (bytes32 v)
  source_bytes m Source.ee_stage1_size n = take n (bytes32 b.ee_stage1_size)
  source_bytes m Source.ee_stage2_size n = take n (bytes32 b.ee_stage2_size)
  source_bytes m (Source.flash_window a) n = read_bytes m a n
  source_bytes m src n = world.image src n

  -- The data of a transfer and, with `crc`, its checksum.
  abbrev pub data_bytes : List ℕ → Bool → List ℕ
  data_bytes xs crc = xs ++ (if crc then bytes32 (hal.sniff_crc32 xs 0xFFFFFFFF) else [])

  -- What the console gets of the calls of a handler; `pend` is the data that was set last.
  abbrev pub call_bytes : Memory → List ℕ → List Call → List ℕ
  call_bytes m pend [] = []
  call_bytes m pend (start_status_code code ∷ calls) = bytes32 code ++ call_bytes m pend calls
  call_bytes m pend (start_data_with_status_code code src n crc ∷ calls) =
      bytes32 code
      ++ (data_bytes (source_bytes m src n) crc ++ call_bytes m (source_bytes m src n) calls)
  call_bytes m pend (start_data_without_status_code crc ∷ calls) =
      data_bytes pend crc ++ call_bytes m pend calls
  call_bytes m pend (set_data src n ∷ calls) = call_bytes m (source_bytes m src n) calls
  call_bytes m pend (start_busy_code ∷ calls) = busy_words world.busy ++ call_bytes m pend calls
  call_bytes m pend (stop_busy_code code ∷ calls) = bytes32 code ++ call_bytes m pend calls
  call_bytes m pend (call ∷ calls) = call_bytes m pend calls

  -- The device after a handler has run.
  abbrev pub device_of : Effect → Device
  device_of (c, calls) = record { chip = c; out = call_bytes c.memory [] calls }

  abbrev pub send : List ℕ → Device → ℕ × Device
  send [] d = (0, d)
  send (x ∷ xs) d = (x, record d { out = xs })

  abbrev pub peek_u8 : Device → ℕ × Device
  peek_u8 d = send d.out d

  abbrev pub receive : List ℕ → ℕ → Device → Device
  receive [] w d = device_of (write_byte b hal d.chip w)
  receive (x ∷ xs) w d = d

  -- A load of a word is four loads of bytes.
  abbrev pub bus : Bus Device
  bus = record {
    poke_u8 = λ w d. receive d.out w d;
    peek_u8 = peek_u8;
    peek_u32 = λ d.
        let (b0, d0) = peek_u8 d in
        let (b1, d1) = peek_u8 d0 in
        let (b2, d2) = peek_u8 d1 in let (b3, d3) = peek_u8 d2 in (word32 b0 b1 b2 b3, d3);
  }

-- A modchip that sends nothing.
abbrev pub quiet : Chip → Device
quiet c = record { chip = c; out = [] }
