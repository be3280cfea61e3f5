-- ===== src/Link/Files.antt =====
-- The console's file system driver against the firmware: a file is the data that the apps partition
-- has in the flash.
use mathlib.Core.Path.{subst}
use fruitchip.Common.{
  ℕ, zero, suc, true, List, ◌∷◌, ◌+◌, ◌-◌, ◌^◌, ◌<◌, ◌≤◌, ◌≡◌, refl, sym, arith, ◌∙◌, ap, Option,
  some, length, take, drop, u32, All-take, All-drop,
}
use fruitchip.Board.{Board}
use fruitchip.Hal.{Memory, Hal}
use fruitchip.Apps.{
  apps_partition_detect, apps_partition_entries_count, apps_partition_entry_addr,
  apps_partition_entry_length,
}
use fruitchip.Host.Apps.{Code, modchip_apps_read}
use fruitchip.Host.Requests.{apps_read_request}
use fruitchip.BootRom.Defs.{Handler, Chip}
use fruitchip.BootRom.Write.Idle.{write_bytes}
use fruitchip.BootRom.Commands.Reads.{apps_read_request-answer}
use fruitchip.Bootloader.{read_bytes}
use fruitchip.Fwfs.{
  Driver, Result, find_free_file_handle, fwfs_open, fwfs_read, get_mode_from_name,
  get_idx_from_name,
}
use fruitchip.Fwfs.Content.{Serves, entry_of}
use fruitchip.Fwfs.Open.{fwfs_read-fwfs_open}
use fruitchip.Link.{World, Device, bus, quiet}
use fruitchip.Link.Settings.{ComputesCrc}
use fruitchip.Link.Reads.{Bytes, modchip_apps_read-answer}

read_bytes-take : (m : Memory) (a n k : ℕ) → k ≤ n → take k (read_bytes m a n) ≡ read_bytes m a k
read_bytes-take m a n zero h = refl
read_bytes-take m a zero (suc k) h = absurd (omega arith)
read_bytes-take m a (suc n) (suc k) h =
    ap (λ l. m a ∷ l) (read_bytes-take m (a + 1) n k (omega arith))

read_bytes-drop :
    (m : Memory) (a n i : ℕ) → i ≤ n → drop i (read_bytes m a n) ≡ read_bytes m (a + i) (n - i)
read_bytes-drop m a n zero h = rw (added, taken) refl
  where
    added : a + 0 ≡ a
    added = omega arith

    taken : n - 0 ≡ n
    taken = omega arith
read_bytes-drop m a zero (suc i) h = absurd (omega arith)
read_bytes-drop m a (suc n) (suc i) h = read_bytes-drop m (a + 1) n i (omega arith) ∙ moved
  where
    moved : read_bytes m (a + 1 + i) (n - i) ≡ read_bytes m (a + suc i) (suc n - suc i)
    moved = ap (λ x. read_bytes m x (n - i)) further ∙ ap (read_bytes m (a + suc i)) shorter
      where
        further : a + 1 + i ≡ a + suc i
        further = omega arith

        shorter : n - i ≡ suc n - suc i
        shorter = omega arith

-- The flash holds a file: the apps partition has a valid table with an entry `idx`, which begins with
-- the size of the data, an attribute word and the data, and `tail` is what follows in the entry.
pub record HoldsFile (hal : Hal) (m : Memory) (idx attr : ℕ) (content tail : List ℕ) : Type 0 where
  pub table : apps_partition_detect hal m ≡ true
  pub known : idx < apps_partition_entries_count hal m
  pub is_byte : idx < 256
  pub inside : length (entry_of attr content tail) ≤ apps_partition_entry_length hal m idx
  pub fits : apps_partition_entry_addr hal m idx + length (entry_of attr content tail) < 2 ^ 32
  pub bytes : Bytes (entry_of attr content tail)
  pub entry :
      read_bytes m (apps_partition_entry_addr hal m idx) (length (entry_of attr content tail))
      ≡ entry_of attr content tail

-- The modchip is between two commands, has nothing to send and holds some memory.
abbrev pub Waiting : Memory → Device → Type 0
Waiting m d = (s : Chip) × (d ≡ quiet s) × (s.write_handler ≡ Handler.idle) × (s.memory ≡ m)

module _ (hal : Hal) (m : Memory) (idx attr : ℕ) (content tail : List ℕ)
    (holds : HoldsFile hal m idx attr content tail) where
  abbrev whole : List ℕ
  whole = entry_of attr content tail

  abbrev start : ℕ
  start = apps_partition_entry_addr hal m idx

  -- A range of the entry is a range of the flash.
  range :
      (offset size : ℕ)
      → 0 < size
      → offset + size ≤ length whole
      → read_bytes m (u32 (start + offset)) size ≡ take size (drop offset whole)
  range offset size positive h =
      ap (λ a. read_bytes m a size) address
      ∙ sym (read_bytes-take m (start + offset) (length whole - offset) size (omega arith))
      ∙ ap (take size) (sym (read_bytes-drop m start (length whole) offset (omega arith)))
      ∙ ap (λ l. take size (drop offset l)) holds.entry
    where
      address : u32 (start + offset) ≡ start + offset
      address = omega (arith, holds.fits)

  range-Bytes :
      (offset size : ℕ)
      → 0 < size
      → offset + size ≤ length whole
      → Bytes (read_bytes m (u32 (start + offset)) size)
  range-Bytes offset size positive h = subst Bytes (sym (range offset size positive h)) (
      All-take (λ x. x < 256) size (drop offset whole)
        (All-drop (λ x. x < 256) offset whole holds.bytes))

module _ (b : Board) (hal : Hal) (world : World) (computes : ComputesCrc hal) (idx attr : ℕ)
    (content tail : List ℕ) where
  abbrev reply : ℕ → ℕ → Chip → Device
  reply offset size s = quiet (write_bytes b hal s (apps_read_request offset size idx true)).0

  reads_entry :
      (s : Chip)
      → s.write_handler ≡ Handler.idle
      → HoldsFile hal s.memory idx attr content tail
      → (offset size : ℕ) (old : List ℕ) → 0 < size
      → offset + size ≤ length (entry_of attr content tail)
      → let (r, t) = modchip_apps_read (bus b hal world) offset size idx true old (quiet s) in
        (r ≡ (Code.zero_ok, take size (drop offset (entry_of attr content tail))))
        × Waiting s.memory t
  reads_entry s idle holds offset size old positive h =
      let read =
        modchip_apps_read-answer b hal world computes s idle offset size idx true old
          (omega (arith, holds.fits)) (omega (arith, holds.fits)) holds.is_byte holds.table
          (omega (arith, holds.inside)) holds.known
          (range-Bytes hal s.memory idx attr content tail holds offset size positive h) in
      let after =
        apps_read_request-answer b hal s idle offset size idx true (omega (arith, holds.fits))
          (omega (arith, holds.fits)) holds.is_byte in
      (
        ap (λ r. r.0) read
            ∙ ap (λ (xs : List ℕ). (Code.zero_ok, xs))
                (range hal s.memory idx attr content tail holds offset size positive h),
        subst (Waiting s.memory) (sym (ap (λ r. r.1) read)) (
          (write_bytes b hal s (apps_read_request offset size idx true)).0,
          refl,
          after.0,
          after.1,
        ),
      )

  -- The firmware serves the entries of a flash that holds them.
  pub firmware-Serves :
      (m : Memory)
      → HoldsFile hal m idx attr content tail
      → Serves (bus b hal world) (Waiting m) idx (entry_of attr content tail)
  firmware-Serves m holds = record {
    serves = λ offset size old d ready positive h.
        subst
          (λ d.
            let (r, t) = modchip_apps_read (bus b hal world) offset size idx true old d in
            (r ≡ (Code.zero_ok, take size (drop offset (entry_of attr content tail))))
            × Waiting m t)
          (sym ready.1)
          (subst
            (λ m.
              let (r, t) =
                modchip_apps_read (bus b hal world) offset size idx true old (quiet ready.0) in
              (r ≡ (Code.zero_ok, take size (drop offset (entry_of attr content tail))))
              × Waiting m t)
            ready.3
            (reads_entry ready.0 ready.2
              (subst (λ m. HoldsFile hal m idx attr content tail) (sym ready.3) holds) offset size
              old positive h));
  }

  -- The flash holds a file, the modchip is between two commands and a handle of the driver is free.
  -- Then an open of the file's data and a read with room for all of it return 0 and
  -- exactly the data in the flash, through the driver, the bus, the firmware and back.
  pub fwfs_read-HoldsFile :
      (m : Memory) (i : ℕ) (name : List ℕ) (privdata : Option ℕ) (ptr : List ℕ) (size : ℕ)
      (d : Driver Device)
      → HoldsFile hal m idx attr content tail
      → length content < 2 ^ 30
      → attr < 2 ^ 32
      → find_free_file_handle d.fd_handle ≡ some i
      → get_mode_from_name name ≡ b'd'
      → get_idx_from_name name ≡ idx
      → Waiting m d.device
      → 0 < length content
      → length content ≤ size
      → let (r, t) = fwfs_open (bus b hal world) name privdata d in
        (r ≡ (Result.value 0, some i))
        × ((fwfs_read (bus b hal world) (some i) ptr size t).0
            ≡ (Result.value (length content), content))
  fwfs_read-HoldsFile m i name privdata ptr size d holds small fits =
      fwfs_read-fwfs_open (bus b hal world) (Waiting m) idx attr content tail
        (firmware-Serves m holds) small fits i name privdata ptr size d
