-- ===== src/BootRom/Commands/Sector.antt =====
-- How the 4096 data bytes of `MODCHIP_CMD_WRITE_FLASH_SECTOR` are received.
use fruitchip.Common.{ℕ, suc, List, [], ◌∷◌, ◌+◌, ◌<◌, ◌≡◌, refl, arith, ◌∙◌, ap, length, set}
use fruitchip.Board.{Board}
use fruitchip.Hal.{Hal}
use fruitchip.BootRom.Defs.{Handler, Chip}
use fruitchip.BootRom.Write.Sector.{write_flash_sector, commit_sector}
use fruitchip.BootRom.Write.Idle.{write_bytes, write_byte}
use fruitchip.BootRom.Commands.Start.{write_bytes_last, write_bytes_wait}

-- The buffer after the bytes have been stored one by one from index `i` on.
abbrev store_from : List ℕ → ℕ → List ℕ → List ℕ
store_from buf i [] = buf
store_from buf i (x ∷ xs) = store_from (set buf i x) (suc i) xs

store_from-cons :
    (y : ℕ) (buf : List ℕ) (i : ℕ) (xs : List ℕ)
    → store_from (y ∷ buf) (suc i) xs ≡ y ∷ store_from buf i xs
store_from-cons y buf i [] = refl
store_from-cons y buf i (x ∷ xs) = store_from-cons y (set buf i x) (suc i) xs

-- As many bytes as the buffer holds replace it.
pub store_from_all : (buf xs : List ℕ) → length buf ≡ length xs → store_from buf 0 xs ≡ xs
store_from_all [] [] e = refl
store_from_all [] (x ∷ xs) e = absurd (omega arith)
store_from_all (y ∷ buf) [] e = absurd (omega arith)
store_from_all (y ∷ buf) (x ∷ xs) e =
    store_from-cons x buf 0 xs ∙ ap (λ l. x ∷ l) (store_from_all buf xs (omega arith))

module _ (b : Board) (hal : Hal) (s : Chip) where
  -- `i` data bytes have arrived.
  abbrev pub receiving : ℕ → List ℕ → Chip
  receiving i buf = record s {
    cmd_byte_counter = 21 + i;
    write_handler = Handler.write_flash_sector_end;
    flash = record (s.flash) { sector = buf };
  }

  receive_step :
      (i x : ℕ) (buf : List ℕ)
      → i < 4095
      → write_byte b hal (receiving i buf) x ≡ (receiving (suc i) (set buf i x), [])
  unfolding write_byte write_flash_sector
  receive_step i x buf h = ground arith

  receive_last :
      (x : ℕ) (buf : List ℕ)
      → write_byte b hal (receiving 4095 buf) x
        ≡ commit_sector b hal (receiving 4096 (set buf 4095 x))
  unfolding write_byte write_flash_sector
  receive_last x buf = refl

  receive_last_at :
      (i x : ℕ) (buf : List ℕ)
      → i ≡ 4095
      → write_byte b hal (receiving i buf) x ≡ commit_sector b hal (receiving 4096 (set buf i x))
  receive_last_at i x buf e = rw e (receive_last x buf)

  pub receive_all :
      (i x : ℕ) (buf xs : List ℕ)
      → i + length (x ∷ xs) ≡ 4096
      → write_bytes b hal (receiving i buf) (x ∷ xs)
        ≡ commit_sector b hal (receiving 4096 (store_from buf i (x ∷ xs)))
  receive_all i x buf [] e =
      write_bytes_last b hal (receiving i buf) x ∙ receive_last_at i x buf (omega arith)
  receive_all i x buf (y ∷ xs) e =
      write_bytes_wait b hal (receiving i buf) (receiving (suc i) (set buf i x)) x (y ∷ xs)
        (receive_step i x buf (omega arith))
      ∙ receive_all (suc i) y (set buf i x) xs (omega arith)
