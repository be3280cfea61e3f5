-- ===== src/Menu/Writing.antt =====
-- fruitchip-menu/src/scene/settings/update/writing.c: how an update is written. The bytes at `update`,
-- and behind it, are a function of the offset.
pub mod Relock
use fruitchip.Common.{
  ℕ, zero, suc, Bool, true, false, List, [], ◌∷◌, ◌+◌, ◌/◌, if◌then◌else◌, ltb, u32, Option, none,
  some,
}
use fruitchip.Modchip.{partition_idx_fw_update, partition_idx_apps}
use fruitchip.Host.Bus.{M, ◌>>=◌, ◌>>◌, return}
use fruitchip.Menu.Checking.{UpdateType}

-- The functions of fruitchip-include/modchip/flash.h that the scene calls, each with its retries.
pub record Calls (S : Type 0) : Type 0 where
  pub set_write_lock : Bool → M S Bool
  pub erase_flash_sector : ℕ → ℕ → ℕ → M S Bool
  pub get_flash_sector_size : M S (Bool × ℕ)
  pub write_flash_sector : ℕ → ℕ → List ℕ → M S Bool

-- How the scene ends.
pub data Ending : Type 0 where
  not_unlocked not_erased no_sector_size not_written written : Ending

abbrev pub partition_of : UpdateType → ℕ
partition_of UpdateType.fw = partition_idx_fw_update
partition_of UpdateType.apps = partition_idx_apps

-- `memcpy(sector, update + offset, sector_size)`. It writes over the padding of a sector that the
-- update does not fill.
abbrev pub sector_bytes : (ℕ → ℕ) → ℕ → ℕ → List ℕ
sector_bytes update offset zero = []
sector_bytes update offset (suc n) = update offset ∷ sector_bytes update (offset + 1) n

module _ {S : Type 0} (calls : Calls S) (ty : UpdateType) (update : ℕ → ℕ) (size : ℕ) where
  abbrev pub write_update_sector : ℕ → ℕ → M S Bool
  write_update_sector offset sector_size =
      calls.write_flash_sector (partition_of ty) (offset / sector_size)
        (sector_bytes update offset sector_size)

  -- The loop from the second sector on; none is a loop that has not ended when the fuel has.
  unfoldable pub write_sectors : ℕ → ℕ → ℕ → M S (Option Bool)
  write_sectors zero sector_size offset s = (none, s)
  write_sectors (suc fuel) sector_size offset s =
      let (ok, t) = write_update_sector offset sector_size s in
      let rest = write_sectors fuel sector_size (u32 (offset + sector_size)) t in
      if ltb offset size then if ok then rest else (some false, t) else (some true, s)

  -- The label `exit`.
  abbrev pub finish : Ending → M S (Option Ending)
  finish ending = do calls.set_write_lock true; return (some ending)

  unfoldable pub write_first : ℕ → Option Bool → M S (Option Ending)
  write_first sector_size none = return none
  write_first sector_size (some false) = finish Ending.not_written
  write_first sector_size (some true) = do
    ok ← write_update_sector 0 sector_size
    if ok then finish Ending.written else finish Ending.not_written

  unfoldable pub write_all : ℕ → Bool × ℕ → M S (Option Ending)
  write_all fuel (false, sector_size) = finish Ending.no_sector_size
  write_all fuel (true, sector_size) = do
    others ← write_sectors fuel sector_size sector_size
    write_first sector_size others

  unfoldable pub erase_then_write : ℕ → Bool → M S (Option Ending)
  erase_then_write fuel false = finish Ending.not_erased
  erase_then_write fuel true = do
    sector_size ← calls.get_flash_sector_size
    write_all fuel sector_size

  unfoldable pub write_unlocked : ℕ → Bool → M S (Option Ending)
  write_unlocked fuel false = finish Ending.not_unlocked
  write_unlocked fuel true = do
    erased ← calls.erase_flash_sector (partition_of ty) 0 1
    erase_then_write fuel erased

  unfoldable pub write_update : ℕ → M S (Option Ending)
  write_update fuel = do unlocked ← calls.set_write_lock false; write_unlocked fuel unlocked
