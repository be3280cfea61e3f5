-- ===== src/Menu/Writing/Relock.antt =====
-- An attempt to write an update ends, and leaves the write lock closed.
use fruitchip.Common.{ℕ, true, ◌+◌, ◌^◌, ◌<◌, ◌≤◌, ◌≡◌, Option, some}
use fruitchip.Menu.Checking.{UpdateType}
use fruitchip.Menu.Writing.{Calls, Ending}

module _ {S : Type 0} (calls : Calls S) (ty : UpdateType) (update : ℕ → ℕ) (size : ℕ) where
  -- The run ends, and the last thing it does is to close the write lock.
  abbrev pub Relocks : Option Ending × S → Type 0
  Relocks r =
      (ending : Ending) × (before : S) × (r ≡ (some ending, (calls.set_write_lock true before).1))

  -- The sizes that the modchip reports are such that the loop ends.
  abbrev pub Ends : ℕ → Type 0
  Ends fuel =
      (s : S)
      → (0 < (calls.get_flash_sector_size s).0.1)
        × (size + (calls.get_flash_sector_size s).0.1 ≤ 2 ^ 32)
        × (size < fuel)
