-- ===== src/Tests/Files.antt =====
-- The file system driver on the simulated modchip.
use fruitchip.Common.{ℕ, false, List, [], ◌∷◌, ◌≡◌, refl, arith, some, none, get_or}
use fruitchip.Apps.{apps_partition_entry_addr}
use fruitchip.Fwfs.{
  Driver, Result, Whence, blank, find_free_file_handle, fwfs_open, fwfs_close, fwfs_read,
  fwfs_lseek, fwfs_getstat,
}
use fruitchip.Fwfs.Handles.{operations_release}
use fruitchip.Fwfs.Isolation.{operations_keep}
use fruitchip.Fwfs.Seek.{moved_to, fwfs_lseek-moved_to, fwfs_lseek_before_start}
use fruitchip.Fwfs.Content.{Open, fwfs_read-chunk}
use fruitchip.Link.{Device, bus, quiet}
use fruitchip.Link.Files.{Waiting, HoldsFile, firmware-Serves, fwfs_read-HoldsFile}
use fruitchip.Tests.Machine.{sim, tiny}
use fruitchip.Tests.Link.{
  world, stocked, with_app, sim-ComputesCrc, stocked-detect, stocked-count, stocked-length,
}

abbrev content : List ℕ
content = 0xde ∷ 0xad ∷ 0xbe ∷ 0xef ∷ []

with_app-HoldsFile : HoldsFile sim with_app 0 2 content []
unfolding apps_partition_entry_addr
with_app-HoldsFile = record {
  table = stocked-detect;
  known = omega (arith, stocked-count);
  is_byte = omega arith;
  inside = omega (arith, stocked-length);
  fits = omega arith;
  bytes = ground arith;
  entry = refl;
}

-- No file is open.
abbrev unused : Driver Device
unused = record {
  fd_handle = blank ∷ blank ∷ blank ∷ blank ∷ blank ∷ blank ∷ blank ∷ blank ∷ [];
  locked = false;
  device = quiet stocked;
}

-- A file is open and stands at its second byte.
abbrev reading : Driver Device
reading = record unused {
  fd_handle =
      blank
      ∷ record blank { size = 4; offset = 9; mode = b'd' }
      ∷ blank
      ∷ blank
      ∷ blank
      ∷ blank
      ∷ blank
      ∷ blank
      ∷ [];
}

fwfs_read-HoldsFile_example :
    let (r, t) = fwfs_open (bus tiny sim world) (b'd' ∷ 0 ∷ []) none unused in
    (r ≡ (Result.value 0, some 0))
    × ((fwfs_read (bus tiny sim world) (some 0) [] 100 t).0 ≡ (Result.value 4, content))
unfolding find_free_file_handle
fwfs_read-HoldsFile_example =
    fwfs_read-HoldsFile tiny sim world sim-ComputesCrc 0 2 content [] with_app 0 (b'd' ∷ 0 ∷ [])
      none [] 100 unused with_app-HoldsFile (omega arith) (omega arith) refl refl refl
      (stocked, refl, refl, refl) (omega arith) (omega arith)

-- Two of the three bytes that are left.
fwfs_read-chunk_example :
    let (r, t) = fwfs_read (bus tiny sim world) (some 1) [] 2 reading in
    (r ≡ (Result.value 2, 0xad ∷ 0xbe ∷ [])) × Open (Waiting with_app) 0 content 1 3 t
fwfs_read-chunk_example =
    fwfs_read-chunk (bus tiny sim world) _ 0 2 content []
      (firmware-Serves tiny sim world sim-ComputesCrc 0 2 content [] with_app with_app-HoldsFile)
      (omega arith) 1 1 reading
      (record {
        valid = omega arith;
        is_idx = refl;
        is_size = refl;
        here = refl;
        ready = (stocked, refl, refl, refl);
      })
      [] 2 (omega arith) (omega arith)

-- A file that has just been opened: it stands at its start.
abbrev opened : Driver Device
opened = record unused {
  fd_handle =
      blank
      ∷ record blank { size = 4; offset = 8; mode = b'd' }
      ∷ blank
      ∷ blank
      ∷ blank
      ∷ blank
      ∷ blank
      ∷ blank
      ∷ [];
}

fwfs_lseek-moved_to_example :
    (fwfs_lseek (some 1) 9 Whence.seek_set opened ≡ moved_to 1 opened 4)
    × (fwfs_lseek (some 1) 9 Whence.seek_cur opened ≡ moved_to 1 opened 4)
    × (fwfs_lseek (some 1) 0 Whence.seek_cur opened ≡ moved_to 1 opened 0)
    × (fwfs_lseek (some 1) 3 Whence.seek_end opened ≡ moved_to 1 opened 1)
fwfs_lseek-moved_to_example =
    fwfs_lseek-moved_to 1 opened 0 (omega arith) (omega arith) refl 9 0 3 (omega arith)
      (omega arith) (omega arith)

-- A seek to -4.
fwfs_lseek_before_start_example : fwfs_lseek (some 1) 0xFFFFFFFC Whence.seek_set reading ≡ (
  Result.value 0xFFFFFFFC,
  record reading {
    fd_handle =
        blank
        ∷ record blank { size = 4; offset = 4; mode = b'd' }
        ∷ blank
        ∷ blank
        ∷ blank
        ∷ blank
        ∷ blank
        ∷ blank
        ∷ [];
  },
)
fwfs_lseek_before_start_example =
    fwfs_lseek_before_start 1 reading 4 (omega arith) (omega arith) (omega arith)

operations_release_example :
    ((fwfs_open (bus tiny sim world) (b'd' ∷ 0 ∷ []) (some 1) reading).1.locked ≡ false)
    × ((fwfs_close (some 1) reading).1.locked ≡ false)
    × ((fwfs_read (bus tiny sim world) (some 1) [] 3 reading).1.locked ≡ false)
    × ((fwfs_lseek (some 1) 3 Whence.other reading).1.locked ≡ false)
    × ((fwfs_getstat (bus tiny sim world) (b'd' ∷ 0 ∷ []) 3 reading).1.locked ≡ false)
operations_release_example =
    operations_release (bus tiny sim world) (b'd' ∷ 0 ∷ []) (some 1) [] 3 Whence.other reading refl

operations_keep_example :
    (get_or (fwfs_open (bus tiny sim world) (b'd' ∷ 0 ∷ []) none reading).1.fd_handle 1 blank
      ≡ record blank { size = 4; offset = 9; mode = b'd' })
    × (get_or (fwfs_close (some 2) reading).1.fd_handle 1 blank
        ≡ record blank { size = 4; offset = 9; mode = b'd' })
    × (get_or (fwfs_read (bus tiny sim world) (some 2) [] 3 reading).1.fd_handle 1 blank
        ≡ record blank { size = 4; offset = 9; mode = b'd' })
    × (get_or (fwfs_lseek (some 2) 3 Whence.seek_cur reading).1.fd_handle 1 blank
        ≡ record blank { size = 4; offset = 9; mode = b'd' })
operations_keep_example =
    operations_keep (bus tiny sim world) (b'd' ∷ 0 ∷ []) none [] 3 Whence.seek_cur 2 1 reading
      (λ e. absurd (ground (arith, e))) (λ e. absurd (ground (arith, e)))
