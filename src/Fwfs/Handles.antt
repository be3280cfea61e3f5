-- ===== src/Fwfs/Handles.antt =====
-- The handles and the semaphore of fruitchip-fwfs/src/fwfs.c.
use mathlib.Core.Option.{map}
use fruitchip.Host.Apps.{data_offset}
use fruitchip.Common.{
  All, leb, u32, ◌+◌, ℕ, suc, Bool, true, false, List, [], ◌∷◌, ◌<◌, ◌≡◌, ◌≢◌, refl, arith, Option,
  none, some, ◌==◌, get_or, length, if◌then◌else◌,
}
use fruitchip.Host.Bus.{Bus, M}
use fruitchip.Fwfs.{
  FwfsFile, Driver, Result, Whence, blank, find_free_file_handle, get_file_handle_by_idx, fwfs_open,
  fwfs_close, fwfs_read, fwfs_lseek, fwfs_getstat, open_handle, open_data, open_attr,
  read_available, available_size, get_mode_from_name, get_idx_from_name,
}

-- A handle that is free, by its number; none says that no handle is.
abbrev pub Free : List FwfsFile → Option ℕ → Type 0
Free fs none = All (λ f. f.size ≢ 0) fs
Free fs (some i) = (i < length fs) × ((get_or fs i blank).size ≡ 0)

Free-map :
    (f : FwfsFile) (fs : List FwfsFile) (r : Option ℕ)
    → f.size ≢ 0
    → Free fs r
    → Free (f ∷ fs) (map suc r)
Free-map f fs none used h = (used, h)
Free-map f fs (some i) used h = (omega (arith, h.0), h.1)

-- The search finds a free handle, or there is none.
pub find_free_file_handle-Free : (fs : List FwfsFile) → Free fs (find_free_file_handle fs)
unfolding find_free_file_handle
find_free_file_handle-Free [] = tt
find_free_file_handle-Free (f ∷ fs) = go (f.size == 0) refl (find_free_file_handle-Free fs)
  where
    go :
        (c : Bool)
        → (f.size == 0) ≡ c
        → Free fs (find_free_file_handle fs)
        → Free (f ∷ fs) (if c then some 0 else map suc (find_free_file_handle fs))
    go true e h = (omega arith, ground (arith, e))
    go false e h = Free-map f fs (find_free_file_handle fs) (λ z. absurd (ground (arith, e, z))) h

module _ {S : Type 0} where
  -- Whatever the state, the semaphore is free afterwards.
  abbrev Releases : {A : Type 0} → M (Driver S) A → Type 0
  Releases m = (d : Driver S) → (m d).1.locked ≡ false

  if-Releases :
      {A : Type 0} (c : Bool) (x y : M (Driver S) A)
      → Releases x
      → Releases y
      → Releases (if c then x else y)
  if-Releases true x y hx hy = hx
  if-Releases false x y hx hy = hy

module _ {S : Type 0} (bus : Bus S) where
  open_data-Releases :
      (i : ℕ) (fd : FwfsFile) (privdata : Option ℕ) → Releases (open_data bus i fd privdata)
  unfolding open_data
  open_data-Releases i fd privdata d = if-Releases _ _ _ (λ t. refl) (λ t. refl) _

  open_attr-Releases :
      (i : ℕ) (fd : FwfsFile) (privdata : Option ℕ) → Releases (open_attr bus i fd privdata)
  unfolding open_attr
  open_attr-Releases i fd privdata d = if-Releases _ _ _ (λ t. refl) (λ t. refl) _

  open_handle-Releases :
      (free : Option ℕ) (name : List ℕ) (privdata : Option ℕ)
      → Releases (open_handle bus free name privdata)
  unfolding open_handle
  open_handle-Releases none name privdata d = refl
  open_handle-Releases (some i) name privdata d =
      if-Releases {A = Result × Option ℕ} (get_mode_from_name name == b'd')
        (open_data bus i fd privdata) _ (open_data-Releases i fd privdata)
        (if-Releases {A = Result × Option ℕ} (get_mode_from_name name == b'a')
          (open_attr bus i fd privdata) _ (open_attr-Releases i fd privdata) (λ t. refl))
        _
    where
      fd : FwfsFile
      fd = record (get_or d.fd_handle i blank) {
        idx = get_idx_from_name name;
        mode = get_mode_from_name name;
      }

  open-Releases : (name : List ℕ) (privdata : Option ℕ) → Releases (fwfs_open bus name privdata)
  unfolding fwfs_open
  open-Releases name privdata d =
      open_handle-Releases (find_free_file_handle d.fd_handle) name privdata _

  read_available-Releases :
      (i : ℕ) (fd : FwfsFile) (ptr : List ℕ) (available : ℕ)
      → Releases (read_available bus i fd ptr available)
  unfolding read_available
  read_available-Releases i fd ptr available d = if-Releases _ _ _ (λ t. refl) (λ t. refl) _

  read-Releases :
      (privdata : Option ℕ) (ptr : List ℕ) (size : ℕ) → Releases (fwfs_read bus privdata ptr size)
  unfolding fwfs_read
  read-Releases none ptr size d = refl
  read-Releases (some i) ptr size d =
      if-Releases {A = Result × List ℕ} (leb (u32 (fd.size + data_offset)) fd.offset) _
        (read_available bus i fd ptr (available_size fd size)) (λ t. refl)
        (read_available-Releases i fd ptr (available_size fd size)) _
    where
      fd : FwfsFile
      fd = get_or d.fd_handle i blank

  getstat-Releases : (name : List ℕ) (stat : ℕ) → Releases (fwfs_getstat bus name stat)
  unfolding fwfs_getstat
  getstat-Releases name stat d =
      go (get_file_handle_by_idx (get_idx_from_name name) d.fd_handle) refl
    where
      go :
          (found : Option FwfsFile)
          → get_file_handle_by_idx (get_idx_from_name name) d.fd_handle ≡ found
          → (fwfs_getstat bus name stat d).1.locked ≡ false
      go (some fd) e = rw e refl
      go none e = rw e (if-Releases _ _ _ (λ t. refl) (λ t. refl) _)

module _ {S : Type 0} where
  close_released :
      (privdata : Option ℕ) (d : Driver S)
      → d.locked ≡ false
      → (fwfs_close privdata d).1.locked ≡ false
  unfolding fwfs_close
  close_released none d h = h
  close_released (some i) d h = refl

  lseek-Releases :
      (privdata : Option ℕ) (offset : ℕ) (whence : Whence)
      → Releases {S = S} (fwfs_lseek privdata offset whence)
  unfolding fwfs_lseek
  lseek-Releases none offset whence d = refl
  lseek-Releases (some i) offset Whence.seek_set d = refl
  lseek-Releases (some i) offset Whence.seek_cur d = refl
  lseek-Releases (some i) offset Whence.seek_end d = refl
  lseek-Releases (some i) offset Whence.other d = refl

-- Started with the semaphore free, every operation leaves it free, on its error paths too.
pub operations_release :
    {S : Type 0} (bus : Bus S) (name : List ℕ) (privdata : Option ℕ) (ptr : List ℕ) (n : ℕ)
    (whence : Whence) (d : Driver S)
    → d.locked ≡ false
    → ((fwfs_open bus name privdata d).1.locked ≡ false)
      × ((fwfs_close privdata d).1.locked ≡ false)
      × ((fwfs_read bus privdata ptr n d).1.locked ≡ false)
      × ((fwfs_lseek privdata n whence d).1.locked ≡ false)
      × ((fwfs_getstat bus name n d).1.locked ≡ false)
operations_release bus name privdata ptr n whence d h = (
  open-Releases bus name privdata d,
  close_released privdata d h,
  read-Releases bus privdata ptr n d,
  lseek-Releases privdata n whence d,
  getstat-Releases bus name n d,
)
