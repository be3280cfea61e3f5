-- ===== src/Fwfs/Isolation.antt =====
-- An operation of fruitchip-fwfs/src/fwfs.c leaves the other files' handles alone.
use fruitchip.Host.Apps.{is_zero, size_offset, attr_size}
use fruitchip.Common.{
  Bool-cases, inl, inr, bytes32, ◌++◌, ℕ, true, List, ◌+◌, ◌≡◌, ◌≢◌, refl, sym, ◌∙◌, ap, Option,
  none, some, ◌==◌, get_or, leb, u32, get_or-set_ne, set,
}
use fruitchip.Host.Bus.{Bus, M}
use fruitchip.Host.Apps.{data_offset}
use fruitchip.Fwfs.{
  FwfsFile, Driver, Whence, blank, find_free_file_handle, fwfs_open, fwfs_close, fwfs_read,
  fwfs_lseek, open_handle, open_data, open_attr, read_available, get_mode_from_name, read_entry,
}
use fruitchip.Fwfs.Handles.{Free, find_free_file_handle-Free}

stored :
    (i : ℕ) (fd : FwfsFile) (fs : List FwfsFile) (j : ℕ)
    → i ≢ j
    → get_or (set fs i fd) j blank ≡ get_or fs j blank
stored i fd fs j ne = get_or-set_ne fs i j fd blank ne

module _ {S : Type 0} where
  -- Every handle but number `i` is as before.
  abbrev pub SameBut : ℕ → Driver S → Driver S → Type 0
  SameBut i d t = (j : ℕ) → i ≢ j → get_or t.fd_handle j blank ≡ get_or d.fd_handle j blank

  abbrev OnlyHandle : {A : Type 0} → ℕ → M (Driver S) A → Type 0
  OnlyHandle i m = (d : Driver S) → SameBut i d (m d).1

module _ {S : Type 0} (bus : Bus S) where
  open_data-OnlyHandle :
      (i : ℕ) (fd : FwfsFile) (privdata : Option ℕ) → OnlyHandle i (open_data bus i fd privdata)
  unfolding open_data read_entry
  open_data-OnlyHandle i fd privdata d j ne =
      elim (Bool-cases (
        is_zero (read_entry bus size_offset 8 fd.idx (bytes32 fd.size ++ bytes32 fd.attr) d).0.0)) [
          | inl e ↦ rw e (stored i _ _ j ne ∙ stored i _ d.fd_handle j ne)
          | inr e ↦ rw e (stored i _ d.fd_handle j ne)
        ]

  open_attr-OnlyHandle :
      (i : ℕ) (fd : FwfsFile) (privdata : Option ℕ) → OnlyHandle i (open_attr bus i fd privdata)
  unfolding open_attr read_entry
  open_attr-OnlyHandle i fd privdata d j ne =
      elim (Bool-cases (is_zero (read_entry bus attr_size 4 fd.idx (bytes32 fd.attr) d).0.0)) [
        | inl e ↦ rw e (stored i _ _ j ne ∙ stored i _ d.fd_handle j ne)
        | inr e ↦ rw e (stored i _ d.fd_handle j ne)
      ]

  read_available-OnlyHandle :
      (i : ℕ) (fd : FwfsFile) (ptr : List ℕ) (available : ℕ)
      → OnlyHandle i (read_available bus i fd ptr available)
  unfolding read_available read_entry
  read_available-OnlyHandle i fd ptr available d j ne =
      elim (Bool-cases (is_zero (read_entry bus fd.offset available fd.idx ptr d).0.0)) [
        | inl e ↦ rw e (stored i _ d.fd_handle j ne)
        | inr e ↦ rw e refl
      ]

  open_handle-OnlyHandle :
      (i : ℕ) (name : List ℕ) (privdata : Option ℕ)
      → OnlyHandle i (open_handle bus (some i) name privdata)
  unfolding open_handle
  open_handle-OnlyHandle i name privdata d j ne =
      elim (Bool-cases (get_mode_from_name name == b'd')) [
        | inl e ↦ rw e (open_data-OnlyHandle i _ privdata _ j ne ∙ stored i _ d.fd_handle j ne)
        | inr e ↦ elim (Bool-cases (get_mode_from_name name == b'a')) [
          | inl e' ↦
              rw (e, e') (open_attr-OnlyHandle i _ privdata _ j ne ∙ stored i _ d.fd_handle j ne)
          | inr e' ↦ rw (e, e') (stored i _ d.fd_handle j ne)
        ]
      ]

  open_keeps :
      (name : List ℕ) (privdata : Option ℕ) (d : Driver S) (j : ℕ)
      → (get_or d.fd_handle j blank).size ≢ 0
      → get_or (fwfs_open bus name privdata d).1.fd_handle j blank ≡ get_or d.fd_handle j blank
  unfolding fwfs_open open_handle
  open_keeps name privdata d j used =
      go (find_free_file_handle d.fd_handle) (find_free_file_handle-Free d.fd_handle)
    where
      go :
          (found : Option ℕ)
          → Free d.fd_handle found
          → get_or
              (open_handle bus found name privdata (record d { locked = true })).1.fd_handle
              j
              blank
            ≡ get_or d.fd_handle j blank
      go none free = refl
      go (some i) free =
          open_handle-OnlyHandle i name privdata (record d { locked = true }) j
            (λ e. absurd (used (sym (ap (λ k. (get_or d.fd_handle k blank).size) e) ∙ free.1)))

  read-OnlyHandle :
      (i : ℕ) (ptr : List ℕ) (size : ℕ) → OnlyHandle i (fwfs_read bus (some i) ptr size)
  unfolding fwfs_read
  read-OnlyHandle i ptr size d j ne =
      elim (Bool-cases (
        leb (u32 ((get_or d.fd_handle i blank).size + data_offset))
          (get_or d.fd_handle i blank).offset)) [
            | inl e ↦ rw e refl
            | inr e ↦ rw e (read_available-OnlyHandle i _ ptr _ _ j ne)
          ]

module _ {S : Type 0} where
  close-OnlyHandle : (i : ℕ) → OnlyHandle {S = S} i (fwfs_close (some i))
  unfolding fwfs_close
  close-OnlyHandle i d j ne = stored i _ d.fd_handle j ne

  lseek-OnlyHandle :
      (i offset : ℕ) (whence : Whence) → OnlyHandle {S = S} i (fwfs_lseek (some i) offset whence)
  unfolding fwfs_lseek
  lseek-OnlyHandle i offset Whence.seek_set d j ne = stored i _ d.fd_handle j ne
  lseek-OnlyHandle i offset Whence.seek_cur d j ne = stored i _ d.fd_handle j ne
  lseek-OnlyHandle i offset Whence.seek_end d j ne = stored i _ d.fd_handle j ne
  lseek-OnlyHandle i offset Whence.other d j ne = refl

-- The handle of a file keeps its value when another file is read, moved or closed, and, as long as
-- its size is not zero, when a file is opened, with success or not.
pub operations_keep :
    {S : Type 0} (bus : Bus S) (name : List ℕ) (privdata : Option ℕ) (ptr : List ℕ) (n : ℕ)
    (whence : Whence) (i j : ℕ) (d : Driver S)
    → (get_or d.fd_handle j blank).size ≢ 0
    → i ≢ j
    → (get_or (fwfs_open bus name privdata d).1.fd_handle j blank ≡ get_or d.fd_handle j blank)
      × (get_or (fwfs_close (some i) d).1.fd_handle j blank ≡ get_or d.fd_handle j blank)
      × (get_or (fwfs_read bus (some i) ptr n d).1.fd_handle j blank ≡ get_or d.fd_handle j blank)
      × (get_or (fwfs_lseek (some i) n whence d).1.fd_handle j blank ≡ get_or d.fd_handle j blank)
operations_keep bus name privdata ptr n whence i j d used ne = (
  open_keeps bus name privdata d j used,
  close-OnlyHandle i d j ne,
  read-OnlyHandle bus i ptr n d j ne,
  lseek-OnlyHandle i n whence d j ne,
)
