-- ===== src/Fwfs.antt =====
-- fruitchip-fwfs/src/fwfs.c: the console's file system driver for the apps partition. An `int` and a
-- `u32` are natural numbers below 2^32, a negative `int` by its bit pattern. A file of the console's
-- IO manager is its `privdata`: NULL, or the number of a handle.
pub mod Handles
pub mod Isolation
pub mod Seek
pub mod Content
pub mod Open
use mathlib.Core.Option.{map}
use fruitchip.Common.{
  ℕ, zero, suc, Bool, true, false, List, [], ◌∷◌, ◌++◌, ◌+◌, ◌^◌, ◌==◌, leb, ltb, if◌then◌else◌,
  Option, none, some, u32, sub32, bytes32, word_at, get_or, set,
}
use fruitchip.Host.Bus.{Bus, M, ◌>>=◌, ◌>>◌, return, cmd_retries}
use fruitchip.Host.Apps.{
  Code, is_zero, size_offset, attr_offset, attr_size, data_offset, modchip_apps_read_with_retry,
}

-- `fwfs_file_t`.
pub record FwfsFile : Type 0 where
  pub mode : ℕ
  pub idx : ℕ
  pub size : ℕ
  pub attr : ℕ
  pub offset : ℕ

abbrev pub blank : FwfsFile
blank = record { mode = 0; idx = 0; size = 0; attr = 0; offset = 0 }

-- `MAX_FILES`.
abbrev pub max_files : ℕ
max_files = 8

-- The errors that the driver returns, each as its negative number.
pub data Errno : Type 0 where
  emfile eio enosys ebadf einval enolck : Errno

pub data Result : Type 0 where
  value : ℕ → Result
  error : Errno → Result

-- `whence` of a seek.
pub data Whence : Type 0 where
  seek_set seek_cur seek_end other : Whence

-- The static state: the handles, whether the semaphore is taken, and the bus.
pub record Driver (S : Type 0) : Type 0 where
  pub fd_handle : List FwfsFile
  pub locked : Bool
  pub device : S

-- The first handle whose size is zero, by its number.
unfoldable pub find_free_file_handle : List FwfsFile → Option ℕ
find_free_file_handle [] = none
find_free_file_handle (f ∷ fs) =
    let rest = find_free_file_handle fs in if f.size == 0 then some 0 else map suc rest

unfoldable pub get_file_handle_by_idx : ℕ → List FwfsFile → Option FwfsFile
get_file_handle_by_idx idx [] = none
get_file_handle_by_idx idx (f ∷ fs) =
    let rest = get_file_handle_by_idx idx fs in
    if f.size == 0 then rest else if f.idx == idx then some f else rest

-- A name is the bytes before its NUL.
abbrev pub get_idx_from_name : List ℕ → ℕ
get_idx_from_name name = if get_or name 0 0 == b'/' then get_or name 2 0 else get_or name 1 0

abbrev pub get_mode_from_name : List ℕ → ℕ
get_mode_from_name name = if get_or name 0 0 == b'/' then get_or name 1 0 else get_or name 0 0

-- `offset` after the switch on `whence`, or none for an unknown one; and what the two checks after
-- the switch make of it.
abbrev pub seek_target : Whence → ℕ → FwfsFile → Option ℕ
seek_target Whence.seek_set offset fd = some (u32 (offset + data_offset))
seek_target Whence.seek_cur offset fd = some (u32 (fd.offset + offset))
seek_target Whence.seek_end offset fd = some (sub32 (u32 (fd.size + data_offset)) offset)
seek_target Whence.other offset fd = none

unfoldable pub clamp : ℕ → ℕ → ℕ
clamp size offset =
    let from_start = if leb (2 ^ 31) offset then data_offset else offset in
    if ltb (u32 (size + data_offset)) from_start then u32 (size + data_offset) else from_start

-- `available_size`.
unfoldable pub available_size : FwfsFile → ℕ → ℕ
available_size fd size =
    let remaining_size = sub32 fd.size (sub32 fd.offset data_offset) in
    if ltb size remaining_size then size else remaining_size

module _ {S : Type 0} where
  abbrev pub fs_lock : M (Driver S) (Unit {0})
  fs_lock d = (tt, record d { locked = true })

  abbrev pub fs_unlock : M (Driver S) (Unit {0})
  fs_unlock d = (tt, record d { locked = false })

  -- Unlock and return.
  abbrev pub leave : {A : Type 0} → A → M (Driver S) A
  leave a = do fs_unlock; return a

  abbrev pub handle : ℕ → M (Driver S) FwfsFile
  handle i d = (get_or d.fd_handle i blank, d)

  abbrev pub store_handle : ℕ → FwfsFile → M (Driver S) (Unit {0})
  store_handle i fd d = (tt, record d { fd_handle = set d.fd_handle i fd })

  -- `created` is whether the kernel could make the semaphore.
  unfoldable pub fwfs_init : Bool → M (Driver S) Result
  fwfs_init false d = (Result.error Errno.enolck, d)
  fwfs_init true d = (Result.value 0, record d { locked = false })

  abbrev pub fwfs_not_implemented : M (Driver S) Result
  fwfs_not_implemented d = (Result.error Errno.enosys, d)

  unfoldable pub fwfs_close : Option ℕ → M (Driver S) Result
  fwfs_close none = return (Result.error Errno.ebadf)
  fwfs_close (some i) = do
    fs_lock
    fd ← handle i
    store_handle i (record fd { idx = 0; size = 0; attr = 0; offset = 0 })
    leave (Result.value 0)

  -- What is returned is also where the file stands, from its start.
  unfoldable pub fwfs_lseek : Option ℕ → ℕ → Whence → M (Driver S) Result
  unfolding clamp
  fwfs_lseek none offset whence = do fs_lock; leave (Result.error Errno.ebadf)
  fwfs_lseek (some i) offset whence = do
    fs_lock
    fd ← handle i
    move fd (seek_target whence offset fd)
    where
      move : FwfsFile → Option ℕ → M (Driver S) Result
      move fd none = leave (Result.error Errno.einval)
      move fd (some target) = do
        store_handle i (record fd { offset = clamp fd.size target })
        leave (Result.value (sub32 (clamp fd.size target) data_offset))

module _ {S : Type 0} (bus : Bus S) where
  -- The reads of the driver: with a checksum and three attempts. `old` is what is at `dst` before.
  unfoldable pub read_entry : ℕ → ℕ → ℕ → List ℕ → M (Driver S) (Code × List ℕ)
  unfolding modchip_apps_read_with_retry
  read_entry offset size idx old d =
      let (r, t) =
        modchip_apps_read_with_retry bus offset size idx true (Code.io, old) cmd_retries d.device in
      (r, record d { device = t })

  -- The driver's answer to an open and the file's `privdata`.
  abbrev pub refuse : Errno → Option ℕ → M (Driver S) (Result × Option ℕ)
  refuse e privdata = leave (Result.error e, privdata)

  -- The branch of the open for a file's data. The read is into `size` and `attr`, which lie side
  -- by side.
  unfoldable pub open_data : ℕ → FwfsFile → Option ℕ → M (Driver S) (Result × Option ℕ)
  open_data i fd privdata = do
    r ← read_entry size_offset 8 fd.idx (bytes32 fd.size ++ bytes32 fd.attr)
    store_handle i (record fd { size = word_at r.1 0; attr = word_at r.1 4 })
    if is_zero r.0 then opened r.1 else refuse Errno.eio privdata
    where
      opened : List ℕ → M (Driver S) (Result × Option ℕ)
      opened words = do
        store_handle i
            (record fd { size = word_at words 0; attr = word_at words 4; offset = data_offset })
        leave (Result.value 0, some i)

  -- The branch for an attribute word. The source passes `MODCHIP_APPS_ATTR_SIZE` as the offset.
  unfoldable pub open_attr : ℕ → FwfsFile → Option ℕ → M (Driver S) (Result × Option ℕ)
  open_attr i fd privdata = do
    r ← read_entry attr_size 4 fd.idx (bytes32 fd.attr)
    store_handle i (record fd { attr = word_at r.1 0 })
    if is_zero r.0 then opened r.1 else refuse Errno.eio privdata
    where
      opened : List ℕ → M (Driver S) (Result × Option ℕ)
      opened words = do
        store_handle i
            (record fd { size = attr_size; attr = word_at words 0; offset = attr_offset })
        leave (Result.value 0, some i)

  unfoldable pub open_handle : Option ℕ → List ℕ → Option ℕ → M (Driver S) (Result × Option ℕ)
  open_handle none name privdata = refuse Errno.emfile privdata
  open_handle (some i) name privdata = do
    free ← handle i
    store_handle i (named free)
    if get_mode_from_name name == b'd'
        then open_data i (named free) privdata
        else if get_mode_from_name name == b'a'
        then open_attr i (named free) privdata
        else refuse Errno.enosys privdata
    where
      named : FwfsFile → FwfsFile
      named free = record free { idx = get_idx_from_name name; mode = get_mode_from_name name }

  unfoldable pub fwfs_open : List ℕ → Option ℕ → M (Driver S) (Result × Option ℕ)
  fwfs_open name privdata d =
      let (locked_now, t) = fs_lock d in
      open_handle (find_free_file_handle t.fd_handle) name privdata t

  -- The part of the read after the test for the end of the file, with the bytes that are at `ptr`
  -- afterwards.
  unfoldable pub read_available : ℕ → FwfsFile → List ℕ → ℕ → M (Driver S) (Result × List ℕ)
  read_available i fd ptr available = do
    r ← read_entry fd.offset available fd.idx ptr
    if is_zero r.0 then advance r.1 else leave (Result.error Errno.eio, r.1)
    where
      advance : List ℕ → M (Driver S) (Result × List ℕ)
      advance bytes = do
        store_handle i (record fd { offset = u32 (fd.offset + available) })
        leave (Result.value available, bytes)

  unfoldable pub fwfs_read : Option ℕ → List ℕ → ℕ → M (Driver S) (Result × List ℕ)
  fwfs_read none ptr size = do fs_lock; leave (Result.error Errno.ebadf, ptr)
  fwfs_read (some i) ptr size = do
    fs_lock
    fd ← handle i
    if leb (u32 (fd.size + data_offset)) fd.offset
        then leave (Result.value 0, ptr)
        else read_available i fd ptr (available_size fd size)

  -- The answer and `stat->size`.
  unfoldable pub fwfs_getstat : List ℕ → ℕ → M (Driver S) (Result × ℕ)
  unfolding get_file_handle_by_idx
  fwfs_getstat name stat d =
      let (locked_now, t) = fs_lock d in
      look (get_file_handle_by_idx (get_idx_from_name name) t.fd_handle) t
    where
      look : Option FwfsFile → M (Driver S) (Result × ℕ)
      look (some fd) = leave (Result.value 0, fd.size)
      look none = do
        r ← read_entry size_offset 8 (get_idx_from_name name) (bytes32 0 ++ bytes32 0)
        if is_zero r.0
            then leave (Result.value 0, word_at r.1 0)
            else leave (Result.error Errno.eio, stat)
