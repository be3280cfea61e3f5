-- ===== src/Fwfs/Seek.antt =====
-- Where a seek of fruitchip-fwfs/src/fwfs.c ends.
use fruitchip.Common.{
  ℕ, false, ◌+◌, ◌-◌, ◌^◌, ◌<◌, ◌≤◌, ◌≡◌, refl, arith, ◌∙◌, ap, some, get_or, set, length, u32,
  sub32, get_or-set, ltb, if◌then◌else◌,
}
use fruitchip.Host.Apps.{data_offset}
use fruitchip.Fwfs.{FwfsFile, Driver, Result, Whence, blank, fwfs_lseek, clamp}

clamp-le : (size target : ℕ) → size < 2 ^ 30 → clamp size target ≤ size + 8
unfolding clamp
clamp-le size target h = ground arith

clamp_inside : (size target : ℕ) → size < 2 ^ 30 → target ≤ size + 8 → clamp size target ≡ target
unfolding clamp
clamp_inside size target h le = ground arith

-- A position that is asked for, cut to the size of the file.
abbrev pub upto : ℕ → ℕ → ℕ
upto size pos = if ltb size pos then size else pos

module _ {S : Type 0} (i : ℕ) (d : Driver S) where
  abbrev pub file : FwfsFile
  file = get_or d.fd_handle i blank

  -- The answer and the state of a seek that ends at a position.
  abbrev pub moved_to : ℕ → Result × Driver S
  moved_to pos = (
    Result.value pos,
    record d {
      fd_handle = set d.fd_handle i (record file { offset = pos + data_offset });
      locked = false;
    },
  )

  abbrev moved : ℕ → Result × Driver S
  moved target = (
    Result.value (sub32 target data_offset),
    record d { fd_handle = set d.fd_handle i (record file { offset = target }); locked = false },
  )

  moved-eq : (target pos : ℕ) → pos < 2 ^ 31 → target ≡ pos + 8 → moved target ≡ moved_to pos
  moved-eq target pos h e = rw (e, back) refl
    where
      back : sub32 (pos + 8) data_offset ≡ pos
      back = omega arith

  module _ (pos : ℕ) (small : file.size < 2 ^ 30) (inside : pos ≤ file.size)
      (here : file.offset ≡ pos + 8) where
    clamp_set :
        (o : ℕ) → o < 2 ^ 29 → clamp file.size (u32 (o + data_offset)) ≡ upto file.size o + 8
    unfolding clamp
    clamp_set o h = ground arith

    clamp_forward :
        (o : ℕ)
        → o < 2 ^ 29
        → clamp file.size (u32 (file.offset + o)) ≡ upto file.size (pos + o) + 8
    unfolding clamp
    clamp_forward o h = ground (arith, here)

    clamp_back : (k : ℕ) → k ≤ pos → clamp file.size (u32 (file.offset + sub32 0 k)) ≡ pos - k + 8
    unfolding clamp
    clamp_back k le = ground (arith, here)

    clamp_end :
        (o : ℕ)
        → o ≤ file.size
        → clamp file.size (sub32 (u32 (file.size + data_offset)) o) ≡ file.size - o + 8
    unfolding clamp
    clamp_end o le = ground arith

    -- A file below 2^30 bytes stands at a position inside it, its start and its end included. A seek
    -- by `o`, below 2^29, from the start or forward goes where it should, but not past the end; a seek
    -- by minus `k` goes back by `k`, for any `k` up to the position; and a seek from the end by `e`, for
    -- any `e` up to the size, ends `e` bytes before the end.
    pub fwfs_lseek-moved_to :
        (o k e : ℕ)
        → o < 2 ^ 29
        → k ≤ pos
        → e ≤ file.size
        → (fwfs_lseek (some i) o Whence.seek_set d ≡ moved_to (upto file.size o))
          × (fwfs_lseek (some i) o Whence.seek_cur d ≡ moved_to (upto file.size (pos + o)))
          × (fwfs_lseek (some i) (sub32 0 k) Whence.seek_cur d ≡ moved_to (pos - k))
          × (fwfs_lseek (some i) e Whence.seek_end d ≡ moved_to (file.size - e))
    unfolding fwfs_lseek
    fwfs_lseek-moved_to o k e h back le = (
      moved-eq _ (upto file.size o) (ground arith) (clamp_set o h),
      moved-eq _ (upto file.size (pos + o)) (ground arith) (clamp_forward o h),
      moved-eq _ (pos - k) (omega arith) (clamp_back k back),
      moved-eq _ (file.size - e) (omega arith) (clamp_end e le),
    )

  ends :
      (target : ℕ)
      → i < length d.fd_handle
      → file.size < 2 ^ 30
      → (get_or (moved (clamp file.size target)).1.fd_handle i blank).offset ≤ file.size + 8
  ends target valid h =
      rw (get_or-set d.fd_handle i (record file { offset = clamp file.size target }) blank valid)
        (clamp-le file.size target h)

  -- Of a file below 2^30 bytes, a seek by any number and from anywhere keeps the offset at most at
  -- the end.
  pub fwfs_lseek-le :
      (offset : ℕ) (whence : Whence)
      → i < length d.fd_handle
      → file.size < 2 ^ 30
      → file.offset ≤ file.size + 8
      → (get_or (fwfs_lseek (some i) offset whence d).1.fd_handle i blank).offset ≤ file.size + 8
  unfolding fwfs_lseek
  fwfs_lseek-le offset Whence.seek_set valid h le = ends (u32 (offset + data_offset)) valid h
  fwfs_lseek-le offset Whence.seek_cur valid h le = ends (u32 (file.offset + offset)) valid h
  fwfs_lseek-le offset Whence.seek_end valid h le =
      ends (sub32 (u32 (file.size + data_offset)) offset) valid h
  fwfs_lseek-le offset Whence.other valid h le = le

  -- A seek to before the start ends among the eight bytes before the data, and returns a negative
  -- number.
  pub fwfs_lseek_before_start :
      (k : ℕ)
      → 0 < k
      → k ≤ 8
      → file.size < 2 ^ 30
      → fwfs_lseek (some i) (2 ^ 32 - k) Whence.seek_set d ≡ (
        Result.value (2 ^ 32 - k),
        record d { fd_handle = set d.fd_handle i (record file { offset = 8 - k }); locked = false },
      )
  unfolding fwfs_lseek
  fwfs_lseek_before_start k pos le small = ap moved target ∙ rw answer refl
    where
      wrapped : u32 (2 ^ 32 - k + data_offset) ≡ 8 - k
      wrapped = omega arith

      target : clamp file.size (u32 (2 ^ 32 - k + data_offset)) ≡ 8 - k
      target = ap (clamp file.size) wrapped ∙ clamp_inside file.size (8 - k) small (omega arith)

      answer : sub32 (8 - k) data_offset ≡ 2 ^ 32 - k
      answer = omega arith
