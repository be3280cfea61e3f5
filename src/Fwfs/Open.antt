-- ===== src/Fwfs/Open.antt =====
-- Opening a file of fruitchip-fwfs/src/fwfs.c, and reading it from its start to its end.
use mathlib.Core.Path.{subst}
use fruitchip.Common.{
  word_at, Bool-cases, inl, inr, true, false, ℕ, List, ◌++◌, ◌^◌, ◌<◌, ◌≤◌, ◌≡◌, refl, sym, arith,
  ◌∙◌, ap, Option, some, get_or, set, length, bytes32, get_or-set, length-set, ◌==◌, take-all,
}
use fruitchip.Common.Words.{word32-byte_of}
use fruitchip.Host.Bus.{Bus}
use fruitchip.Host.Apps.{Code, size_offset, data_offset}
use fruitchip.Fwfs.{
  FwfsFile, Driver, Result, blank, find_free_file_handle, fwfs_open, fwfs_read, open_handle,
  open_data, read_entry, get_mode_from_name, get_idx_from_name,
}
use fruitchip.Fwfs.Handles.{Free, find_free_file_handle-Free}
use fruitchip.Fwfs.Content.{Serves, entry_of, read_entry_served, Open, fwfs_read-chunk}

module _ {S : Type 0} (bus : Bus S) where
  open_data_served :
      (i : ℕ) (fd : FwfsFile) (privdata : Option ℕ) (bytes : List ℕ) (d : Driver S) (t : S)
      → read_entry bus size_offset 8 fd.idx (bytes32 fd.size ++ bytes32 fd.attr) d
        ≡ ((Code.zero_ok, bytes), record d { device = t })
      → open_data bus i fd privdata d ≡ (
        (Result.value 0, some i),
        record d {
          fd_handle =
              set
                (set d.fd_handle i (record fd { size = word_at bytes 0; attr = word_at bytes 4 }))
                i
                (record fd {
                  size = word_at bytes 0;
                  attr = word_at bytes 4;
                  offset = data_offset;
                });
          locked = false;
          device = t;
        },
      )
  unfolding open_data
  open_data_served i fd privdata bytes d t e = rw e refl

  -- The handle that an open fills in first.
  abbrev named : List ℕ → FwfsFile → FwfsFile
  named name free = record free { idx = get_idx_from_name name; mode = get_mode_from_name name }

  open_by_mode :
      (i : ℕ) (name : List ℕ) (privdata : Option ℕ) (d : Driver S)
      → find_free_file_handle d.fd_handle ≡ some i
      → get_mode_from_name name ≡ b'd'
      → fwfs_open bus name privdata d
        ≡ open_data bus i (named name (get_or d.fd_handle i blank)) privdata (record d {
          fd_handle = set d.fd_handle i (named name (get_or d.fd_handle i blank));
          locked = true;
        })
  unfolding fwfs_open open_handle
  open_by_mode i name privdata d e m = rw e (elim (Bool-cases (get_mode_from_name name == b'd')) [
    | inl y ↦ rw y refl
    | inr y ↦ absurd (ground (arith, y, m))
  ])

module _ {S : Type 0} (bus : Bus S) (Ready : S → Type 0) (idx attr : ℕ) (content tail : List ℕ)
    (served : Serves bus Ready idx (entry_of attr content tail)) (small : length content < 2 ^ 30)
    (attr_fits : attr < 2 ^ 32) where
  -- A handle is free, the name asks for the data of the entry, and the bus is ready. Then the open
  -- returns 0, and the file's handle, a free one until now, stands at the start of the data.
  pub fwfs_open-Open :
      (i : ℕ) (name : List ℕ) (privdata : Option ℕ) (d : Driver S)
      → find_free_file_handle d.fd_handle ≡ some i
      → get_mode_from_name name ≡ b'd'
      → get_idx_from_name name ≡ idx
      → Ready d.device
      → let (r, t) = fwfs_open bus name privdata d in
        (r ≡ (Result.value 0, some i)) × Open Ready idx content i 0 t
  fwfs_open-Open i name privdata d e m n ready = (
    ap (λ r. r.0) whole,
    subst (λ t. Open Ready idx content i 0 t) (sym (ap (λ r. r.1) whole)) opened,
  )
    where
      fd : FwfsFile
      fd = named bus name (get_or d.fd_handle i blank)

      start : Driver S
      start = record d { fd_handle = set d.fd_handle i fd; locked = true }

      -- The two words of the entry.
      words : List ℕ
      words = bytes32 (length content) ++ bytes32 attr

      got :
          (t : S) × (read_entry bus 0 8 idx (bytes32 fd.size ++ bytes32 fd.attr) start
            ≡ ((Code.zero_ok, words), record start { device = t }))
          × Ready t
      got =
          read_entry_served bus Ready idx (entry_of attr content tail) served 0 8
            (bytes32 fd.size ++ bytes32 fd.attr) start ready (omega arith) (omega arith)

      received :
          read_entry bus size_offset 8 fd.idx (bytes32 fd.size ++ bytes32 fd.attr) start
          ≡ ((Code.zero_ok, words), record start { device = got.0 })
      received = ap (λ k. read_entry bus 0 8 k (bytes32 fd.size ++ bytes32 fd.attr) start) n ∙ got.1

      filled : FwfsFile
      filled = record fd { size = word_at words 0; attr = word_at words 4; offset = data_offset }

      handles : List FwfsFile
      handles =
          set (set d.fd_handle i fd) i
            (record fd { size = word_at words 0; attr = word_at words 4 })

      after : Driver S
      after = record d { fd_handle = set handles i filled; locked = false; device = got.0 }

      whole : fwfs_open bus name privdata d ≡ ((Result.value 0, some i), after)
      whole =
          open_by_mode bus i name privdata d e m
          ∙ open_data_served bus i fd privdata words start got.0 received

      in_range : i < length handles
      in_range =
          rw
            (
              length-set (set d.fd_handle i fd) i
                  (record fd { size = word_at words 0; attr = word_at words 4 }),
              length-set d.fd_handle i fd,
            )
            (subst (Free d.fd_handle) e (find_free_file_handle-Free d.fd_handle)).0

      stored : get_or (set handles i filled) i blank ≡ filled
      stored = get_or-set handles i filled blank in_range

      opened : Open Ready idx content i 0 after
      opened = record {
        valid = rw (length-set handles i filled) in_range;
        is_idx = rw stored n;
        is_size = rw stored (word32-byte_of (length content) (omega arith));
        here = rw stored refl;
        ready = got.2;
      }

  -- A file that is opened and read with room for all of it gives all of its data, if it has any.
  pub fwfs_read-fwfs_open :
      (i : ℕ) (name : List ℕ) (privdata : Option ℕ) (ptr : List ℕ) (size : ℕ) (d : Driver S)
      → find_free_file_handle d.fd_handle ≡ some i
      → get_mode_from_name name ≡ b'd'
      → get_idx_from_name name ≡ idx
      → Ready d.device
      → 0 < length content
      → length content ≤ size
      → let (r, t) = fwfs_open bus name privdata d in
        (r ≡ (Result.value 0, some i))
        × ((fwfs_read bus (some i) ptr size t).0 ≡ (Result.value (length content), content))
  fwfs_read-fwfs_open i name privdata ptr size d e m n ready positive room =
      let opened = fwfs_open-Open i name privdata d e m n ready in
      (
        opened.0,
        (fwfs_read-chunk bus Ready idx attr content tail served small i 0
              (fwfs_open bus name privdata d).1 opened.1 ptr size positive (omega arith)).0
            ∙ ap (λ (xs : List ℕ). (Result.value (length xs), xs)) (take-all size content room),
      )
