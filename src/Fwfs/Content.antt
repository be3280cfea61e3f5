-- ===== src/Fwfs/Content.antt =====
-- What a file of fruitchip-fwfs/src/fwfs.c is: the data of an entry of the apps partition.
use mathlib.Core.Path.{subst}
use fruitchip.Common.{
  Bool-cases, inl, inr, length-set, ltb→lt, ℕ, zero, suc, true, false, List, [], ◌∷◌, ◌++◌, ◌+◌,
  ◌-◌, ◌^◌, ◌<◌, ◌≤◌, ◌≡◌, refl, sym, arith, ◌∙◌, ap, some, get_or, set, length, u32, sub32,
  get_or-set, leb, ltb, if◌then◌else◌, bytes32, take, drop, take-all, take-drop_append, drop-add,
  length-append, length-take, length-drop,
}
use fruitchip.Host.Bus.{Bus, cmd_retries}
use fruitchip.Host.Bus.Retry.{Attempts, with_retry-Attempts}
use fruitchip.Host.Apps.{
  Code, is_zero, data_offset, modchip_apps_read, modchip_apps_read_with_retry,
}
use fruitchip.Fwfs.{
  FwfsFile, Driver, Result, blank, fwfs_read, read_entry, read_available, available_size,
}

-- A bus on which the entry `idx` of the apps partition can be read, as long as the state of the bus
-- is `Ready`: a read inside the entry succeeds at once and returns its bytes.
pub record Serves {S : Type 0} (bus : Bus S) (Ready : S → Type 0) (idx : ℕ) (entry : List ℕ)
    : Type 0 where
  pub serves :
      (offset size : ℕ) (old : List ℕ) (s : S)
      → Ready s
      → 0 < size
      → offset + size ≤ length entry
      → let (r, t) = modchip_apps_read bus offset size idx true old s in
        (r ≡ (Code.zero_ok, take size (drop offset entry))) × Ready t

-- An entry: the size of the data, the attribute word, the data, and what follows them.
abbrev pub entry_of : ℕ → List ℕ → List ℕ → List ℕ
entry_of attr content tail = bytes32 (length content) ++ (bytes32 attr ++ (content ++ tail))

module _ {S : Type 0} (bus : Bus S) (Ready : S → Type 0) (idx : ℕ) (entry : List ℕ)
    (served : Serves bus Ready idx entry) where
  -- Three attempts are as good as one.
  pub read_entry_served :
      (offset size : ℕ) (old : List ℕ) (d : Driver S)
      → Ready d.device
      → 0 < size
      → offset + size ≤ length entry
      → (t : S) × (read_entry bus offset size idx old d
          ≡ ((Code.zero_ok, take size (drop offset entry)), record d { device = t }))
        × Ready t
  unfolding read_entry modchip_apps_read_with_retry
  read_entry_served offset size old d ready pos inside = (
    (modchip_apps_read bus offset size idx true old d.device).1,
    ap (λ (r : (Code × List ℕ) × S). (r.0, record d { device = r.1 }))
        (once
          ∙ ap
              (λ (r : Code × List ℕ).
                (r, (modchip_apps_read bus offset size idx true old d.device).1))
              first.0),
    first.1,
  )
    where
      first :
          ((modchip_apps_read bus offset size idx true old d.device).0
            ≡ (Code.zero_ok, take size (drop offset entry)))
          × Ready (modchip_apps_read bus offset size idx true old d.device).1
      first = served.serves offset size old d.device ready pos inside

      once :
          modchip_apps_read_with_retry bus offset size idx true (Code.io, old) cmd_retries d.device
          ≡ modchip_apps_read bus offset size idx true old d.device
      once =
          with_retry-Attempts (λ (r : Code × List ℕ). is_zero r.0)
            (λ (o : Code × List ℕ). modchip_apps_read bus offset size idx true o.1) 1 cmd_retries
            (Code.io, old) d.device _ _
            (Attempts.first (Code.io, old) d.device
              (ap (λ (r : Code × List ℕ). is_zero r.0) first.0))
            (omega arith)

-- A range of a list, and how long it is.
abbrev pub chunk : ℕ → ℕ → List ℕ → List ℕ
chunk pos size xs = take size (drop pos xs)

length-chunk :
    (pos size : ℕ) (xs : List ℕ)
    → length (chunk pos size xs) ≡ (if ltb size (length xs - pos) then size else length xs - pos)
length-chunk pos size xs = elim (Bool-cases (ltb size (length xs - pos))) [
  | inl e ↦ rw e (
      length-take size (drop pos xs)
        (omega (arith, length-drop pos xs, ltb→lt size (length xs - pos) e)))
  | inr e ↦ rw e (
      ap length (take-all size (drop pos xs) (rw (length-drop pos xs) (ground (arith, e))))
      ∙ length-drop pos xs)
]

take-length : (n : ℕ) (xs : List ℕ) → take (length (take n xs)) xs ≡ take n xs
take-length zero xs = refl
take-length (suc n) [] = refl
take-length (suc n) (x ∷ xs) = ap (λ l. x ∷ l) (take-length n xs)

chunk-le :
    (pos size : ℕ) (xs : List ℕ) → pos ≤ length xs → pos + length (chunk pos size xs) ≤ length xs
chunk-le pos size xs h = ground (arith, length-chunk pos size xs)

-- The bytes of an entry from a position of its data on.
entry-chunk :
    (attr pos size : ℕ) (content tail : List ℕ)
    → pos ≤ length content
    → take (length (chunk pos size content)) (drop (pos + 8) (entry_of attr content tail))
      ≡ chunk pos size content
entry-chunk attr pos size content tail h =
    ap (take (length (chunk pos size content))) (
      ap (λ n. drop n (entry_of attr content tail)) {x = pos + 8} {y = 8 + pos} (omega arith)
      ∙ drop-add 8 pos (entry_of attr content tail))
    ∙ take-drop_append pos (length (chunk pos size content)) content tail
        (chunk-le pos size content h)
    ∙ take-length size (drop pos content)

module _ {S : Type 0} (bus : Bus S) where
  read_available_served :
      (i : ℕ) (fd : FwfsFile) (ptr : List ℕ) (available : ℕ) (bytes : List ℕ) (d : Driver S) (t : S)
      → read_entry bus fd.offset available fd.idx ptr d
        ≡ ((Code.zero_ok, bytes), record d { device = t })
      → read_available bus i fd ptr available d ≡ (
        (Result.value available, bytes),
        record d {
          fd_handle = set d.fd_handle i (record fd { offset = u32 (fd.offset + available) });
          locked = false;
          device = t;
        },
      )
  unfolding read_available
  read_available_served i fd ptr available bytes d t e = rw e refl

  read_inside :
      (i : ℕ) (ptr : List ℕ) (size available : ℕ) (d : Driver S)
      → leb
          (u32 ((get_or d.fd_handle i blank).size + data_offset))
          (get_or d.fd_handle i blank).offset
        ≡ false
      → available_size (get_or d.fd_handle i blank) size ≡ available
      → fwfs_read bus (some i) ptr size d
        ≡ read_available bus i
            (get_or d.fd_handle i blank)
            ptr
            available
            (record d { locked = true })
  unfolding fwfs_read
  read_inside i ptr size available d e e' = rw (e, e') refl

module _ {S : Type 0} (Ready : S → Type 0) (idx : ℕ) (content : List ℕ) where
  -- A handle of the file stands at a position of its data.
  pub record Open (i pos : ℕ) (d : Driver S) : Type 0 where
    pub valid : i < length d.fd_handle
    pub is_idx : (get_or d.fd_handle i blank).idx ≡ idx
    pub is_size : (get_or d.fd_handle i blank).size ≡ length content
    pub here : (get_or d.fd_handle i blank).offset ≡ pos + data_offset
    pub ready : Ready d.device

module _ {S : Type 0} (bus : Bus S) (Ready : S → Type 0) (idx attr : ℕ) (content tail : List ℕ)
    (served : Serves bus Ready idx (entry_of attr content tail)) where
  module _ (small : length content < 2 ^ 30) (i pos : ℕ) (d : Driver S)
      (open_at : Open Ready idx content i pos d) where
    abbrev fd : FwfsFile
    fd = get_or d.fd_handle i blank

    before_end : pos < length content → leb (u32 (fd.size + data_offset)) fd.offset ≡ false
    before_end h = ground (arith, open_at.is_size, open_at.here)

    is_available :
        (size : ℕ) → pos < length content → available_size fd size ≡ length (chunk pos size content)
    unfolding available_size
    is_available size h =
        rw (open_at.is_size, open_at.here)
          (ap (λ n. if ltb size n then size else n) wrapped ∙ sym (length-chunk pos size content))
      where
        wrapped :
            sub32 (length content) (sub32 (pos + data_offset) data_offset) ≡ length content - pos
        wrapped = omega arith

    some_chunk : (size : ℕ) → pos < length content → 0 < size → 0 < length (chunk pos size content)
    some_chunk size h positive = ground (arith, length-chunk pos size content)

    chunk_in_entry :
        (size : ℕ)
        → pos < length content
        → pos + data_offset + length (chunk pos size content) ≤ length (entry_of attr content tail)
    chunk_in_entry size h =
        omega (arith, chunk-le pos size content (omega arith), length-append content tail)

    abbrev after_read : ℕ → S → Driver S
    after_read n t = record d {
      fd_handle = set d.fd_handle i (record fd { offset = u32 (fd.offset + n) });
      locked = false;
      device = t;
    }

    after_read-Open :
        (n : ℕ) (t : S)
        → pos + n ≤ length content
        → Ready t
        → Open Ready idx content i (pos + n) (after_read n t)
    after_read-Open n t le ready = record {
      valid =
          rw (length-set d.fd_handle i (record fd { offset = u32 (fd.offset + n) })) open_at.valid;
      is_idx = rw stored open_at.is_idx;
      is_size = rw stored open_at.is_size;
      here = rw (stored, open_at.here) (omega arith);
      ready = ready;
    }
      where
        stored :
            get_or (after_read n t).fd_handle i blank ≡ record fd { offset = u32 (fd.offset + n) }
        stored =
            get_or-set d.fd_handle i (record fd { offset = u32 (fd.offset + n) }) blank
              open_at.valid

    -- Before the end of a file below 2^30 bytes a read of some bytes returns those that stand at the
    -- position, as many as there are up to the size that is asked for, and the handle then stands
    -- behind them.
    pub fwfs_read-chunk :
        (ptr : List ℕ) (size : ℕ)
        → pos < length content
        → 0 < size
        → let (r, t) = fwfs_read bus (some i) ptr size d in
          (r ≡ (Result.value (length (chunk pos size content)), chunk pos size content))
          × Open Ready idx content i (pos + length (chunk pos size content)) t
    fwfs_read-chunk ptr size h positive = (
      ap (λ r. r.0) whole,
      subst (λ t. Open Ready idx content i (pos + length xs) t) (sym (ap (λ r. r.1) whole))
          (after_read-Open (length xs) got.0 (chunk-le pos size content (omega arith)) got.2),
    )
      where
        xs : List ℕ
        xs = chunk pos size content

        locked_now : Driver S
        locked_now = record d { locked = true }

        got :
            (t : S) × (read_entry bus (pos + data_offset) (length xs) idx ptr locked_now ≡ (
              (
                Code.zero_ok,
                take (length xs) (drop (pos + data_offset) (entry_of attr content tail)),
              ),
              record locked_now { device = t },
            ))
            × Ready t
        got =
            read_entry_served bus Ready idx (entry_of attr content tail) served (pos + data_offset)
              (length xs) ptr locked_now open_at.ready (some_chunk size h positive)
              (chunk_in_entry size h)

        received :
            read_entry bus fd.offset (length xs) fd.idx ptr locked_now
            ≡ ((Code.zero_ok, xs), record locked_now { device = got.0 })
        received =
            ap (λ n. read_entry bus fd.offset (length xs) n ptr locked_now) open_at.is_idx
            ∙ ap (λ n. read_entry bus n (length xs) idx ptr locked_now) open_at.here
            ∙ got.1
            ∙ ap (λ (bs : List ℕ). ((Code.zero_ok, bs), record locked_now { device = got.0 }))
                (entry-chunk attr pos size content tail (omega arith))

        whole :
            fwfs_read bus (some i) ptr size d
            ≡ ((Result.value (length xs), xs), after_read (length xs) got.0)
        whole =
            read_inside bus i ptr size (length xs) d (before_end h) (is_available size h)
            ∙ read_available_served bus i fd ptr (length xs) xs locked_now got.0 received
