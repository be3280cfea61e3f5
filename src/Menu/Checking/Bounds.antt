-- ===== src/Menu/Checking/Bounds.antt =====
-- How large an accepted update is.
use fruitchip.Common.{
  ℕ, Bool, true, false, not, ◌==◌, List, [], ◌∷◌, ◌++◌, ◌+◌, ◌*◌, ◌%◌, ◌/◌, ◌≤◌, ◌≡◌, refl, sym,
  arith, ◌∙◌, ap, if◌then◌else◌, Option, none, some, take, length, All, length-append, length-take,
  take-all, ==_iff,
}
use fruitchip.Menu.Checking.{
  Uf2Block, Message, Checked, UpdateType, Sizes, Pins, check_block, check_blocks, check_file,
  check_update, check_size, check_pins, block_size, file_block_size,
}
use fruitchip.Menu.Checking.Image.{payload, pass-accepted}

-- A read gives a block with all of its data.
abbrev pub IsWhole : Option Uf2Block → Type 0
IsWhole none = Unit
IsWhole (some b) = length b.data_bytes ≡ 476

-- The room that the modchip has for an update.
abbrev pub Fits : UpdateType → Sizes → ℕ → Type 0
Fits UpdateType.fw s n = (n ≤ s.fw_partition_size.1) × (n ≤ s.update_partition_size.1)
Fits UpdateType.apps s n = n ≤ s.apps_partition_size.1

length-check_blocks :
    (blocks : List (Option Uf2Block)) (last : ℕ) (update v : List ℕ)
    → All IsWhole blocks
    → check_blocks last update blocks ≡ Checked.accepted v
    → length v ≡ length update + block_size * length blocks
unfolding check_blocks
length-check_blocks [] last update v whole e = omega (arith, ap (λ c. length (payload c)) e)
length-check_blocks (none ∷ blocks) last update v whole e = absurd (ground (arith, e))
length-check_blocks (some b ∷ blocks) last update v whole e =
    let passed = pass-accepted (check_block last b) _ v e in
    omega (
      arith,
      length-check_blocks blocks b.target_addr (update ++ take block_size b.data_bytes) v whole.1
          passed.1,
      length-append update (take block_size b.data_bytes),
      length-take block_size b.data_bytes (omega (arith, whole.0)),
    )

check_size-Fits : (ty : UpdateType) (s : Sizes) (n : ℕ) → check_size ty s n ≡ none → Fits ty s n
unfolding check_size
check_size-Fits UpdateType.fw s n e = ground (arith, e)
check_size-Fits UpdateType.apps s n e = ground (arith, e)

check_update-accepted :
    (ty : UpdateType) (s : Sizes) (current : Pins) (pins_of : List ℕ → Pins) (c : Checked)
    (v : List ℕ)
    → check_update ty s current pins_of c ≡ Checked.accepted v
    → (c ≡ Checked.accepted v) × (check_size ty s (length v) ≡ none)
check_update-accepted ty s current pins_of (Checked.refused m) v e = absurd (ground (arith, e))
check_update-accepted ty s current pins_of (Checked.accepted update) v e =
    let sized = pass-accepted (check_size ty s (length update)) _ v e in
    let pinned = pass-accepted (check_pins ty current (pins_of update)) _ v sized.1 in
    let same : update ≡ v = ap payload pinned.1 in
    (ap Checked.accepted same, ap (λ l. check_size ty s (length l)) (sym same) ∙ sized.0)

-- The file is read in whole blocks, each with all of its data, and passes the check. Then what is kept
-- is exactly half as long as the file, which is what is allocated for it, and it is not longer than
-- the sizes of the partitions that the menu has.
pub check_file-Fits :
    (ty : UpdateType) (s : Sizes) (current : Pins) (pins_of : List ℕ → Pins) (size : ℕ)
    (reads : List (Option Uf2Block)) (v : List ℕ)
    → length reads ≡ size / file_block_size
    → All IsWhole reads
    → check_file ty s current pins_of size reads ≡ Checked.accepted v
    → (length v ≡ size / 2) × Fits ty s (length v)
unfolding check_file
check_file-Fits ty s current pins_of size reads v n whole e =
    go (size % file_block_size == 0) refl e
  where
    reads_all : take (size / file_block_size) reads ≡ reads
    reads_all = take-all (size / file_block_size) reads (omega (arith, n))

    go :
        (c : Bool)
        → (size % file_block_size == 0) ≡ c
        → (if not c
            then Checked.refused Message.bad_file_size
            else check_update ty s current pins_of
                (check_blocks 0 [] (take (size / file_block_size) reads)))
          ≡ Checked.accepted v
        → (length v ≡ size / 2) × Fits ty s (length v)
    go false z q = absurd (ground (arith, q))
    go true z q =
        let updated = check_update-accepted ty s current pins_of _ v q in
        let long =
          length-check_blocks reads 0 [] v whole
            (ap (check_blocks 0 []) (sym reads_all) ∙ updated.0) in
        (
          omega (arith, long, n, (==_iff (size % file_block_size) 0).0 z),
          check_size-Fits ty s (length v) updated.1,
        )
