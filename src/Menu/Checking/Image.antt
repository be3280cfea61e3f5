-- ===== src/Menu/Checking/Image.antt =====
-- An update file that passes the check is one image without gaps.
use mathlib.Core.Path.{subst}
use mathlib.Core.List.{append_assoc, append-nil}
use fruitchip.Common.{
  ℕ, List, [], ◌∷◌, ◌++◌, ◌+◌, ◌*◌, ◌^◌, ◌<◌, ◌≤◌, ◌≡◌, ◌⊎◌, inl, inr, refl, sym, arith, ◌∙◌, ap,
  u32, bit_and, Option, none, some, take, length,
}
use fruitchip.Menu.Checking.{
  Uf2Block, Message, Checked, check_block, check_blocks, pass, block_size, uf2_magic_start0,
  uf2_magic_start1, uf2_magic_end, uf2_flag_family_id_present, uf2_family_id_rp2040,
}

-- A UF2 block that is not for another family: its family flag is clear, or its family is the RP2040.
pub record IsBlock (b : Uf2Block) : Type 0 where
  pub start0 : b.magic_start0 ≡ uf2_magic_start0
  pub start1 : b.magic_start1 ≡ uf2_magic_start1
  pub end : b.magic_end ≡ uf2_magic_end
  pub family :
      (bit_and b.flags uf2_flag_family_id_present ≡ 0) ⊎ (b.file_size ≡ uf2_family_id_rp2040)
  pub size : b.payload_size ≡ block_size

-- The reads give blocks for one address after the other, and these are their payloads.
pub data Image : ℕ → List (Option Uf2Block) → List ℕ → Type 0 where
  done : (a : ℕ) → Image a [] []
  more :
      (b : Uf2Block) (blocks : List (Option Uf2Block)) (rest : List ℕ)
      → IsBlock b
      → Image (b.target_addr + block_size) blocks rest
      → Image b.target_addr (some b ∷ blocks) (take block_size b.data_bytes ++ rest)

-- What a block that passes says.
check_block-IsBlock :
    (last : ℕ) (b : Uf2Block)
    → check_block last b ≡ none
    → IsBlock b × ((last ≡ 0) ⊎ (u32 (last + block_size) ≡ b.target_addr))
unfolding check_block
check_block-IsBlock last b e = (
  record {
    start0 = ground (arith, e);
    start1 = ground (arith, e);
    end = ground (arith, e);
    family = ground (arith, e);
    size = ground (arith, e);
  },
  ground (arith, e),
)

check_block-none :
    (last : ℕ) (b : Uf2Block)
    → IsBlock b
    → (last ≡ 0) ⊎ (u32 (last + block_size) ≡ b.target_addr)
    → check_block last b ≡ none
unfolding check_block
check_block-none last b is_block linear =
    ground (arith, is_block.start0, is_block.start1, is_block.end, is_block.family, is_block.size)

abbrev pub payload : Checked → List ℕ
payload (Checked.accepted update) = update
payload (Checked.refused message) = []

pub pass-accepted :
    (m : Option Message) (c : Checked) (v : List ℕ)
    → pass m c ≡ Checked.accepted v
    → (m ≡ none) × (c ≡ Checked.accepted v)
pass-accepted none c v e = (refl, e)
pass-accepted (some m) c v e = absurd (ground (arith, e))

-- The blocks behind one whose address is not zero.
tail-Image :
    (blocks : List (Option Uf2Block)) (last : ℕ) (update v : List ℕ)
    → 0 < last
    → last + block_size + block_size * length blocks ≤ 2 ^ 32
    → check_blocks last update blocks ≡ Checked.accepted v
    → (rest : List ℕ) × (v ≡ update ++ rest) × Image (last + block_size) blocks rest
unfolding check_blocks
tail-Image [] last update v pos fits e =
    ([], sym (ap payload e) ∙ sym (append-nil update), Image.done _)
tail-Image (none ∷ blocks) last update v pos fits e = absurd (ground (arith, e))
tail-Image (some b ∷ blocks) last update v pos fits e =
    let passed = pass-accepted (check_block last b) _ v e in
    let is_block = check_block-IsBlock last b passed.0 in
    let next : last + block_size ≡ b.target_addr = ground (arith, is_block.1) in
    let ih =
      tail-Image blocks b.target_addr (update ++ take block_size b.data_bytes) v
        (omega (arith, next)) (omega (arith, next)) passed.1 in
    (
      take block_size b.data_bytes ++ ih.0,
      ih.1 ∙ append_assoc update (take block_size b.data_bytes) ih.0,
      subst (λ a. Image a (some b ∷ blocks) (take block_size b.data_bytes ++ ih.0)) (sym next)
          (Image.more b blocks ih.0 is_block.0 ih.2),
    )

-- An update file that the loop accepts, whose first block is at an address after zero and whose
-- addresses fit 32 bits, consists of UF2 blocks with the magic numbers, a payload of 256 bytes, and a
-- family flag that is clear or the RP2040's family, for one address after the other without gaps, and
-- what is kept are their payloads in order.
pub check_blocks-Image :
    (b : Uf2Block) (blocks : List (Option Uf2Block)) (v : List ℕ)
    → 0 < b.target_addr
    → b.target_addr + block_size * length (some b ∷ blocks) ≤ 2 ^ 32
    → check_blocks 0 [] (some b ∷ blocks) ≡ Checked.accepted v
    → Image b.target_addr (some b ∷ blocks) v
unfolding check_blocks
check_blocks-Image b blocks v pos fits e =
    let passed = pass-accepted (check_block 0 b) _ v e in
    let rest =
      tail-Image blocks b.target_addr (take block_size b.data_bytes) v pos (omega arith) passed.1 in
    subst (λ w. Image b.target_addr (some b ∷ blocks) w) (sym rest.1)
      (Image.more b blocks rest.0 (check_block-IsBlock 0 b passed.0).0 rest.2)

Image-tail :
    (a : ℕ) (blocks : List (Option Uf2Block)) (rest : List ℕ)
    → Image a blocks rest
    → (last : ℕ) (update : List ℕ) → (last ≡ 0) ⊎ (last + block_size ≡ a)
    → a + block_size * length blocks ≤ 2 ^ 32
    → check_blocks last update blocks ≡ Checked.accepted (update ++ rest)
unfolding check_blocks
Image-tail _ _ _ (Image.done a) last update follows fits =
    ap Checked.accepted (sym (append-nil update))
Image-tail _ _ _ (Image.more b blocks rest is_block image) last update follows fits =
    rw (check_block-none last b is_block (ground (arith, follows))) (
      Image-tail _ blocks rest image b.target_addr (update ++ take block_size b.data_bytes)
        (inr refl) (omega arith)
      ∙ ap Checked.accepted (append_assoc update (take block_size b.data_bytes) rest))

-- Every sequence of UF2 blocks with the magic numbers, a payload of 256 bytes, and a family flag that is
-- clear or the RP2040's family, for one address after the other, with addresses that fit 32 bits, is
-- accepted, and its payloads are kept in order.
pub Image-check_blocks :
    (a : ℕ) (blocks : List (Option Uf2Block)) (v : List ℕ)
    → Image a blocks v
    → a + block_size * length blocks ≤ 2 ^ 32
    → check_blocks 0 [] blocks ≡ Checked.accepted v
Image-check_blocks a blocks v image fits = Image-tail a blocks v image 0 [] (inl refl) fits
