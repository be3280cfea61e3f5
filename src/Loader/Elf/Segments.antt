-- ===== src/Loader/Elf/Segments.antt =====
-- What the memory holds after a program is loaded, address by address.
use mathlib.Core.Path.{subst}
use fruitchip.Common.{
  ℕ, zero, suc, Bool, List, [], ◌∷◌, ◌+◌, ◌-◌, ◌^◌, ◌<◌, ◌≤◌, ◌≡◌, ◌⊎◌, inl, inr, refl, sym, arith,
  ◌∙◌, ap, ◌==◌, ==_iff, ◌&&◌, ltb, leb, if◌then◌else◌, Bool-cases, u32, take, drop, length, get_or,
  length-take, length-drop,
}
use fruitchip.Loader.Elf.{
  ElfPheader, Ram, Reader, Loaded, elf_pt_load, store_bytes, clear_rest, load_elf,
}
use fruitchip.Loader.Elf.Place.{
  GivesImage, segment, place, place_all, IsProgram, header, load_elf-place_all,
}

get_or-drop : (n i : ℕ) (xs : List ℕ) → get_or (drop n xs) i 0 ≡ get_or xs (n + i) 0
get_or-drop zero i xs = ap (λ k. get_or xs k 0) (omega arith)
get_or-drop (suc n) i [] = refl
get_or-drop (suc n) i (x ∷ xs) =
    get_or-drop n i xs
    ∙ ap (λ k. get_or (x ∷ xs) k 0) {x = suc (n + i)} {y = suc n + i} (omega arith)

get_or-take : (n i : ℕ) (xs : List ℕ) → i < n → get_or (take n xs) i 0 ≡ get_or xs i 0
get_or-take zero i xs h = absurd (omega arith)
get_or-take (suc n) i [] h = refl
get_or-take (suc n) zero (x ∷ xs) h = refl
get_or-take (suc n) (suc i) (x ∷ xs) h = get_or-take n i xs (omega arith)

-- The addresses that a segment takes in memory.
abbrev pub Covers : ElfPheader → ℕ → Type 0
Covers p a =
    (p.kind ≡ elf_pt_load) × (p.vaddr ≤ a) × ((a < p.vaddr + p.filesz) ⊎ (a < p.vaddr + p.memsz))

-- The byte that a segment of a program has for one of its addresses.
abbrev pub segment_byte : List ℕ → ElfPheader → ℕ → ℕ
segment_byte image p a =
    if ltb a (p.vaddr + p.filesz) then get_or image (p.offset + (a - p.vaddr)) 0 else 0

clear_rest-eq :
    (p : ElfPheader) (ram : Ram) (a : ℕ)
    → p.vaddr + p.filesz < 2 ^ 32
    → clear_rest p ram a
      ≡ (if leb (p.vaddr + p.filesz) a && ltb a (p.vaddr + p.memsz) then 0 else ram a)
clear_rest-eq p ram a fits = elim (Bool-cases (ltb p.filesz p.memsz)) [
  | inl e ↦ rw e (ground (arith, e, wrapped))
  | inr e ↦ rw e (ground (arith, e))
]
  where
    wrapped : u32 (p.vaddr + p.filesz) ≡ p.vaddr + p.filesz
    wrapped = omega arith

module _ (image : List ℕ) (p : ElfPheader) (ram : Ram) (inside : p.offset + p.filesz ≤ length image)
    (fits : p.vaddr + p.filesz < 2 ^ 32) where
  abbrev part : List ℕ
  part = take p.filesz (drop p.offset image)

  length-part : length part ≡ p.filesz
  length-part =
      length-take p.filesz (drop p.offset image) (omega (arith, length-drop p.offset image))

  place_outside :
      (a : ℕ)
      → (a < p.vaddr) ⊎ ((p.vaddr + p.filesz ≤ a) × (p.vaddr + p.memsz ≤ a))
      → place image p ram a ≡ ram a
  place_outside a out =
      clear_rest-eq p (store_bytes p.vaddr part ram) a fits ∙ ground (arith, length-part)

  place_file :
      (k : ℕ) → k < p.filesz → place image p ram (p.vaddr + k) ≡ get_or image (p.offset + k) 0
  place_file k h =
      clear_rest-eq p (store_bytes p.vaddr part ram) (p.vaddr + k) fits
      ∙ ground (arith, length-part)
      ∙ ap (λ i. get_or part i 0) {x = p.vaddr + k - p.vaddr} {y = k} (omega arith)
      ∙ get_or-take p.filesz k (drop p.offset image) h
      ∙ get_or-drop p.offset k image

  place_zero : (k : ℕ) → p.filesz ≤ k → k < p.memsz → place image p ram (p.vaddr + k) ≡ 0
  place_zero k h lt =
      clear_rest-eq p (store_bytes p.vaddr part ram) (p.vaddr + k) fits ∙ ground arith

-- No two segments of the program meet in memory, and the parts of them that are in the file end below
-- 2^32.
pub record IsLaidOut (image : List ℕ) : Type 0 where
  pub disjoint :
      (i j a : ℕ)
      → i < (header image).phnum
      → j < (header image).phnum
      → Covers (segment image i) a
      → Covers (segment image j) a
      → i ≡ j
  pub fits :
      (i : ℕ)
      → i < (header image).phnum
      → (segment image i).kind ≡ elf_pt_load
      → (segment image i).vaddr + (segment image i).filesz < 2 ^ 32

module _ (image : List ℕ) (is_program : IsProgram image) (laid_out : IsLaidOut image) where
  -- One step of the loop at an address that the segment does not cover.
  step_outside :
      (i : ℕ) (ram : Ram) (a : ℕ)
      → i < (header image).phnum
      → ¬ Covers (segment image i) a
      → (if (segment image i).kind == elf_pt_load then place image (segment image i) ram else ram) a
        ≡ ram a
  step_outside i ram a h out = elim (Bool-cases ((segment image i).kind == elf_pt_load)) [
    | inr e ↦ rw e refl
    | inl e ↦
        let kind = (==_iff (segment image i).kind elf_pt_load).0 e in
        rw e (
          place_outside image (segment image i) ram (is_program.has_segments i h kind).1
            (laid_out.fits i h kind) a (beside (segment image i) a kind out))
  ]
    where
      beside :
          (p : ElfPheader) (a : ℕ)
          → p.kind ≡ elf_pt_load
          → ¬ Covers p a
          → (a < p.vaddr) ⊎ ((p.vaddr + p.filesz ≤ a) × (p.vaddr + p.memsz ≤ a))
      beside p a kind out = elim (Bool-cases (ltb a p.vaddr)) [
        | inl e ↦ inl (ground (arith, e))
        | inr e ↦ elim (Bool-cases (ltb a (p.vaddr + p.filesz))) [
          | inl e' ↦ absurd (out (kind, ground (arith, e), inl (ground (arith, e'))))
          | inr e' ↦ elim (Bool-cases (ltb a (p.vaddr + p.memsz))) [
            | inl f ↦ absurd (out (kind, ground (arith, e), inr (ground (arith, f))))
            | inr f ↦ inr (ground (arith, e'), ground (arith, f))
          ]
        ]
      ]

  untouched :
      (n i : ℕ) (ram : Ram) (a : ℕ)
      → i + n ≤ (header image).phnum
      → ((j : ℕ) → i ≤ j → j < i + n → ¬ Covers (segment image j) a)
      → place_all image n i ram a ≡ ram a
  unfolding place_all
  untouched zero i ram a h out = refl
  untouched (suc n) i ram a h out =
      untouched n (i + 1) _ a (omega arith) (λ j le lt. out j (omega arith) (omega arith))
      ∙ step_outside i ram a (omega arith) (out i (omega arith) (omega arith))

  covered :
      (n i j : ℕ) (ram : Ram) (a v : ℕ)
      → i + n ≤ (header image).phnum
      → i ≤ j
      → j < i + n
      → Covers (segment image j) a
      → ((r : Ram) → place image (segment image j) r a ≡ v)
      → place_all image n i ram a ≡ v
  unfolding place_all
  covered zero i j ram a v h le lt c placed = absurd (omega arith)
  covered (suc n) i j ram a v h le lt c placed = elim (Bool-cases (i == j)) [
    | inr e ↦ covered n (i + 1) j _ a v (omega arith) (ground (arith, e)) (omega arith) c placed
    | inl e ↦
        let same : i ≡ j = (==_iff i j).0 e in
        let here : Covers (segment image i) a =
          subst (λ k. Covers (segment image k) a) (sym same) c in
        untouched n (i + 1) _ a (omega arith) (λ k le' lt' c'.
          absurd (omega (arith, laid_out.disjoint i k a (omega arith) (omega arith) here c')))
        ∙ rw ((==_iff (segment image i).kind elf_pt_load).1 here.0)
            (ap (λ k. place image (segment image k) ram a) same ∙ placed ram)
  ]

  place_all-segments :
      (ram : Ram)
      → let loaded = place_all image (header image).phnum 0 ram in
        ((j k : ℕ)
          → j < (header image).phnum
          → (segment image j).kind ≡ elf_pt_load
          → ((k < (segment image j).filesz
                → loaded ((segment image j).vaddr + k)
                  ≡ get_or image ((segment image j).offset + k) 0)
              × ((segment image j).filesz ≤ k
                  → k < (segment image j).memsz
                  → loaded ((segment image j).vaddr + k) ≡ 0)))
        × ((a : ℕ)
            → ((j : ℕ) → j < (header image).phnum → ¬ Covers (segment image j) a)
            → loaded a ≡ ram a)
  place_all-segments ram = (
    λ j k h kind. (
      λ lt.
          covered (header image).phnum 0 j ram _ _ (omega arith) (omega arith) (omega arith)
            (kind, omega arith, inl (omega arith))
            (λ r.
              place_file image (segment image j) r (is_program.has_segments j h kind).1
                (laid_out.fits j h kind) k lt),
      λ le lt.
          covered (header image).phnum 0 j ram _ _ (omega arith) (omega arith) (omega arith)
            (kind, omega arith, inr (omega arith))
            (λ r.
              place_zero image (segment image j) r (is_program.has_segments j h kind).1
                (laid_out.fits j h kind) k le lt),
    ),
    λ a out. untouched (header image).phnum 0 ram a (omega arith) (λ j le lt. out j (omega arith)),
  )

  -- An address of a segment.
  placed_byte :
      (ram : Ram) (j k : ℕ)
      → j < (header image).phnum
      → (segment image j).kind ≡ elf_pt_load
      → (k < (segment image j).filesz) ⊎ (k < (segment image j).memsz)
      → place_all image (header image).phnum 0 ram ((segment image j).vaddr + k) ≡ (
          if ltb k (segment image j).filesz
          then get_or image ((segment image j).offset + k) 0
          else 0)
  placed_byte ram j k h kind inside = elim (Bool-cases (ltb k (segment image j).filesz)) [
    | inl e ↦ rw e (((place_all-segments ram).0 j k h kind).0 (ground (arith, e)))
    | inr e ↦
        rw e (
          ((place_all-segments ram).0 j k h kind).1 (ground (arith, e)) (ground (arith, e, inside)))
  ]

  place_all-Covers :
      (ram : Ram) (j a : ℕ)
      → j < (header image).phnum
      → Covers (segment image j) a
      → place_all image (header image).phnum 0 ram a ≡ segment_byte image (segment image j) a
  place_all-Covers ram j a h covers =
      ap (place_all image (header image).phnum 0 ram) (sym address)
      ∙ placed_byte ram j k h covers.0 (ground (arith, covers.2))
      ∙ ap (λ (c : Bool). if c then get_or image ((segment image j).offset + k) 0 else 0)
          {x = ltb k (segment image j).filesz}
          {y = ltb a ((segment image j).vaddr + (segment image j).filesz)}
          (ground (arith, covers.1))
    where
      k : ℕ
      k = a - (segment image j).vaddr

      address : (segment image j).vaddr + k ≡ a
      address = omega (arith, covers.1)

  place_all_outside :
      (ram : Ram) (a : ℕ)
      → ((j : ℕ) → j < (header image).phnum → ¬ Covers (segment image j) a)
      → place_all image (header image).phnum 0 ram a ≡ ram a
  place_all_outside ram a out = (place_all-segments ram).1 a out

  -- What an address is to hold after the program is loaded over some memory: a segment's byte, or, where
  -- no segment is, what it held.
  abbrev pub Holds : Ram → ℕ → ℕ → Type 0
  Holds ram a v =
      ((j : ℕ) × (j < (header image).phnum)
        × Covers (segment image j) a
        × (segment_byte image (segment image j) a ≡ v))
      ⊎ (((j : ℕ) → j < (header image).phnum → ¬ Covers (segment image j) a) × (ram a ≡ v))

  place_all-Holds :
      (ram : Ram) (a v : ℕ) → Holds ram a v → place_all image (header image).phnum 0 ram a ≡ v
  place_all-Holds ram a v (inl (j, h, covers, e)) = place_all-Covers ram j a h covers ∙ e
  place_all-Holds ram a v (inr (out, e)) = place_all_outside ram a out ∙ e

  module _ {S : Type 0} (read : Reader S) (Ready : S → Type 0)
      (given : GivesImage read Ready image) where
    -- A reader gives the bytes of a program as long as its state is ready; the program's segments do
    -- not meet, and the parts of them that are in the file end below 2^32. Then the program is loaded
    -- and started at its entry, with a memory in which an address of a segment holds the byte of the
    -- file that the segment has there, or zero behind the segment's part of the file, and an address
    -- of no segment holds what it held.
    pub load_elf-Covers :
        (ram : Ram) (s : S)
        → Ready s
        → (a v : ℕ) → Holds ram a v
        → (placed : Ram) × (t : S) × (load_elf read ram s
            ≡ (Loaded.started (header image).entry placed, t))
          × (placed a ≡ v)
    load_elf-Covers ram s ready a v holds =
        let r = load_elf-place_all read Ready image given is_program ram s ready in
        (place_all image (header image).phnum 0 ram, r.0, r.1, place_all-Holds ram a v holds)
