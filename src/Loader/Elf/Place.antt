-- ===== src/Loader/Elf/Place.antt =====
-- A program that is loaded is placed as its headers say.
use fruitchip.Common.{
  ℕ, zero, suc, true, false, List, [], ◌+◌, ◌*◌, ◌^◌, ◌<◌, ◌≤◌, ◌≡◌, inl, inr, refl, arith, ◌∙◌, ap,
  ◌==◌, ==_iff, if◌then◌else◌, Bool-cases, u32, take, drop, length,
}
use fruitchip.Host.Apps.{Code}
use fruitchip.Loader.Elf.{
  ElfHeader, ElfPheader, Ram, Reader, Loaded, elf_header_size, elf_pheader_size, elf_pheader_of,
  elf_header_of, elf_pt_load, elf_magic, store_bytes, clear_rest, load_segments, load_section,
  load_segment, ram_bytes, load_program, load_elf,
}

-- A reader that gives the bytes of an image, as long as the state is `Ready`.
pub record GivesImage {S : Type 0} (read : Reader S) (Ready : S → Type 0) (image : List ℕ)
    : Type 0 where
  pub gives :
      (offset size : ℕ) (old : List ℕ) (s : S)
      → Ready s
      → offset < length image
      → offset + size ≤ length image
      → let (r, t) = read offset size old s in
        (r ≡ (Code.zero_ok, take size (drop offset image))) × Ready t

module _ (image : List ℕ) where
  -- The header of the program, and its program header number `i`.
  abbrev pub header : ElfHeader
  header = elf_header_of (take elf_header_size (drop 0 image))

  abbrev pub segment : ℕ → ElfPheader
  segment i =
      elf_pheader_of (take elf_pheader_size (drop (header.phoff + elf_pheader_size * i) image))

  -- A segment in memory.
  abbrev pub place : ElfPheader → Ram → Ram
  place p ram = clear_rest p (store_bytes p.vaddr (take p.filesz (drop p.offset image)) ram)

  -- The segments from number `i` on, `n` of them.
  unfoldable pub place_all : ℕ → ℕ → Ram → Ram
  place_all zero i ram = ram
  place_all (suc n) i ram =
      place_all n (i + 1) (if (segment i).kind == elf_pt_load then place (segment i) ram else ram)

  -- The headers and the parts to be loaded lie in the image.
  pub record IsProgram : Type 0 where
    pub small : length image < 2 ^ 32
    pub has_header : elf_header_size ≤ length image
    pub is_elf : header.ident ≡ elf_magic
    pub has_headers : header.phoff + elf_pheader_size * header.phnum ≤ length image
    pub has_segments :
        (i : ℕ)
        → i < header.phnum
        → (segment i).kind ≡ elf_pt_load
        → ((segment i).offset < length image)
          × ((segment i).offset + (segment i).filesz ≤ length image)

module _ {S : Type 0} (read : Reader S) where
  section_step :
      (p : ElfPheader) (ram : Ram) (bytes : List ℕ) (s t : S)
      → read p.offset p.filesz (ram_bytes ram p.vaddr p.filesz) s ≡ ((Code.zero_ok, bytes), t)
      → load_section read p ram s ≡ ((true, clear_rest p (store_bytes p.vaddr bytes ram)), t)
  unfolding load_section
  section_step p ram bytes s t e = rw e refl

  segments_step :
      (eh : ElfHeader) (n i : ℕ) (eph bytes : List ℕ) (ram placed : Ram) (s t v : S)
      → read (u32 (eh.phoff + elf_pheader_size * i)) elf_pheader_size eph s
        ≡ ((Code.zero_ok, bytes), t)
      → load_segment read (elf_pheader_of bytes) ram t ≡ ((true, placed), v)
      → load_segments read eh (suc n) i eph ram s ≡ load_segments read eh n (i + 1) bytes placed v
  unfolding load_segments
  segments_step eh n i eph bytes ram placed s t v e e' = rw e (rw e' refl)

  program_step :
      (bytes : List ℕ) (ram : Ram) (s t : S)
      → read 0 elf_header_size [] s ≡ ((Code.zero_ok, bytes), t)
      → (elf_header_of bytes).ident ≡ elf_magic
      → load_elf read ram s
        ≡ load_segments read (elf_header_of bytes) (elf_header_of bytes).phnum 0 [] ram t
  unfolding load_elf load_program
  program_step bytes ram s t e magic =
      rw e (elim (Bool-cases ((elf_header_of bytes).ident == elf_magic)) [
        | inl y ↦ rw y refl
        | inr n ↦ absurd (ground (arith, n, magic))
      ])

  segment_skipped :
      (p : ElfPheader) (ram : Ram) (s : S)
      → (p.kind == elf_pt_load) ≡ false
      → load_segment read p ram s ≡ ((true, ram), s)
  unfolding load_segment
  segment_skipped p ram s e = rw e refl

  segment_loaded :
      (p : ElfPheader) (ram : Ram) (s : S)
      → (p.kind == elf_pt_load) ≡ true
      → load_segment read p ram s ≡ load_section read p ram s
  unfolding load_segment
  segment_loaded p ram s e = rw e refl

module _ {S : Type 0} (read : Reader S) (Ready : S → Type 0) (image : List ℕ)
    (given : GivesImage read Ready image) (is_program : IsProgram image) where
  given-eq :
      (offset size : ℕ) (old : List ℕ) (s : S)
      → Ready s
      → offset < length image
      → offset + size ≤ length image
      → (t : S) × (read offset size old s ≡ ((Code.zero_ok, take size (drop offset image)), t))
        × Ready t
  given-eq offset size old s ready before inside =
      let r = given.gives offset size old s ready before inside in
      (
        (read offset size old s).1,
        ap (λ (x : Code × List ℕ). (x, (read offset size old s).1)) r.0,
        r.1,
      )

  -- A segment of the program is placed, or is not one to be loaded.
  loaded_segment :
      (i : ℕ) (ram : Ram) (s : S)
      → i < (header image).phnum
      → Ready s
      → (t : S) × (load_segment read (segment image i) ram s ≡ (
        (
          true,
          (if (segment image i).kind == elf_pt_load
              then place image (segment image i) ram
              else ram),
        ),
        t,
      ))
        × Ready t
  loaded_segment i ram s h ready = elim (Bool-cases ((segment image i).kind == elf_pt_load)) [
    | inr e ↦ (s, segment_skipped read (segment image i) ram s e ∙ rw e refl, ready)
    | inl e ↦
        let inside =
          is_program.has_segments i h ((==_iff (segment image i).kind elf_pt_load).0 e) in
        let r =
          given-eq (segment image i).offset (segment image i).filesz
            (ram_bytes ram (segment image i).vaddr (segment image i).filesz) s ready inside.0
            inside.1 in
        (
          r.0,
          segment_loaded read (segment image i) ram s e
              ∙ section_step read (segment image i) ram _ s r.0 r.1
              ∙ rw e refl,
          r.2,
        )
  ]

  loaded_segments :
      (n i : ℕ) (eph : List ℕ) (ram : Ram) (s : S)
      → i + n ≡ (header image).phnum
      → Ready s
      → (t : S) × (load_segments read (header image) n i eph ram s
          ≡ (Loaded.started (header image).entry (place_all image n i ram), t))
        × Ready t
  unfolding load_segments place_all
  loaded_segments zero i eph ram s e ready = (s, refl, ready)
  loaded_segments (suc n) i eph ram s e ready =
      let start : ℕ = (header image).phoff + elf_pheader_size * i in
      let near : u32 start ≡ start = omega (arith, is_program.small, is_program.has_headers, e) in
      let r =
        given-eq start elf_pheader_size eph s ready (omega (arith, is_program.has_headers, e))
          (omega (arith, is_program.has_headers, e)) in
      let seg = loaded_segment i ram r.0 (omega (arith, e)) r.2 in
      let rest =
        loaded_segments n (i + 1) (take elf_pheader_size (drop start image)) _ seg.0
          (omega (arith, e)) seg.2 in
      (
        rest.0,
        segments_step read (header image) n i eph _ ram _ s r.0 seg.0
              (ap (λ a. read a elf_pheader_size eph s) near ∙ r.1) seg.1
            ∙ rest.1,
        rest.2,
      )

  pub load_elf-place_all :
      (ram : Ram) (s : S)
      → Ready s
      → (t : S) × (load_elf read ram s
          ≡ (Loaded.started (header image).entry (place_all image (header image).phnum 0 ram), t))
        × Ready t
  load_elf-place_all ram s ready =
      let r =
        given-eq 0 elf_header_size [] s ready (omega (arith, is_program.has_header))
          (omega (arith, is_program.has_header)) in
      let rest = loaded_segments (header image).phnum 0 [] ram r.0 (omega arith) r.2 in
      (rest.0, program_step read _ ram s r.0 r.1 is_program.is_elf ∙ rest.1, rest.2)
