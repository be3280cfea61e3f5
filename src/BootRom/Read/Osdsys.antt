-- ===== src/BootRom/Read/Osdsys.antt =====
-- The search for the console's system: the syscall table behind its ELF header.
use fruitchip.Common.{
  ℕ, true, false, List, [], ◌∷◌, ◌++◌, ◌+◌, ◌<◌, ◌≤◌, ◌≡◌, ◌≢◌, ◌⊎◌, inl, inr, refl, arith, ◌∙◌, ap,
  length, All,
}
use fruitchip.Board.{Board}
use fruitchip.BootRom.Defs.{Source, set_data, start_data_without_status_code, set_led_osdhook}
use fruitchip.BootRom.Read.{ReadHandler, Reader, ReadEffect, read_all, read_byte, skip_osdsys}

-- A reader inside the syscall table, and inside the header, with a counter.
abbrev pub in_table : Reader → ℕ → Reader
in_table s n = record s { read_handler = ReadHandler.find_osdsys_syscall_table; osdsys_counter = n }

abbrev pub in_header : Reader → ℕ → Reader
in_header s n = record s { read_handler = ReadHandler.find_osdsys_elf; osdsys_counter = n }

module _ (b : Board) (s : Reader) where
  table_byte :
      (n r : ℕ)
      → (n + 1 < 503) ⊎ ((502 < n) × (n + 1 < 508))
      → read_byte b (in_table s n) r ≡ (in_table s (n + 1), [])
  unfolding read_byte
  table_byte n r h = ground arith

  -- The counter of the table runs over bytes of any value, up to 502 and from 503 to 507.
  table_runs :
      (rs more : List ℕ) (n end : ℕ)
      → n + length rs ≡ end
      → (end < 503) ⊎ ((502 < n) × (end < 508))
      → read_all b (in_table s n) (rs ++ more) ≡ read_all b (in_table s end) more
  unfolding read_all
  table_runs [] more n end e h = ap (λ k. read_all b (in_table s k) more) (omega (arith, e))
  table_runs (r ∷ rs) more n end e h =
      rw (table_byte n r (ground arith))
        (table_runs rs more (n + 1) end (omega arith) (ground arith))

  table_end :
      read_byte b (in_table s 507) 0x00
      ≡ (skip_osdsys s, start_data_without_status_code true ∷ set_led_osdhook ∷ [])
  unfolding read_byte
  table_end = refl

  table_hook :
      (r : ℕ)
      → r ≡ 0xE0
      → s.disable_next_osdsys_hook ≡ false
      → read_byte b (in_table s 502) r
        ≡ (in_table s 503, set_data Source.ee_stage1 b.ee_stage1_size ∷ [])
  unfolding read_byte
  table_hook r e enabled = rw (e, enabled) refl

  -- A whole syscall table while the hook is enabled.
  pub table-enabled :
      (front back : List ℕ)
      → length front ≡ 502
      → length back ≡ 4
      → s.disable_next_osdsys_hook ≡ false
      → read_all b (in_table s 0) (front ++ (0xE0 ∷ back ++ 0x00 ∷ [])) ≡ (
        skip_osdsys s,
        set_data Source.ee_stage1 b.ee_stage1_size
            ∷ start_data_without_status_code true
            ∷ set_led_osdhook
            ∷ [],
      )
  unfolding read_all
  table-enabled front back hf hb enabled =
      table_runs front (0xE0 ∷ back ++ 0x00 ∷ []) 0 502 (omega arith) (inl (omega arith))
      ∙ rw (table_hook 0xE0 refl enabled) (
          ap (λ (e : ReadEffect). (e.0, set_data Source.ee_stage1 b.ee_stage1_size ∷ e.1))
            (table_runs back (0x00 ∷ []) 503 507 (omega arith) (inr (omega arith, omega arith))
              ∙ rw table_end refl))

  table_skip :
      s.disable_next_osdsys_hook ≡ true → read_byte b (in_table s 502) 0xE0 ≡ (skip_osdsys s, [])
  unfolding read_byte
  table_skip disabled = rw disabled refl

  -- The table while the hook is disabled.
  pub table-disabled :
      (front : List ℕ)
      → length front ≡ 502
      → s.disable_next_osdsys_hook ≡ true
      → read_all b (in_table s 0) (front ++ 0xE0 ∷ []) ≡ (skip_osdsys s, [])
  unfolding read_all
  table-disabled front hf disabled =
      table_runs front (0xE0 ∷ []) 0 502 (omega arith) (inl (omega arith))
      ∙ rw (table_skip disabled) refl

-- The first 52 bytes of the header that is looked for, with the bytes of the two gaps.
abbrev pub osdsys_header : List ℕ → List ℕ → List ℕ → List ℕ
osdsys_header gap0 gap1 more =
    0x7F
    ∷ 0x45
    ∷ 0x4C
    ∷ 0x46
    ∷ (gap0 ++ 0x08 ∷ 0x00 ∷ 0x10 ∷ 0x00 ∷ (gap1 ++ 0x08 ∷ 0x00 ∷ 0x07 ∷ 0x00 ∷ more))

module _ (b : Board) (s : Reader) where
  header_byte :
      (n r : ℕ)
      → r ≢ 0x7F
      → ((3 ≤ n) × (n + 1 < 24)) ⊎ ((27 ≤ n) × (n + 1 < 48))
      → read_byte b (in_header s n) r ≡ (in_header s (n + 1), [])
  unfolding read_byte
  header_byte n r ne h = ground arith

  header_runs :
      (rs more : List ℕ) (n end : ℕ)
      → All (λ r. r ≢ 0x7F) rs
      → n + length rs ≡ end
      → ((3 ≤ n) × (end < 24)) ⊎ ((27 ≤ n) × (end < 48))
      → read_all b (in_header s n) (rs ++ more) ≡ read_all b (in_header s end) more
  unfolding read_all
  header_runs [] more n end all e h = ap (λ k. read_all b (in_header s k) more) (omega (arith, e))
  header_runs (r ∷ rs) more n end all e h =
      rw (header_byte n r all.0 (ground arith))
        (header_runs rs more (n + 1) end all.1 (omega arith) (ground arith))

  header_magic :
      (more : List ℕ)
      → s.read_handler ≡ ReadHandler.idle
      → s.osdsys_counter ≡ 0
      → read_all b s (0x7F ∷ 0x45 ∷ 0x4C ∷ 0x46 ∷ more) ≡ read_all b (in_header s 3) more
  unfolding read_all
  header_magic more idle zeroed = rw (idle, zeroed) refl

  header_entry :
      (more : List ℕ)
      → read_all b (in_header s 23) (0x08 ∷ 0x00 ∷ 0x10 ∷ 0x00 ∷ more)
        ≡ read_all b (in_header s 27) more
  unfolding read_all
  header_entry more = refl

  header_tail :
      (more : List ℕ)
      → read_all b (in_header s 47) (0x08 ∷ 0x00 ∷ 0x07 ∷ 0x00 ∷ more)
        ≡ read_all b (in_table s 0) more
  unfolding read_all
  header_tail more = refl

  pub header_found :
      (gap0 gap1 more : List ℕ)
      → s.read_handler ≡ ReadHandler.idle
      → s.osdsys_counter ≡ 0
      → All (λ r. r ≢ 0x7F) gap0
      → length gap0 ≡ 20
      → All (λ r. r ≢ 0x7F) gap1
      → length gap1 ≡ 20
      → read_all b s (osdsys_header gap0 gap1 more) ≡ read_all b (in_table s 0) more
  header_found gap0 gap1 more idle zeroed free0 len0 free1 len1 =
      header_magic _ idle zeroed
      ∙ header_runs gap0 _ 3 23 free0 (omega arith) (inl (omega arith, omega arith))
      ∙ header_entry _
      ∙ header_runs gap1 _ 27 47 free1 (omega arith) (inr (omega arith, omega arith))
      ∙ header_tail more

  -- The reader is idle with a zero counter and the hook is enabled. The console reads the header
  -- that is looked for, any 502 bytes, 0xE0, any four bytes and 0: the calls are the choice of
  -- stage 1 as the data, the start of the transfer and the LED, and the reader is idle again with
  -- a zero counter.
  pub osdsys_hook :
      (gap0 gap1 front back : List ℕ)
      → s.read_handler ≡ ReadHandler.idle
      → s.osdsys_counter ≡ 0
      → s.disable_next_osdsys_hook ≡ false
      → All (λ r. r ≢ 0x7F) gap0 × (length gap0 ≡ 20)
      → All (λ r. r ≢ 0x7F) gap1 × (length gap1 ≡ 20)
      → length front ≡ 502
      → length back ≡ 4
      → read_all b s (osdsys_header gap0 gap1 (front ++ (0xE0 ∷ back ++ 0x00 ∷ []))) ≡ (
        skip_osdsys s,
        set_data Source.ee_stage1 b.ee_stage1_size
            ∷ start_data_without_status_code true
            ∷ set_led_osdhook
            ∷ [],
      )
  osdsys_hook gap0 gap1 front back idle zeroed enabled h0 h1 hf hb =
      header_found gap0 gap1 _ idle zeroed h0.0 h0.1 h1.0 h1.1
      ∙ table-enabled b s front back hf hb enabled

  -- The same reader with the hook disabled reads the header, any 502 bytes and 0xE0: it makes no
  -- call, is idle again, and the hook is enabled for the next time.
  pub osdsys_hook_skipped :
      (gap0 gap1 front : List ℕ)
      → s.read_handler ≡ ReadHandler.idle
      → s.osdsys_counter ≡ 0
      → s.disable_next_osdsys_hook ≡ true
      → All (λ r. r ≢ 0x7F) gap0 × (length gap0 ≡ 20)
      → All (λ r. r ≢ 0x7F) gap1 × (length gap1 ≡ 20)
      → length front ≡ 502
      → read_all b s (osdsys_header gap0 gap1 (front ++ 0xE0 ∷ [])) ≡ (skip_osdsys s, [])
  osdsys_hook_skipped gap0 gap1 front idle zeroed disabled h0 h1 hf =
      header_found gap0 gap1 _ idle zeroed h0.0 h0.1 h1.0 h1.1
      ∙ table-disabled b s front hf disabled
