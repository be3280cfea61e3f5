-- ===== src/Link/Reads.antt =====
-- fruitchip-include/modchip/apps.h against the firmware: what is read is what the flash has.
use mathlib.Core.List.{append_assoc}
use fruitchip.Common.{
  ℕ, zero, suc, Bool, true, false, List, [], ◌∷◌, ◌++◌, ◌+◌, ◌*◌, ◌/◌, ◌%◌, ◌^◌, ◌<◌, ◌≡◌, refl,
  arith, ◌∙◌, ap, bytes32, ◌==◌, ==-refl, if◌then◌else◌, ◌&&◌, ltb, u32, length, All, take, drop,
  lt→ltb, sym, take-append-drop, length-take, length-drop, All-take,
}
use fruitchip.Common.Words.{word32-byte_of, bytes32-word32}
use fruitchip.Crc32.{crc32}
use fruitchip.Crc32.Bounds.{crc32_from-lt}
use fruitchip.Modchip.{result_ok, result_err}
use fruitchip.Board.{Board}
use fruitchip.Hal.{Memory, Hal}
use fruitchip.Host.Bus.{peek_words, peek_bytes, modchip_peek_n}
use fruitchip.Host.Apps.{Code, modchip_apps_read, read_answer, peek_checked_bytes}
use fruitchip.BootRom.Defs.{
  Call, Handler, Chip, Source, Effect, start_status_code, start_data_with_status_code,
}
use fruitchip.Apps.{
  apps_partition_detect, apps_partition_entries_count, apps_partition_entry_addr,
  apps_partition_entry_length,
}
use fruitchip.Host.Requests.{apps_read_request}
use fruitchip.BootRom.Write.Idle.{write_bytes}
use fruitchip.BootRom.Commands.Reads.{
  apps_read_front, apps_read_front-eq, apps_read_request-answer, crc_complement,
}
use fruitchip.Bootloader.{read_bytes}
use fruitchip.Bootloader.Operations.{length-read_bytes}
use fruitchip.Link.{World, Device, bus, device_of, quiet, data_bytes}
use fruitchip.Link.Pokes.{poke_request}
use fruitchip.Link.Settings.{ComputesCrc}

abbrev pub Bytes : List ℕ → Type 0
Bytes = All (λ x. x < 256)

module _ (b : Board) (hal : Hal) (world : World) where
  abbrev pub sending : Chip → List ℕ → Device
  sending c xs = record { chip = c; out = xs }

  -- Whole words of what is sent.
  words_received :
      (n : ℕ) (xs rest : List ℕ) (c : Chip)
      → length xs ≡ n * 4
      → Bytes xs
      → peek_words (bus b hal world) n (sending c (xs ++ rest)) ≡ (xs, sending c rest)
  unfolding peek_words
  words_received zero [] rest c e h = refl
  words_received zero (x ∷ xs) rest c e h = absurd (omega (arith, e))
  words_received (suc n) [] rest c e h = absurd (omega (arith, e))
  words_received (suc n) (x0 ∷ []) rest c e h = absurd (omega (arith, e))
  words_received (suc n) (x0 ∷ x1 ∷ []) rest c e h = absurd (omega (arith, e))
  words_received (suc n) (x0 ∷ x1 ∷ x2 ∷ []) rest c e h = absurd (omega (arith, e))
  words_received (suc n) (x0 ∷ x1 ∷ x2 ∷ x3 ∷ xs) rest c e h =
      rw (words_received n xs rest c (omega (arith, e)) h.1.1.1.1)
        (ap (λ (l : List ℕ). before l) (bytes32-word32 x0 x1 x2 x3 h.0 h.1.0 h.1.1.0 h.1.1.1.0))
    where
      before : List ℕ → List ℕ × Device
      before l = (l ++ xs, sending c rest)

  bytes_received :
      (n : ℕ) (xs rest : List ℕ) (c : Chip)
      → length xs ≡ n
      → peek_bytes (bus b hal world) n (sending c (xs ++ rest)) ≡ (xs, sending c rest)
  unfolding peek_bytes
  bytes_received zero [] rest c e = refl
  bytes_received zero (x ∷ xs) rest c e = absurd (omega (arith, e))
  bytes_received (suc n) [] rest c e = absurd (omega (arith, e))
  bytes_received (suc n) (x ∷ xs) rest c e = rw (bytes_received n xs rest c (omega (arith, e))) refl

  -- Any number of bytes.
  pub all_received :
      (xs rest : List ℕ) (c : Chip)
      → Bytes xs
      → modchip_peek_n (bus b hal world) (length xs) (sending c (xs ++ rest)) ≡ (xs, sending c rest)
  unfolding modchip_peek_n
  all_received xs rest c h =
      ap (λ l. modchip_peek_n (bus b hal world) (length xs) (sending c l)) split
      ∙ rw
          (
            words_received (length xs / 4) front (back ++ rest) c front_length
                (All-take _ (length xs / 4 * 4) xs h),
            bytes_received (length xs % 4) back rest c back_length,
          )
          (ap (λ (l : List ℕ). joined l) (take-append-drop (length xs / 4 * 4) xs))
    where
      front : List ℕ
      front = take (length xs / 4 * 4) xs

      back : List ℕ
      back = drop (length xs / 4 * 4) xs

      front_length : length front ≡ length xs / 4 * 4
      front_length = length-take (length xs / 4 * 4) xs (omega arith)

      back_length : length back ≡ length xs % 4
      back_length = length-drop (length xs / 4 * 4) xs ∙ omega arith

      split : xs ++ rest ≡ front ++ (back ++ rest)
      split =
          ap (λ l. l ++ rest) (sym (take-append-drop (length xs / 4 * 4) xs))
          ∙ append_assoc front back rest

      joined : List ℕ → List ℕ × Device
      joined l = (l, sending c rest)

module _ (b : Board) (hal : Hal) (world : World) (computes : ComputesCrc hal) where
  checked_bytes :
      (xs : List ℕ) (crc : Bool) (c : Chip)
      → Bytes xs
      → peek_checked_bytes
          (bus b hal world)
          (length xs)
          crc
          (sending b hal world c (data_bytes b hal world xs crc ++ []))
        ≡ ((Code.zero_ok, xs), quiet c)
  unfolding peek_checked_bytes crc32
  checked_bytes xs false c h =
      ap (λ l. plain (modchip_peek_n (bus b hal world) (length xs) (sending b hal world c l)))
        (append_assoc xs [] [])
      ∙ ap plain (all_received b hal world xs [] c h)
    where
      plain : List ℕ × Device → (Code × List ℕ) × Device
      plain r = ((Code.zero_ok, r.0), r.1)
  checked_bytes xs true c h =
      ap (λ l. checked (modchip_peek_n (bus b hal world) (length xs) (sending b hal world c l)))
        (append_assoc xs (bytes32 (hal.sniff_crc32 xs 0xFFFFFFFF)) [])
      ∙ ap checked (all_received b hal world xs (bytes32 (hal.sniff_crc32 xs 0xFFFFFFFF) ++ []) c h)
      ∙ rw
          (
            computes xs,
            word32-byte_of (crc32 xs) (crc32_from-lt 0xFFFFFFFF xs (omega arith)),
            ==-refl (crc32 xs),
          )
          refl
    where
      checked : List ℕ × Device → (Code × List ℕ) × Device
      checked r =
          let (crc_expected, t) = (bus b hal world).peek_u32 r.1 in
          (((if crc_expected == crc32 r.0 then Code.zero_ok else Code.io), r.0), t)

  -- What a reading function of the console makes of an answer with data.
  pub read_answered :
      (xs old : List ℕ) (crc : Bool) (c : Chip)
      → Bytes xs
      → read_answer
          (bus b hal world)
          (length xs)
          crc
          old
          (sending b hal world c (bytes32 result_ok ++ (data_bytes b hal world xs crc ++ [])))
        ≡ ((Code.zero_ok, xs), quiet c)
  unfolding read_answer
  read_answered xs old crc c h = checked_bytes xs crc c h

  module _ (s : Chip) (idle : s.write_handler ≡ Handler.idle) where
    -- A modchip that is between two commands has a valid apps partition with an entry, the offset lies
    -- inside the entry, and the range holds bytes. Then the console's read returns 0 and exactly
    -- the bytes of the flash from that offset of the entry on, and the modchip has sent all.
    pub modchip_apps_read-answer :
        (offset size app_idx : ℕ) (crc : Bool) (old : List ℕ)
        → offset < 2 ^ 32
        → size < 2 ^ 32
        → app_idx < 256
        → apps_partition_detect hal s.memory ≡ true
        → offset < apps_partition_entry_length hal s.memory app_idx
        → app_idx < apps_partition_entries_count hal s.memory
        → Bytes (
            read_bytes s.memory
              (u32 (apps_partition_entry_addr hal s.memory app_idx + offset))
              size)
        → modchip_apps_read (bus b hal world) offset size app_idx crc old (quiet s) ≡ (
          (
            Code.zero_ok,
            read_bytes s.memory
                (u32 (apps_partition_entry_addr hal s.memory app_idx + offset))
                size,
          ),
          quiet (write_bytes b hal s (apps_read_request offset size app_idx crc)).0,
        )
    unfolding modchip_apps_read
    modchip_apps_read-answer offset size app_idx crc old ho hz ha table inside known bytes =
        ap (read_answer (bus b hal world) size crc old) (
          poke_request b hal world (apps_read_front b hal s idle offset size app_idx crc)
            (crc_complement b hal s idle crc) s
            (ap (λ (e : Effect). e.1)
              (apps_read_front-eq b hal s idle offset size app_idx crc ho hz))
          ∙ seen)
        ∙ ap (λ n. read_answer (bus b hal world) n crc old (answering s.memory))
            (sym (length-read_bytes s.memory size addr))
        ∙ in_full
      where
        t : Chip
        t = (write_bytes b hal s (apps_read_request offset size app_idx crc)).0

        addr : ℕ
        addr = u32 (apps_partition_entry_addr hal s.memory app_idx + offset)

        xs : List ℕ
        xs = read_bytes s.memory addr size

        answer :
            (t.write_handler ≡ Handler.idle)
            × (t.memory ≡ s.memory)
            × ((write_bytes b hal s (apps_read_request offset size app_idx crc)).1 ≡ (
                if apps_partition_detect hal s.memory
                  && (ltb offset (apps_partition_entry_length hal s.memory app_idx)
                      && ltb app_idx (apps_partition_entries_count hal s.memory))
                then start_data_with_status_code result_ok (Source.flash_window addr) size crc ∷ []
                else start_status_code result_err ∷ []))
        answer = apps_read_request-answer b hal s idle offset size app_idx crc ho hz ha

        answering : Memory → Device
        answering m =
            sending b hal world t
              (bytes32 result_ok ++ (data_bytes b hal world (read_bytes m addr size) crc ++ []))

        accepted :
            (if apps_partition_detect hal s.memory
                && (ltb offset (apps_partition_entry_length hal s.memory app_idx)
                    && ltb app_idx (apps_partition_entries_count hal s.memory))
              then start_data_with_status_code result_ok (Source.flash_window addr) size crc ∷ []
              else start_status_code result_err ∷ [])
            ≡ start_data_with_status_code result_ok (Source.flash_window addr) size crc ∷ []
        accepted = rw (table, lt→ltb _ _ inside, lt→ltb _ _ known) refl

        seen :
            device_of b hal world (write_bytes b hal s (apps_read_request offset size app_idx crc))
            ≡ answering s.memory
        seen =
            ap (λ (calls : List Call). device_of b hal world (t, calls)) (answer.2 ∙ accepted)
            ∙ ap answering answer.1

        in_full :
            read_answer
              (bus b hal world)
              (length xs)
              crc
              old
              (sending b hal world t (bytes32 result_ok ++ (data_bytes b hal world xs crc ++ [])))
            ≡ ((Code.zero_ok, xs), quiet t)
        in_full = read_answered xs old crc t bytes
