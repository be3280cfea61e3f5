-- ===== src/Tests/Loader.antt =====
-- A program with two segments, as the third stage of a simulated modchip.
use fruitchip.Common.{
  ℕ, zero, suc, Bool, true, List, [], ◌∷◌, ◌++◌, ◌+◌, ◌<◌, ◌≤◌, ◌^◌, ◌≡◌, refl, arith, ◌&&◌, ltb,
  bytes32, take, drop, Bool-cases, inl, inr,
}
use fruitchip.Crc32.{crc32}
use fruitchip.Board.{Board}
use fruitchip.BootRom.Defs.{Source}
use fruitchip.Loader.Elf.{Ram, Loaded, load_elf, stage3_reader, store_bytes, clear_bytes}
use fruitchip.Loader.Elf.Place.{IsProgram, segment, place_all}
use fruitchip.Loader.Elf.Segments.{IsLaidOut, Covers, load_elf-Covers}
use fruitchip.Loader.Stage1.{Stage1, exec_ps2, ee_stage_1_addr, ee_stage_2_addr}
use fruitchip.Loader.Stage1.Checks.{IsChecked, exec_ps2-IsChecked}
use fruitchip.Loader.Stage2.{start, user_mem_start_addr, user_mem_size}
use fruitchip.Link.{World, Device, bus, quiet}
use fruitchip.Link.Reads.{Bytes}
use fruitchip.Link.Loader.{HasStage3, IsWaiting, firmware-GivesImage}
use fruitchip.Link.Loader.Stages.{HasStage1, HasStage2, exec_ps2-start, exec_ps2-HasStage2, served}
use fruitchip.Tests.Machine.{sim, tiny, powered_on}
use fruitchip.Tests.Link.{sim-ComputesCrc}

abbrev program : List ℕ
program =
    127 ∷ 69 ∷ 76 ∷ 70 ∷ 0 ∷ 0 ∷ 0 ∷ 0 ∷ 0 ∷ 0 ∷ 0 ∷ 0 ∷ 0 ∷ 0 ∷ 0 ∷ 0 ∷ 2 ∷ 0 ∷ 8 ∷ 0 ∷ 1 ∷ 0 ∷ 0
    ∷ 0 ∷ 0 ∷ 0 ∷ 32 ∷ 0 ∷ 52 ∷ 0 ∷ 0 ∷ 0 ∷ 0 ∷ 0 ∷ 0 ∷ 0 ∷ 0 ∷ 0 ∷ 0 ∷ 0 ∷ 52 ∷ 0 ∷ 32 ∷ 0 ∷ 2 ∷ 0
    ∷ 0 ∷ 0 ∷ 0 ∷ 0 ∷ 0 ∷ 0 ∷ 1 ∷ 0 ∷ 0 ∷ 0 ∷ 116 ∷ 0 ∷ 0 ∷ 0 ∷ 0 ∷ 0 ∷ 32 ∷ 0 ∷ 0 ∷ 0 ∷ 32 ∷ 0 ∷ 4
    ∷ 0 ∷ 0 ∷ 0 ∷ 8 ∷ 0 ∷ 0 ∷ 0 ∷ 5 ∷ 0 ∷ 0 ∷ 0 ∷ 16 ∷ 0 ∷ 0 ∷ 0 ∷ 1 ∷ 0 ∷ 0 ∷ 0 ∷ 120 ∷ 0 ∷ 0 ∷ 0
    ∷ 16 ∷ 0 ∷ 32 ∷ 0 ∷ 16 ∷ 0 ∷ 32 ∷ 0 ∷ 2 ∷ 0 ∷ 0 ∷ 0 ∷ 2 ∷ 0 ∷ 0 ∷ 0 ∷ 5 ∷ 0 ∷ 0 ∷ 0 ∷ 16 ∷ 0 ∷ 0
    ∷ 0 ∷ 222 ∷ 173 ∷ 190 ∷ 239 ∷ 202 ∷ 254 ∷ []

abbrev second : List ℕ
second = 1 ∷ 2 ∷ 3 ∷ 4 ∷ 5 ∷ []

abbrev first : List ℕ
first = 6 ∷ 7 ∷ 8 ∷ 9 ∷ []

abbrev board : Board
board = record tiny { ee_stage1_size = 4; ee_stage2_size = 5; ee_stage3_size = 122 }

abbrev images : Source → ℕ → List ℕ
images Source.ee_stage2 n = second
images (Source.ee_stage3 offset) n = take n (drop offset program)
images src n = []

abbrev world : World
world = record { image = images; busy = 0 }

-- The first stage with its checksum, and nothing else.
abbrev ram : Ram
ram = store_bytes ee_stage_1_addr (first ++ bytes32 (crc32 first)) (λ a. 0)

abbrev all_bytes : List ℕ → Bool
all_bytes [] = true
all_bytes (x ∷ xs) = ltb x 256 && all_bytes xs

all_bytes-Bytes : (xs : List ℕ) → all_bytes xs ≡ true → Bytes xs
all_bytes-Bytes [] e = tt
all_bytes-Bytes (x ∷ xs) e = elim (Bool-cases (ltb x 256)) [
  | inl y ↦ (ground (arith, y), all_bytes-Bytes xs (ground (arith, y, e)))
  | inr n ↦ absurd (ground (arith, n, e))
]

world-HasStage3 : HasStage3 board world program
world-HasStage3 = record {
  size = refl;
  small = omega arith;
  bytes = all_bytes-Bytes program refl;
  sends = λ offset n h. refl;
}

world-HasStage2 : HasStage2 board world second
world-HasStage2 = record { size = refl; small = omega arith; bytes = ground arith; sends = refl }

ram-HasStage1 : HasStage1 board ram
unfolding crc32
ram-HasStage1 = record { small = omega arith; intact = refl }

program-IsProgram : IsProgram program
program-IsProgram = record {
  small = omega arith;
  has_header = omega arith;
  is_elf = refl;
  has_headers = omega arith;
  has_segments = fits;
}
  where
    fits :
        (i : ℕ)
        → i < 2
        → (segment program i).kind ≡ 1
        → ((segment program i).offset < 122)
          × ((segment program i).offset + (segment program i).filesz ≤ 122)
    fits zero h k = (omega arith, omega arith)
    fits (suc zero) h k = (omega arith, omega arith)
    fits (suc (suc i)) h k = absurd (omega arith)

exec_ps2-start_example :
    let (r, d) = exec_ps2 (bus board sim world) ram (quiet powered_on) in
    let loaded_over = store_bytes ee_stage_2_addr second ram in
    (r ≡ Stage1.jump ee_stage_2_addr loaded_over)
    × ((t : Device) × (start (bus board sim world) loaded_over d ≡ (
      Loaded.started 0x200000
          (place_all program 2 0 (clear_bytes user_mem_start_addr user_mem_size loaded_over)),
      t,
    ))
        × IsWaiting t)
exec_ps2-start_example =
    exec_ps2-start board sim world sim-ComputesCrc second world-HasStage2 ram program
      world-HasStage3 program-IsProgram ram-HasStage1 powered_on refl

exec_ps2-IsChecked_example :
    IsChecked
      (bus board sim world)
      (quiet powered_on)
      ram
      ee_stage_2_addr
      (store_bytes ee_stage_2_addr second ram)
      (quiet (served powered_on))
exec_ps2-IsChecked_example =
    exec_ps2-IsChecked (bus board sim world) ram ee_stage_2_addr
      (store_bytes ee_stage_2_addr second ram) (quiet (served powered_on)) (quiet powered_on)
      (exec_ps2-HasStage2 board sim world sim-ComputesCrc second world-HasStage2 ram ram-HasStage1
        powered_on refl)

program-IsLaidOut : IsLaidOut program
program-IsLaidOut = record { disjoint = apart; fits = below }
  where
    apart :
        (i j a : ℕ)
        → i < 2
        → j < 2
        → Covers (segment program i) a
        → Covers (segment program j) a
        → i ≡ j
    apart zero zero a hi hj ci cj = refl
    apart zero (suc zero) a hi hj ci cj = absurd (ground (arith, ci, cj))
    apart (suc zero) zero a hi hj ci cj = absurd (ground (arith, ci, cj))
    apart (suc zero) (suc zero) a hi hj ci cj = refl
    apart (suc (suc i)) j a hi hj ci cj = absurd (omega arith)
    apart zero (suc (suc j)) a hi hj ci cj = absurd (omega arith)
    apart (suc zero) (suc (suc j)) a hi hj ci cj = absurd (omega arith)

    below :
        (i : ℕ)
        → i < 2
        → (segment program i).kind ≡ 1
        → (segment program i).vaddr + (segment program i).filesz < 2 ^ 32
    below zero h k = omega arith
    below (suc zero) h k = omega arith
    below (suc (suc i)) h k = absurd (omega arith)

-- The last byte of the second segment, which the first takes beyond the file.
load_elf-Covers_example :
    (placed : Ram) × (t : Device) × (load_elf
        (stage3_reader (bus board sim world))
        ram
        (quiet powered_on)
      ≡ (Loaded.started 0x200000 placed, t))
    × (placed 0x200011 ≡ 0xfe)
load_elf-Covers_example =
    load_elf-Covers program program-IsProgram program-IsLaidOut
      (stage3_reader (bus board sim world)) IsWaiting
      (firmware-GivesImage board sim world sim-ComputesCrc program world-HasStage3) ram
      (quiet powered_on) (powered_on, refl, refl) 0x200011 0xfe
      (inl (1, omega arith, (refl, omega arith, inl (omega arith)), refl))
