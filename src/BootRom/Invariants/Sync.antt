-- ===== src/BootRom/Invariants/Sync.antt =====
-- The byte counter beside the handler: no command keeps the chip from the next one for ever.
use fruitchip.Common.{
  ℕ, suc, List, [], ◌∷◌, ◌+◌, ◌≤◌, ◌≡◌, ◌≢◌, ◌⊎◌, refl, arith, inl, inr, length, take, Bool-cases,
  ◌==◌,
}
use fruitchip.Modchip.{cmd_prefix}
use fruitchip.Board.{Board}
use fruitchip.Hal.{Hal}
use fruitchip.BootRom.Defs.{Handler, Chip}
use fruitchip.BootRom.Write.Kv.{answer_kv_get, answer_kv_set}
use fruitchip.BootRom.Write.Sector.{commit_sector, commit_erase}
use fruitchip.BootRom.Write.Idle.{
  call_handler, write_byte, write_bytes, group0_handler, group1_handler,
}

-- How far the counter can be when a handler is called.
abbrev pub CountOf : Handler → ℕ → Type 0
CountOf Handler.idle n = Unit {0}
CountOf Handler.cmd n = n ≡ 0
CountOf Handler.cmd_group0 n = n ≡ 1
CountOf Handler.cmd_group1 n = n ≡ 1
CountOf Handler.write_flash_sector_end n = (21 ≤ n) × (n ≤ 4116)
CountOf _ n = (2 ≤ n) × (n ≤ 22)

abbrev pub InSync : Chip → Type 0
InSync s = CountOf s.write_handler s.cmd_byte_counter

module _ (b : Board) (hal : Hal) where
  step-InSync :
      (h : Handler) (s : Chip) (w : ℕ)
      → CountOf h s.cmd_byte_counter
      → h ≡ s.write_handler
      → h ≢ Handler.idle
      → let t = (call_handler b hal h s w).0 in
        (t.write_handler ≡ Handler.idle)
        ⊎ (InSync t × (t.cmd_byte_counter ≡ s.cmd_byte_counter + 1))
  unfolding call_handler answer_kv_get answer_kv_set commit_sector commit_erase group0_handler
      group1_handler
  step-InSync Handler.idle s w n e ne = absurd (ne refl)
  step-InSync Handler.cmd s w n e ne = ground arith
  step-InSync Handler.kv_set s w n e ne = ground arith
  step-InSync _ s w n e ne = ground arith

Handler-discrete : Discrete Handler
Handler-discrete = hlevel

count_bound : (h : Handler) (n : ℕ) → CountOf h n → h ≢ Handler.idle → n ≤ 4116
count_bound Handler.idle n c ne = absurd (ne refl)
count_bound Handler.cmd n c ne = omega arith
count_bound _ n c ne = omega arith

module _ (b : Board) (hal : Hal) where
  -- Among the first bytes there is one after which the chip is idle, the counter having counted the
  -- bytes before it.
  abbrev pub Returns : Chip → List ℕ → Type 0
  Returns s ws =
      (k : ℕ) × (k + s.cmd_byte_counter ≤ 4117)
      × ((write_bytes b hal s (take k ws)).0.write_handler ≡ Handler.idle)

  -- Whatever bytes follow, the chip comes back to the idle handler: from a state whose counter suits
  -- its handler, after at most `4117 - counter` bytes it waits for the next command.
  pub InSync-Returns :
      (s : Chip) (ws : List ℕ)
      → InSync s
      → s.write_handler ≢ Handler.idle
      → 4117 ≤ s.cmd_byte_counter + length ws
      → Returns s ws
  unfolding write_bytes write_byte
  InSync-Returns s [] sync busy long =
      absurd (omega (arith, count_bound s.write_handler s.cmd_byte_counter sync busy))
  InSync-Returns s (w ∷ ws) sync busy long =
      elim (step-InSync b hal s.write_handler s w sync refl busy) [
        | inl e ↦ (1, bound, e)
        | inr (still, next) ↦
            elim (Handler-discrete (write_byte b hal s w).0.write_handler Handler.idle) [
              | yes e ↦ (1, bound, e)
              | no ne ↦
                  let (k, near, back) =
                    InSync-Returns (write_byte b hal s w).0 ws still ne (omega arith) in
                  (suc k, omega arith, back)
            ]
      ]
    where
      bound : 1 + s.cmd_byte_counter ≤ 4117
      bound = omega (arith, count_bound s.write_handler s.cmd_byte_counter sync busy)

  idle-InSync : (s : Chip) → s.write_handler ≡ Handler.idle → InSync s
  idle-InSync s e = rw e tt

  from_idle-InSync :
      (h : Handler) (s : Chip) (w : ℕ)
      → h ≡ Handler.idle
      → s.write_handler ≡ Handler.idle
      → InSync (call_handler b hal h s w).0
  unfolding call_handler
  from_idle-InSync h s w here e = rw here (elim (Bool-cases (w == cmd_prefix)) [
    | inl starts ↦ rw starts refl
    | inr other ↦ rw (other, e) tt
  ])

  write_byte-InSync : (s : Chip) (w : ℕ) → InSync s → InSync (write_byte b hal s w).0
  unfolding write_byte
  write_byte-InSync s w sync = elim (Handler-discrete s.write_handler Handler.idle) [
    | yes e ↦ from_idle-InSync s.write_handler s w e e
    | no ne ↦ elim (step-InSync b hal s.write_handler s w sync refl ne) [
      | inl e ↦ idle-InSync (write_byte b hal s w).0 e
      | inr (still, next) ↦ still
    ]
  ]

  -- Whatever bytes are written, the counter goes on suiting the handler.
  pub write_bytes-InSync : (s : Chip) (ws : List ℕ) → InSync s → InSync (write_bytes b hal s ws).0
  unfolding write_bytes
  write_bytes-InSync s [] sync = sync
  write_bytes-InSync s (w ∷ ws) sync =
      write_bytes-InSync (write_byte b hal s w).0 ws (write_byte-InSync s w sync)
