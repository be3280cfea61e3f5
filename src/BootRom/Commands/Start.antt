-- ===== src/BootRom/Commands/Start.antt =====
-- The first bytes of a command: from the idle handler to the handler of the command.
use mathlib.Core.List.{append-nil, append_assoc}
use fruitchip.Common.{ℕ, List, [], ◌∷◌, ◌++◌, ◌≡◌, refl, sym, ap, ◌∙◌}
use fruitchip.Board.{Board}
use fruitchip.Hal.{Hal}
use fruitchip.BootRom.Defs.{Call, Handler, Chip, Effect}
use fruitchip.BootRom.Write.Idle.{
  write_byte, write_bytes, group0_handler, handle_write_idle, handle_write_cmd,
  handle_write_cmd_group0, call_handler,
}

module _ (b : Board) (hal : Hal) where
  -- The state in which the handler of a command is called for byte `n + 1`.
  abbrev pub at_byte : ℕ → Handler → Chip → Chip
  at_byte n handler s = record s { cmd_byte_counter = n; write_handler = handler }

  pub write_bytes-group0 :
      (s : Chip) (code : ℕ) (ws : List ℕ)
      → s.write_handler ≡ Handler.idle
      → write_bytes b hal s (0xcf ∷ 0x0c ∷ code ∷ ws)
        ≡ write_bytes b hal (at_byte 2 (group0_handler code) s) ws
  unfolding write_bytes handle_write_idle handle_write_cmd handle_write_cmd_group0
  write_bytes-group0 s code ws idle = rw (idle, call_handler) refl

  -- The last byte of a sequence adds nothing to what its handler does.
  pub write_bytes_last : (s : Chip) (w : ℕ) → write_bytes b hal s (w ∷ []) ≡ write_byte b hal s w
  unfolding write_bytes
  write_bytes_last s w = rw append-nil refl

  -- A byte that makes no call only changes the state.
  pub write_bytes_wait :
      (s t : Chip) (w : ℕ) (ws : List ℕ)
      → write_byte b hal s w ≡ (t, [])
      → write_bytes b hal s (w ∷ ws) ≡ write_bytes b hal t ws
  unfolding write_bytes
  write_bytes_wait s t w ws e = ap after e
    where
      after : Effect → Effect
      after r = let (u, more) = write_bytes b hal r.0 ws in (u, r.1 ++ more)

  -- What a first part of the bytes does, then what the rest does.
  pub write_bytes-append :
      (s : Chip) (vs ws : List ℕ)
      → write_bytes b hal s (vs ++ ws) ≡ (
          let (t, calls) = write_bytes b hal s vs in
          let (u, more) = write_bytes b hal t ws in (u, calls ++ more))
  unfolding write_bytes
  write_bytes-append s [] ws = refl
  write_bytes-append s (v ∷ vs) ws =
      ap after (write_bytes-append (write_byte b hal s v).0 vs ws)
      ∙ ap
          (λ calls.
            ((write_bytes b hal (write_bytes b hal (write_byte b hal s v).0 vs).0 ws).0, calls))
          (sym (
            append_assoc (write_byte b hal s v).1 (write_bytes b hal (write_byte b hal s v).0 vs).1
              _))
    where
      after : Effect → Effect
      after r = (r.0, (write_byte b hal s v).1 ++ r.1)

  -- The last byte after bytes that make no call.
  pub write_bytes_quiet :
      (ws : List ℕ) (w : ℕ) (s : Chip)
      → (write_bytes b hal s ws).1 ≡ []
      → write_bytes b hal s (ws ++ w ∷ []) ≡ write_byte b hal (write_bytes b hal s ws).0 w
  write_bytes_quiet ws w s e =
      write_bytes-append s ws (w ∷ [])
      ∙ ap
          (λ (calls : List Call). (
            (write_bytes b hal (write_bytes b hal s ws).0 (w ∷ [])).0,
            calls ++ (write_bytes b hal (write_bytes b hal s ws).0 (w ∷ [])).1,
          ))
          e
      ∙ write_bytes_last (write_bytes b hal s ws).0 w
