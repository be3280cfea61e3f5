-- ===== src/Link/Pokes.antt =====
-- What the console's stores and loads do to the device.
use fruitchip.Common.{
  ℕ, zero, suc, List, [], ◌∷◌, ◌++◌, ◌^◌, ◌<◌, ◌≡◌, ◌≢◌, refl, arith, ◌∙◌, ap, sym, bytes32, ◌==◌,
  some,
}
use fruitchip.Common.Words.{word32-byte_of}
use fruitchip.Modchip.{result_busy, result_ok}
use fruitchip.Board.{Board}
use fruitchip.Hal.{Hal}
use fruitchip.Host.Bus.{poke, wait_while_busy}
use fruitchip.BootRom.Defs.{Call, Chip, Effect}
use fruitchip.BootRom.Write.Idle.{write_byte, write_bytes}
use fruitchip.BootRom.Commands.Start.{write_bytes_quiet}
use fruitchip.Link.{World, Device, bus, device_of, quiet, busy_words}

append_front : (xs ys : List Call) → xs ++ ys ≡ [] → xs ≡ []
append_front [] ys e = refl
append_front (x ∷ xs) ys e = absurd (ground (arith, e))

append_back : (xs ys : List Call) → xs ++ ys ≡ [] → ys ≡ []
append_back [] ys e = e
append_back (x ∷ xs) ys e = absurd (ground (arith, e))

module _ (b : Board) (hal : Hal) (world : World) where
  after_call : (e : Effect) → e.1 ≡ [] → device_of b hal world e ≡ quiet e.0
  after_call e none_made = rw none_made refl

  -- Bytes that make no call only change the chip.
  poke-quiet :
      (ws : List ℕ) (s : Chip)
      → (write_bytes b hal s ws).1 ≡ []
      → (poke (bus b hal world) ws (quiet s)).1 ≡ quiet (write_bytes b hal s ws).0
  unfolding write_bytes
  poke-quiet [] s e = refl
  poke-quiet (w ∷ ws) s e =
      ap (λ d. (poke (bus b hal world) ws d).1)
        (after_call (write_byte b hal s w) (append_front (write_byte b hal s w).1 _ e))
      ∙ poke-quiet ws (write_byte b hal s w).0 (append_back (write_byte b hal s w).1 _ e)

  poke-append :
      (vs ws : List ℕ) (d : Device)
      → (poke (bus b hal world) (vs ++ ws) d).1
        ≡ (poke (bus b hal world) ws (poke (bus b hal world) vs d).1).1
  poke-append [] ws d = refl
  poke-append (v ∷ vs) ws d = poke-append vs ws ((bus b hal world).poke_u8 v d)

  -- A request that makes no call before its last byte.
  pub poke_request :
      (ws : List ℕ) (w : ℕ) (s : Chip)
      → (write_bytes b hal s ws).1 ≡ []
      → (poke (bus b hal world) (ws ++ w ∷ []) (quiet s)).1
        ≡ device_of b hal world (write_bytes b hal s (ws ++ w ∷ []))
  poke_request ws w s e =
      poke-append ws (w ∷ []) (quiet s)
      ∙ ap (λ d. (bus b hal world).poke_u8 w d) (poke-quiet ws s e)
      ∙ ap (device_of b hal world) (sym (write_bytes_quiet b hal ws w s e))

  -- A word that is sent is loaded.
  pub peek_word :
      (v : ℕ) (rest : List ℕ) (c : Chip)
      → v < 2 ^ 32
      → (bus b hal world).peek_u32 (record { chip = c; out = bytes32 v ++ rest })
        ≡ (v, record { chip = c; out = rest })
  peek_word v rest c h = ap (λ (n : ℕ). (n, record { chip = c; out = rest })) (word32-byte_of v h)

  pub busy_word_ends :
      (n : ℕ) (v : ℕ) (rest : List ℕ) (c : Chip)
      → v < 2 ^ 32
      → v ≢ result_busy
      → (fuel : ℕ) → n < fuel
      → wait_while_busy
          (bus b hal world)
          fuel
          (record { chip = c; out = busy_words n ++ (bytes32 v ++ rest) })
        ≡ (some (v == result_ok), record { chip = c; out = rest })
  unfolding wait_while_busy
  busy_word_ends n v rest c h ne zero lt = absurd (omega arith)
  busy_word_ends zero v rest c h ne (suc fuel) lt = rw (word32-byte_of v h) (ground (arith, ne))
  busy_word_ends (suc n) v rest c h ne (suc fuel) lt =
      busy_word_ends n v rest c h ne fuel (omega arith)
