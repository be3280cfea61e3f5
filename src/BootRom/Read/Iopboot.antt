-- ===== src/BootRom/Read/Iopboot.antt =====
-- The hook of the I/O processor's boot code, which patch_control.c keeps disabled.
use fruitchip.Common.{ℕ, Bool, true, false, List, [], ◌∷◌, ◌++◌, ◌≡◌, arith, All}
use fruitchip.Board.{Board}
use fruitchip.BootRom.Defs.{Call, Source, set_data, start_data_without_status_code}
use fruitchip.BootRom.Read.{Reader, read_all, read_byte}

-- A call that puts the image for the I/O processor in.
abbrev pub is_iop_call : Call → Bool
is_iop_call (set_data Source.iop_stage1 n) = true
is_iop_call (start_data_without_status_code false) = true
is_iop_call _ = false

abbrev pub NoIop : List Call → Type 0
NoIop = All (λ c. is_iop_call c ≡ false)

NoIop-append : (xs ys : List Call) → NoIop xs → NoIop ys → NoIop (xs ++ ys)
NoIop-append [] ys h k = k
NoIop-append (x ∷ xs) ys h k = (h.0, NoIop-append xs ys h.1 k)

module _ (b : Board) where
  read_byte-NoIop :
      (s : Reader) (r : ℕ)
      → s.disable_next_iopboot_hook ≡ true
      → let (t, calls) = read_byte b s r in NoIop calls × (t.disable_next_iopboot_hook ≡ true)
  unfolding read_byte
  read_byte-NoIop s r h = ground arith

  -- While its hook is disabled, no bytes that the console reads make the chip choose or start the
  -- image for the I/O processor, and the hook stays disabled.
  pub read_all-NoIop :
      (s : Reader) (rs : List ℕ)
      → s.disable_next_iopboot_hook ≡ true
      → let (t, calls) = read_all b s rs in NoIop calls × (t.disable_next_iopboot_hook ≡ true)
  unfolding read_all
  read_all-NoIop s [] h = (tt, h)
  read_all-NoIop s (r ∷ rs) h =
      let one = read_byte-NoIop s r h in
      let rest = read_all-NoIop (read_byte b s r).0 rs one.1 in
      (NoIop-append (read_byte b s r).1 (read_all b (read_byte b s r).0 rs).1 one.0 rest.0, rest.1)
