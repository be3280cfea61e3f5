-- ===== src/Host/Bus.antt =====
-- fruitchip-include/modchip/io.h over an interface of the console's bus: how a request is poked and
-- an answer peeked, how a busy modchip is waited for, and how a request is tried again.
pub mod Retry
use fruitchip.Common.{
  ℕ, zero, suc, Bool, true, false, List, [], ◌∷◌, ◌++◌, ◌+◌, ◌/◌, ◌%◌, ◌==◌, if◌then◌else◌, Option,
  none, some, bytes32,
}
use fruitchip.Modchip.{result_ok, result_busy}
use fruitchip.Host.Requests.{modchip_poke_u32}

-- The stores of a byte to `BOOT_ROM_ADDR`, and the loads of a byte and of a word from it.
pub record Bus (S : Type 0) : Type 0 where
  pub poke_u8 : ℕ → S → S
  pub peek_u8 : S → ℕ × S
  pub peek_u32 : S → ℕ × S

-- What a function of the console returns, and the state in which it leaves the bus.
abbrev pub M : Type 0 → Type 0 → Type 0
M S A = S → A × S

infixl 5 ◌>>=◌ ◌>>◌
abbrev pub ◌>>=◌ : {S A B : Type 0} → M S A → (A → M S B) → M S B
◌>>=◌ m f s = let (a, t) = m s in f a t

abbrev pub ◌>>◌ : {S A B : Type 0} → M S A → M S B → M S B
◌>>◌ m k s = k (m s).1

abbrev pub return : {S A : Type 0} → A → M S A
return a s = (a, s)

-- `BOOT_ROM_ADDR_VALUE`, `MODCHIP_CMD_RETRIES`.
abbrev pub boot_rom_addr_value : ℕ
boot_rom_addr_value = 0

abbrev pub cmd_retries : ℕ
cmd_retries = 3

module _ {S : Type 0} (bus : Bus S) where
  -- A sequence of pokes.
  abbrev pub poke : List ℕ → M S (Unit {0})
  poke [] s = (tt, s)
  poke (x ∷ xs) s = poke xs (bus.poke_u8 x s)

  -- The two loops of `modchip_peek_n`, with the bytes in the order in which they are stored.
  unfoldable pub peek_words : ℕ → M S (List ℕ)
  peek_words zero = return []
  peek_words (suc n) = do w ← bus.peek_u32; rest ← peek_words n; return (bytes32 w ++ rest)

  unfoldable pub peek_bytes : ℕ → M S (List ℕ)
  peek_bytes zero = return []
  peek_bytes (suc n) = do b ← bus.peek_u8; rest ← peek_bytes n; return (b ∷ rest)

  unfoldable pub modchip_peek_n : ℕ → M S (List ℕ)
  unfolding peek_words peek_bytes
  modchip_peek_n size = do
    words ← peek_words (size / 4)
    bytes ← peek_bytes (size % 4)
    return (words ++ bytes)

  unfoldable pub modchip_cmd : ℕ → M S Bool
  modchip_cmd cmd = do poke (modchip_poke_u32 cmd); r ← bus.peek_u32; return (r == result_ok)

  -- The loop that peeks until the modchip is no longer busy. The source sets no bound: the model
  -- peeks at most `fuel` times, and `none` is a modchip that is still busy then.
  unfoldable pub wait_while_busy : ℕ → M S (Option Bool)
  wait_while_busy zero s = (none, s)
  wait_while_busy (suc fuel) s =
      let (r, t) = bus.peek_u32 s in
      let rest = wait_while_busy fuel t in
      if r == result_busy then rest else (some (r == result_ok), t)

-- The loop of a function `…_with_retry`: `ret` is what its variable, and the memory that it writes
-- through a pointer, hold before the first attempt; an attempt begins with what the one before left.
unfoldable pub with_retry : {S A : Type 0} → (A → Bool) → (A → M S A) → A → ℕ → M S A
with_retry is_done attempt ret zero s = (ret, s)
with_retry is_done attempt ret (suc attempts) s =
    let (r, t) = attempt ret s in
    let rest = with_retry is_done attempt r attempts t in if is_done r then (r, t) else rest

-- A try of a function that may stay busy: the loop goes on after an error, and stops at a success
-- and at a modchip that never answers.
abbrev pub is_settled : Option Bool → Bool
is_settled (Option.some false) = false
is_settled _ = true

unfoldable pub modchip_cmd_with_retry : {S : Type 0} → Bus S → ℕ → Bool → ℕ → M S Bool
unfolding modchip_cmd with_retry
modchip_cmd_with_retry bus cmd ret attempts =
    with_retry (λ b. b) (λ old. modchip_cmd bus cmd) ret attempts
