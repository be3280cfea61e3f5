-- ===== src/Host/Version.antt =====
-- fruitchip-include/modchip/version.h and config.h.
use fruitchip.Common.{ℕ, Bool, false, not, List, ◌==◌, if◌then◌else◌, bytes32}
use fruitchip.Crc32.{crc32}
use fruitchip.Modchip.{cmd_fw_git_rev, cmd_bootloader_git_rev, result_ok}
use fruitchip.Host.Requests.{modchip_poke_u32, pin_config_request}
use fruitchip.Host.Bus.{Bus, M, ◌>>=◌, ◌>>◌, return, poke, modchip_peek_n, with_retry}

module _ {S : Type 0} (bus : Bus S) where
  peek_git_rev : M S (Bool × List ℕ)
  unfolding crc32 modchip_peek_n
  peek_git_rev = do
    dst ← modchip_peek_n bus 8
    crc_expected ← bus.peek_u32
    return (crc_expected == crc32 dst, dst)

  -- The body that `modchip_fw_git_rev` and `modchip_bootloader_git_rev` share.
  unfoldable pub git_rev : ℕ → List ℕ → M S (Bool × List ℕ)
  unfolding peek_git_rev
  git_rev cmd old = do
    poke bus (modchip_poke_u32 cmd)
    r ← bus.peek_u32
    if r == result_ok then peek_git_rev else return (false, old)

  unfoldable pub modchip_fw_git_rev : List ℕ → M S (Bool × List ℕ)
  unfolding git_rev
  modchip_fw_git_rev dst = git_rev cmd_fw_git_rev dst

  unfoldable pub modchip_fw_git_rev_with_retry : Bool × List ℕ → ℕ → M S (Bool × List ℕ)
  unfolding modchip_fw_git_rev with_retry
  modchip_fw_git_rev_with_retry ret attempts =
      with_retry (λ r. r.0) (λ old. modchip_fw_git_rev old.1) ret attempts

  unfoldable pub modchip_bootloader_git_rev : List ℕ → M S (Bool × List ℕ)
  unfolding git_rev
  modchip_bootloader_git_rev dst = git_rev cmd_bootloader_git_rev dst

  unfoldable pub modchip_bootloader_git_rev_with_retry : Bool × List ℕ → ℕ → M S (Bool × List ℕ)
  unfolding modchip_bootloader_git_rev with_retry
  modchip_bootloader_git_rev_with_retry ret attempts =
      with_retry (λ r. r.0) (λ old. modchip_bootloader_git_rev old.1) ret attempts

  peek_mask : M S ℕ
  unfolding crc32
  peek_mask = do
    mask ← bus.peek_u32
    crc_expected ← bus.peek_u32
    return (if crc_expected == crc32 (bytes32 mask) then mask else 0)

  unfoldable pub modchip_pin_config : ℕ → M S ℕ
  unfolding peek_mask
  modchip_pin_config pin = do
    poke bus (pin_config_request pin)
    r ← bus.peek_u32
    if r == result_ok then peek_mask else return 0

  unfoldable pub modchip_pin_config_with_retry : ℕ → ℕ → ℕ → M S ℕ
  unfolding modchip_pin_config with_retry
  modchip_pin_config_with_retry pin ret attempts =
      with_retry (λ mask. not (mask == 0)) (λ old. modchip_pin_config pin) ret attempts
