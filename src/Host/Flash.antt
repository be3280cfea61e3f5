-- ===== src/Host/Flash.antt =====
-- fruitchip-include/modchip/flash.h.
use fruitchip.Common.{ℕ, Bool, false, List, Option, ◌==◌, if◌then◌else◌}
use fruitchip.Crc32.{crc32}
use fruitchip.Modchip.{
  cmd_get_flash_sector_size, cmd_test_data_out_with_status_no_data_no_crc, result_ok,
}
use fruitchip.Host.Requests.{
  modchip_poke_u32, get_partition_size_request, set_write_lock_request, write_flash_sector_request,
  erase_flash_sector_request, reboot_request,
}
use fruitchip.Host.Bus.{Bus, M, ◌>>=◌, ◌>>◌, return, poke, wait_while_busy, with_retry, is_settled}
use fruitchip.Host.Settings.{peek_checked_word}

module _ {S : Type 0} (bus : Bus S) where
  unfoldable pub modchip_get_partition_size : ℕ → ℕ → M S (Bool × ℕ)
  unfolding peek_checked_word
  modchip_get_partition_size idx flash_size = do
    poke bus (get_partition_size_request idx)
    r ← bus.peek_u32
    if r == result_ok then peek_checked_word bus else return (false, flash_size)

  unfoldable pub modchip_get_partition_size_with_retry : ℕ → Bool × ℕ → ℕ → M S (Bool × ℕ)
  unfolding modchip_get_partition_size with_retry
  modchip_get_partition_size_with_retry idx ret attempts =
      with_retry (λ r. r.0) (λ old. modchip_get_partition_size idx old.1) ret attempts

  unfoldable pub modchip_get_flash_sector_size : ℕ → M S (Bool × ℕ)
  unfolding peek_checked_word
  modchip_get_flash_sector_size sector_size = do
    poke bus (modchip_poke_u32 cmd_get_flash_sector_size)
    r ← bus.peek_u32
    if r == result_ok then peek_checked_word bus else return (false, sector_size)

  unfoldable pub modchip_get_flash_sector_size_with_retry : Bool × ℕ → ℕ → M S (Bool × ℕ)
  unfolding modchip_get_flash_sector_size with_retry
  modchip_get_flash_sector_size_with_retry ret attempts =
      with_retry (λ r. r.0) (λ old. modchip_get_flash_sector_size old.1) ret attempts

  unfoldable pub modchip_set_write_lock : Bool → M S Bool
  modchip_set_write_lock lock = do
    poke bus (set_write_lock_request lock)
    r ← bus.peek_u32
    return (r == result_ok)

  unfoldable pub modchip_set_write_lock_with_retry : Bool → Bool → ℕ → M S Bool
  unfolding modchip_set_write_lock with_retry
  modchip_set_write_lock_with_retry lock ret attempts =
      with_retry (λ r. r) (λ old. modchip_set_write_lock lock) ret attempts

  -- The sector is given by its bytes, `sector_size` of them.
  unfoldable pub modchip_write_flash_sector : ℕ → ℕ → ℕ → List ℕ → M S (Option Bool)
  unfolding crc32 wait_while_busy
  modchip_write_flash_sector fuel partition_idx sector_idx sector = do
    poke bus (write_flash_sector_request partition_idx sector_idx (crc32 sector) sector)
    wait_while_busy bus fuel

  unfoldable pub modchip_erase_flash_sector : ℕ → ℕ → ℕ → ℕ → M S (Option Bool)
  unfolding wait_while_busy
  modchip_erase_flash_sector fuel partition_idx sector_idx sector_count = do
    poke bus (erase_flash_sector_request partition_idx sector_idx sector_count)
    wait_while_busy bus fuel

  unfoldable pub modchip_reboot : ℕ → M S Bool
  modchip_reboot mode = do poke bus (reboot_request mode); r ← bus.peek_u32; return (r == result_ok)

  unfoldable pub modchip_reboot_with_retry : ℕ → Bool → ℕ → M S Bool
  unfolding modchip_reboot with_retry
  modchip_reboot_with_retry mode ret attempts =
      with_retry (λ r. r) (λ old. modchip_reboot mode) ret attempts

  unfoldable pub modchip_write_flash_sector_with_retry :
      ℕ → ℕ → ℕ → List ℕ → Option Bool → ℕ → M S (Option Bool)
  unfolding modchip_write_flash_sector with_retry
  modchip_write_flash_sector_with_retry fuel partition_idx sector_idx sector ret attempts =
      with_retry is_settled (λ old. modchip_write_flash_sector fuel partition_idx sector_idx sector)
        ret attempts

  unfoldable pub modchip_erase_flash_sector_with_retry :
      ℕ → ℕ → ℕ → ℕ → Option Bool → ℕ → M S (Option Bool)
  unfolding modchip_erase_flash_sector with_retry
  modchip_erase_flash_sector_with_retry fuel partition_idx sector_idx sector_count ret attempts =
      with_retry is_settled
        (λ old. modchip_erase_flash_sector fuel partition_idx sector_idx sector_count) ret attempts

  unfoldable pub modchip_ping : M S Bool
  modchip_ping = do
    poke bus (modchip_poke_u32 cmd_test_data_out_with_status_no_data_no_crc)
    r ← bus.peek_u32
    return (r == result_ok)
