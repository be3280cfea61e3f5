-- ===== src/Host/Apps.antt =====
-- fruitchip-include/modchip/apps.h: reading the third stage and the entries of the apps partition.
use fruitchip.Common.{ℕ, Bool, true, false, List, ◌==◌, if◌then◌else◌}
use fruitchip.Crc32.{crc32}
use fruitchip.Modchip.{result_ok}
use fruitchip.Host.Requests.{stage3_read_request, apps_read_request}
use fruitchip.Host.Bus.{
  Bus, M, ◌>>=◌, ◌>>◌, return, poke, modchip_peek_n, with_retry, boot_rom_addr_value,
}

-- `MODCHIP_APPS_SIZE_OFFSET`, `MODCHIP_APPS_ATTR_OFFSET`, `MODCHIP_APPS_ATTR_SIZE`,
-- `MODCHIP_APPS_DATA_OFFSET`.
abbrev pub size_offset : ℕ
size_offset = 0

abbrev pub attr_offset : ℕ
attr_offset = 4

abbrev pub attr_size : ℕ
attr_size = 4

abbrev pub data_offset : ℕ
data_offset = 8

-- The flags of an attribute word.
abbrev pub attr_disable_next_osdsys_hook : ℕ
attr_disable_next_osdsys_hook = 1

abbrev pub attr_osdsys : ℕ
attr_osdsys = 2

-- 0, or one of the negative numbers `-ENODEV`, `-EINVAL` and `-EIO`.
pub data Code : Type 0 where
  zero_ok nodev inval io : Code

abbrev pub is_zero : Code → Bool
is_zero Code.zero_ok = true
is_zero _ = false

module _ {S : Type 0} (bus : Bus S) where
  -- The bytes that are stored at `dst`, and the check of their checksum if there is one.
  unfoldable pub peek_checked_bytes : ℕ → Bool → M S (Code × List ℕ)
  unfolding crc32 modchip_peek_n
  peek_checked_bytes size false = do dst ← modchip_peek_n bus size; return (Code.zero_ok, dst)
  peek_checked_bytes size true = do
    dst ← modchip_peek_n bus size
    crc_expected ← bus.peek_u32
    return ((if crc_expected == crc32 dst then Code.zero_ok else Code.io), dst)

  -- What follows the request; `old` is what is at `dst` before.
  unfoldable pub read_answer : ℕ → Bool → List ℕ → M S (Code × List ℕ)
  unfolding peek_checked_bytes
  read_answer size with_crc old = do
    r ← bus.peek_u32
    if r == boot_rom_addr_value
        then return (Code.nodev, old)
        else if r == result_ok
        then peek_checked_bytes size with_crc
        else return (Code.inval, old)

  unfoldable pub modchip_stage3_read : ℕ → ℕ → Bool → List ℕ → M S (Code × List ℕ)
  unfolding read_answer
  modchip_stage3_read offset size with_crc dst = do
    poke bus (stage3_read_request offset size with_crc)
    read_answer size with_crc dst

  unfoldable pub modchip_stage3_read_with_retry :
      ℕ → ℕ → Bool → Code × List ℕ → ℕ → M S (Code × List ℕ)
  unfolding modchip_stage3_read with_retry
  modchip_stage3_read_with_retry offset size with_crc ret attempts =
      with_retry (λ r. is_zero r.0) (λ old. modchip_stage3_read offset size with_crc old.1) ret
        attempts

  unfoldable pub modchip_apps_read : ℕ → ℕ → ℕ → Bool → List ℕ → M S (Code × List ℕ)
  unfolding read_answer
  modchip_apps_read offset size app_idx with_crc dst = do
    poke bus (apps_read_request offset size app_idx with_crc)
    read_answer size with_crc dst

  unfoldable pub modchip_apps_read_with_retry :
      ℕ → ℕ → ℕ → Bool → Code × List ℕ → ℕ → M S (Code × List ℕ)
  unfolding modchip_apps_read with_retry
  modchip_apps_read_with_retry offset size app_idx with_crc ret attempts =
      with_retry (λ r. is_zero r.0) (λ old. modchip_apps_read offset size app_idx with_crc old.1)
        ret attempts
