-- ===== src/Host/Settings.antt =====
-- fruitchip-include/modchip/settings.h. A pointer that a function writes through is a value that it
-- takes and returns.
use fruitchip.Common.{ℕ, Bool, false, Option, ◌==◌, if◌then◌else◌, bytes32}
use fruitchip.Crc32.{crc32}
use fruitchip.Modchip.{result_ok}
use fruitchip.Host.Requests.{settings_get_request, settings_set_request}
use fruitchip.Host.Bus.{Bus, M, ◌>>=◌, ◌>>◌, return, poke, wait_while_busy, with_retry, is_settled}

module _ {S : Type 0} (bus : Bus S) where
  -- A word and its checksum, as several functions peek them: the word is stored in any case.
  unfoldable pub peek_checked_word : M S (Bool × ℕ)
  unfolding crc32
  peek_checked_word = do
    value ← bus.peek_u32
    crc_expected ← bus.peek_u32
    return (crc_expected == crc32 (bytes32 value), value)

  unfoldable pub modchip_settings_get : ℕ → ℕ → M S (Bool × ℕ)
  unfolding peek_checked_word
  modchip_settings_get key value = do
    poke bus (settings_get_request key)
    r ← bus.peek_u32
    if r == result_ok then peek_checked_word else return (false, value)

  unfoldable pub modchip_settings_get_with_retry : ℕ → Bool × ℕ → ℕ → M S (Bool × ℕ)
  unfolding modchip_settings_get with_retry
  modchip_settings_get_with_retry key ret attempts =
      with_retry (λ r. r.0) (λ old. modchip_settings_get key old.1) ret attempts

  unfoldable pub modchip_settings_set : ℕ → ℕ → ℕ → M S (Option Bool)
  unfolding wait_while_busy
  modchip_settings_set fuel key value = do
    poke bus (settings_set_request key value)
    wait_while_busy bus fuel

  unfoldable pub modchip_settings_set_with_retry : ℕ → ℕ → ℕ → Option Bool → ℕ → M S (Option Bool)
  unfolding modchip_settings_set with_retry
  modchip_settings_set_with_retry fuel key value ret attempts =
      with_retry is_settled (λ old. modchip_settings_set fuel key value) ret attempts
