-- ===== src/Tests/Link.antt =====
-- The console and the simulated modchip on one bus.
use fruitchip.Common.{ℕ, true, List, [], ◌∷◌, ◌+◌, ◌-◌, ◌≡◌, refl, arith, some, get_or}
use fruitchip.Crc32.{crc32}
use fruitchip.Board.{apps_partition_offset}
use fruitchip.Hal.{Memory}
use fruitchip.Apps.{
  apps_partition_detect, apps_partition_entries_count, apps_partition_entry_addr,
  apps_partition_entry_length,
}
use fruitchip.Host.Requests.{settings_set_request, apps_read_request}
use fruitchip.Host.Settings.{modchip_settings_get, modchip_settings_set}
use fruitchip.Host.Apps.{Code, modchip_apps_read}
use fruitchip.BootRom.Defs.{Chip}
use fruitchip.BootRom.Commands.Settings.{IsValid}
use fruitchip.BootRom.Write.Idle.{write_bytes}
use fruitchip.Link.{World, bus, quiet}
use fruitchip.Link.Settings.{ComputesCrc, modchip_settings_set-accepted}
use fruitchip.Link.Reads.{modchip_apps_read-answer}
use fruitchip.Link.RoundTrip.{modchip_settings_get-modchip_settings_set}
use fruitchip.Tests.Machine.{xip, sim, tiny, powered_on}

-- The modchip is busy for two words.
abbrev pub world : World
world = record { image = λ src n. []; busy = 2 }

pub sim-ComputesCrc : ComputesCrc sim
unfolding crc32
sim-ComputesCrc xs = refl

powered_on-IsValid : IsValid powered_on.settings
powered_on-IsValid = record {
  delay_fits = omega arith;
  item_fits = omega arith;
  options_fit = omega arith;
}

modchip_settings_set-accepted_example :
    modchip_settings_set (bus tiny sim world) 3 1 0x1234E (quiet powered_on)
    ≡ (some true, quiet (write_bytes tiny sim powered_on (settings_set_request 1 0x1234E)).0)
modchip_settings_set-accepted_example =
    modchip_settings_set-accepted tiny sim world powered_on refl 3 1 0x1234E (omega arith)
      (omega arith) (omega arith)

modchip_settings_get-modchip_settings_set_example :
    let (r, d) = modchip_settings_set (bus tiny sim world) 3 1 0x1234E (quiet powered_on) in
    (r ≡ some true) × ((modchip_settings_get (bus tiny sim world) 1 7 d).0 ≡ (true, 0x234E))
modchip_settings_get-modchip_settings_set_example =
    modchip_settings_get-modchip_settings_set tiny sim world sim-ComputesCrc powered_on refl
      powered_on-IsValid 3 1 0x1234E 7 (omega arith) (omega arith) (omega arith)

-- A table with one entry: its size word, its attribute word and four bytes of data.
abbrev table : List ℕ
table =
    b'A' ∷ b'P' ∷ b'P' ∷ b'S' ∷ 0xB4 ∷ 0x0A ∷ 0xB8 ∷ 0x4F ∷ 2 ∷ 0 ∷ 0 ∷ 0 ∷ 1 ∷ 0 ∷ 0 ∷ 0 ∷ 0x18 ∷ 0
    ∷ 0 ∷ 0 ∷ 12 ∷ 0 ∷ 0 ∷ 0 ∷ 4 ∷ 0 ∷ 0 ∷ 0 ∷ 2 ∷ 0 ∷ 0 ∷ 0 ∷ 0xde ∷ 0xad ∷ 0xbe ∷ 0xef ∷ []

abbrev pub with_app : Memory
with_app a = get_or table (a - (xip + apps_partition_offset)) 0xff

abbrev pub stocked : Chip
stocked = record powered_on { memory = with_app }

pub stocked-detect : apps_partition_detect sim with_app ≡ true
unfolding apps_partition_detect
stocked-detect = refl

pub stocked-count : apps_partition_entries_count sim with_app ≡ 1
unfolding apps_partition_entries_count
stocked-count = refl

pub stocked-length : apps_partition_entry_length sim with_app 0 ≡ 12
unfolding apps_partition_entry_length
stocked-length = refl

-- The attribute word and the data.
modchip_apps_read-answer_example :
    modchip_apps_read (bus tiny sim world) 4 8 0 true [] (quiet stocked) ≡ (
      (Code.zero_ok, 2 ∷ 0 ∷ 0 ∷ 0 ∷ 0xde ∷ 0xad ∷ 0xbe ∷ 0xef ∷ []),
      quiet (write_bytes tiny sim stocked (apps_read_request 4 8 0 true)).0,
    )
unfolding apps_partition_entry_addr
modchip_apps_read-answer_example =
    modchip_apps_read-answer tiny sim world sim-ComputesCrc stocked refl 4 8 0 true [] (omega arith)
      (omega arith) (omega arith) stocked-detect (omega (arith, stocked-length))
      (omega (arith, stocked-count)) (ground arith)
