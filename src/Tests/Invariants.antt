-- ===== src/Tests/Invariants.antt =====
-- The lock and the byte counter on the simulated machine.
use fruitchip.Common.{ℕ, List, ◌≡◌, ◌⊎◌, true, refl, arith, replicate, length, length-replicate}
use fruitchip.Host.Requests.{settings_set_request}
use fruitchip.BootRom.Defs.{Handler, Chip}
use fruitchip.BootRom.Write.Idle.{write_bytes}
use fruitchip.BootRom.Invariants.Lock.{SameOutsideSettings, Unlocks, locked-write_bytes}
use fruitchip.BootRom.Invariants.Sync.{Returns, InSync-Returns}
use fruitchip.Tests.Machine.{sim, sim-StoreLaws, tiny, powered_on}

-- A setting that changes: the store is written while the lock is closed.
locked-write_bytes_example :
    let t = (write_bytes tiny sim powered_on (settings_set_request 2 5)).0 in
    (SameOutsideSettings sim powered_on.memory t.memory × (t.flash.flash_write_lock ≡ true))
    ⊎ Unlocks tiny sim sim-StoreLaws powered_on (settings_set_request 2 5)
locked-write_bytes_example =
    locked-write_bytes tiny sim sim-StoreLaws powered_on (settings_set_request 2 5) refl

-- A chip that has taken the first byte of a command.
abbrev prefixed : Chip
prefixed = record powered_on { write_handler = Handler.cmd }

noise_of : ℕ → List ℕ
noise_of n = replicate n 0

noise : List ℕ
unfolding noise_of
noise = noise_of 4117

length-noise : length noise ≡ 4117
unfolding noise
length-noise = length-replicate {A = ℕ} 4117 0

InSync-Returns_example : Returns tiny sim prefixed noise
InSync-Returns_example =
    InSync-Returns tiny sim prefixed noise refl (λ e. absurd (ground (arith, e)))
      (omega (arith, length-noise))
