-- ===== src/Tests/Erase.antt =====
-- An erase on the simulated machine.
use fruitchip.BootRom.Defs.{Chip}
use fruitchip.Tests.Machine.{unlocked}

-- The flash is full of zeros.
abbrev full : Chip
full = record unlocked { memory = λ a. 0 }
