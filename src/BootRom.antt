-- ===== src/BootRom.antt =====
-- fruitchip-fw/src/boot_rom: what the modchip does with each byte that it sees on the bus of the
-- boot ROM.
pub mod Commands
pub mod Defs
pub mod Invariants
pub mod Read
pub mod Write
