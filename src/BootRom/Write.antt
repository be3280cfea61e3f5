-- ===== src/BootRom/Write.antt =====
-- The write handlers of fruitchip-fw/src/boot_rom/write, and the handler variable through which
-- the main loop calls them.
pub mod Step
pub mod App
pub mod Configuration
pub mod Flash
pub mod Idle
pub mod Sector
pub mod Kv
pub mod Payload
pub mod Simple
