-- ===== src/BootRom/Commands.antt =====
-- What whole commands do, byte by byte from the idle handler.
pub mod Start
pub mod Kv
pub mod Settings
pub mod Sector
pub mod Locate
pub mod Memory
pub mod EraseSector
pub mod Flash
pub mod Reads
pub mod WriteSector
