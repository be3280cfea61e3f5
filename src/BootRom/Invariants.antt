-- ===== src/BootRom/Invariants.antt =====
-- What holds of the chip whatever bytes are written.
pub mod Lock
pub mod Sync
