-- ===== src/Tests.antt =====
-- The theorems applied on the simulated machine.
mod Erase
mod Flash
mod Settings
mod Store
mod Invariants
mod Read
mod Bootloader
pub mod Machine
mod Host
pub mod Link
mod Files
mod Menu
mod Apps
mod Loader
mod Scenes
mod Pins
