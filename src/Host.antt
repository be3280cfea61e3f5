-- ===== src/Host.antt =====
-- fruitchip-include/modchip: the bytes that the console pokes for each command.
pub mod Requests
pub mod Bus
pub mod Settings
pub mod Apps
pub mod Flash
pub mod Version
