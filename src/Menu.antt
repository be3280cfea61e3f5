-- ===== src/Menu.antt =====
-- fruitchip-menu: its lists, and what it does with an update file.
pub mod WideText
pub mod Navigation
pub mod AppsList
pub mod Checking
pub mod Writing
pub mod State
pub mod BootScene
pub mod SettingsScene
pub mod OptionsScene
pub mod PinConfig
