-- ===== src/Loader.antt =====
-- fruitchip-loader: what runs on the console before the menu.
pub mod Elf
pub mod Stage1
pub mod Stage2
