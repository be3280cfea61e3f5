-- ===== src/Loader/Stage2.antt =====
-- fruitchip-loader/ee/stage2/src/main.c: the console clears the memory of programs and loads the
-- third stage. What `_InitSys` does to the console is not modelled.
use fruitchip.Common.{ℕ, ◌-◌}
use fruitchip.Host.Bus.{Bus, M}
use fruitchip.Loader.Elf.{Ram, Loaded, clear_bytes, exec_ps2_from_modchip_stage3}

-- `USER_MEM_START_ADDR`, `USER_MEM_END_ADDR` and `USER_MEM_SIZE`.
abbrev pub user_mem_start_addr : ℕ
user_mem_start_addr = 0x100000

abbrev pub user_mem_end_addr : ℕ
user_mem_end_addr = 0x2000000

abbrev pub user_mem_size : ℕ
user_mem_size = user_mem_end_addr - user_mem_start_addr

-- A program that is not loaded ends in the panic of this stage.
abbrev pub start : {S : Type 0} → Bus S → Ram → M S Loaded
start bus ram = exec_ps2_from_modchip_stage3 bus (clear_bytes user_mem_start_addr user_mem_size ram)
