-- ===== src/Menu/SettingsScene/Delay.antt =====
-- The delay stays between a second and a minute and a half.
use fruitchip.Common.{ℕ, ◌^◌, ◌<◌, ◌≤◌, arith}
use fruitchip.Menu.SettingsScene.{add_delay, subtract_delay, autoboot_delay_min, autoboot_delay_max}

-- From every delay that the modchip can hold, a change of it by at most ten ends in the range.
pub add_delay-le :
    (by sec : ℕ)
    → 0 < by
    → by ≤ 10
    → sec < 2 ^ 16
    → (autoboot_delay_min ≤ add_delay by sec) × (add_delay by sec ≤ autoboot_delay_max)
unfolding add_delay
add_delay-le by sec pos small fits = (ground arith, ground arith)

pub subtract_delay-le :
    (by sec : ℕ)
    → (autoboot_delay_min ≤ subtract_delay by sec) × (subtract_delay by sec ≤ autoboot_delay_max)
unfolding subtract_delay
subtract_delay-le by sec = (ground arith, ground arith)
