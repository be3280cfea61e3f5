-- ===== src/Tests/Host.antt =====
-- The loops of the console on a bus that plays back words.
use fruitchip.Common.{ℕ, true, List, [], ◌∷◌, ◌≡◌, refl, arith, some}
use fruitchip.Modchip.{result_ok, result_busy}
use fruitchip.Host.Bus.{Bus, wait_while_busy}
use fruitchip.Host.Bus.Retry.{Busy, wait_while_busy-Busy}

abbrev next : List ℕ → ℕ × List ℕ
next [] = (0, [])
next (x ∷ xs) = (x, xs)

abbrev playback : Bus (List ℕ)
playback = record { poke_u8 = λ w s. s; peek_u8 = next; peek_u32 = next }

wait_while_busy-Busy_example :
    wait_while_busy playback 5 (result_busy ∷ result_busy ∷ result_ok ∷ []) ≡ (some true, [])
wait_while_busy-Busy_example =
    wait_while_busy-Busy playback 2 5 (result_busy ∷ result_busy ∷ result_ok ∷ []) result_ok []
      (Busy.again 1 _ _ _ refl
        (Busy.again 0 _ _ _ refl (Busy.done (result_ok ∷ []) (λ e. absurd (ground (arith, e))))))
      (omega arith)
