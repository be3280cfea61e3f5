-- ===== src/Host/Bus/Retry.antt =====
-- When the loops of the console end, and with what.
use fruitchip.Common.{
  ℕ, zero, suc, Bool, true, false, ◌<◌, ◌≤◌, ◌≡◌, ◌≢◌, inl, inr, refl, arith, ◌==◌, some,
  Bool-cases,
}
use fruitchip.Modchip.{result_ok, result_busy}
use fruitchip.Host.Bus.{Bus, M, with_retry, wait_while_busy}

-- The modchip answers busy a number of times and then with another word.
pub data Busy {S : Type 0} (bus : Bus S) : ℕ → S → ℕ → S → Type 0 where
  done :
      (s : S)
      → (bus.peek_u32 s).0 ≢ result_busy
      → Busy bus 0 s (bus.peek_u32 s).0 (bus.peek_u32 s).1
  again :
      (n : ℕ) (s : S) (r : ℕ) (t : S)
      → (bus.peek_u32 s).0 ≡ result_busy
      → Busy bus n (bus.peek_u32 s).1 r t
      → Busy bus (suc n) s r t

module _ {S : Type 0} (bus : Bus S) where
  pub wait_while_busy-Busy :
      (n fuel : ℕ) (s : S) (r : ℕ) (t : S)
      → Busy bus n s r t
      → n < fuel
      → wait_while_busy bus fuel s ≡ (some (r == result_ok), t)
  unfolding wait_while_busy
  wait_while_busy-Busy _ zero s r t b h = absurd (omega arith)
  wait_while_busy-Busy _ (suc fuel) _ _ _ (Busy.done s ne) h =
      elim (Bool-cases ((bus.peek_u32 s).0 == result_busy)) [
        | inl e ↦ absurd (ground (arith, ne, e))
        | inr e ↦ rw e refl
      ]
  wait_while_busy-Busy _ (suc fuel) _ _ _ (Busy.again n s r t e b) h =
      rw e (wait_while_busy-Busy n fuel (bus.peek_u32 s).1 r t b (omega arith))

-- The first attempt that is done is number `n`, and it ends with `a` in the state `t`.
pub data Attempts {S A : Type 0} (is_done : A → Bool) (attempt : A → M S A)
    : ℕ → A → S → A → S → Type 0 where
  first :
      (old : A) (s : S)
      → is_done (attempt old s).0 ≡ true
      → Attempts is_done attempt 1 old s (attempt old s).0 (attempt old s).1
  failed :
      (n : ℕ) (old : A) (s : S) (a : A) (t : S)
      → is_done (attempt old s).0 ≡ false
      → Attempts is_done attempt n (attempt old s).0 (attempt old s).1 a t
      → Attempts is_done attempt (suc n) old s a t

module _ {S A : Type 0} (is_done : A → Bool) (attempt : A → M S A) where
  -- If an attempt among the first ones is done, the loop ends with its result, in the state that
  -- it leaves.
  pub with_retry-Attempts :
      (n attempts : ℕ) (old : A) (s : S) (a : A) (t : S)
      → Attempts is_done attempt n old s a t
      → n ≤ attempts
      → with_retry is_done attempt old attempts s ≡ (a, t)
  unfolding with_retry
  with_retry-Attempts _ zero _ _ _ _ (Attempts.first old s e) h = absurd (omega arith)
  with_retry-Attempts _ zero _ _ _ _ (Attempts.failed n old s a t e r) h = absurd (omega arith)
  with_retry-Attempts _ (suc attempts) _ _ _ _ (Attempts.first old s e) h = rw e refl
  with_retry-Attempts _ (suc attempts) _ _ _ _ (Attempts.failed n old s a t e r) h =
      rw e (with_retry-Attempts n attempts (attempt old s).0 (attempt old s).1 a t r (omega arith))
