-- ===== src/Notify/Backoff.antt =====
-- The waiting times within the bound on attempts.
use kite_rail.Prelude.{ℕ, zero, suc, ◌≡◌, refl, ◌*◌, ◌^◌, ◌≤◌, arith}
use kite_rail.Prelude.Numbers.{nonneg}
use kite_rail.Notify.{backoff, max_attempts, second}

-- Within the eight attempts a wait is 15 seconds doubled for each attempt behind the first, so that
-- neither the cap of an hour nor the width of the number is met.
pub backoff-doubling :
    (k : ℕ) → suc k ≤ max_attempts → backoff (suc k) ≡ nonneg (15 * second * 2 ^ k)
unfolding backoff
backoff-doubling zero h = refl
backoff-doubling (suc zero) h = refl
backoff-doubling (suc (suc zero)) h = refl
backoff-doubling (suc (suc (suc zero))) h = refl
backoff-doubling (suc (suc (suc (suc zero)))) h = refl
backoff-doubling (suc (suc (suc (suc (suc zero))))) h = refl
backoff-doubling (suc (suc (suc (suc (suc (suc zero)))))) h = refl
backoff-doubling (suc (suc (suc (suc (suc (suc (suc zero))))))) h = refl
backoff-doubling (suc (suc (suc (suc (suc (suc (suc (suc k)))))))) h = absurd (omega arith)
