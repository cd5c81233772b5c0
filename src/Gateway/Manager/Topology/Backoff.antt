-- ===== src/Gateway/Manager/Topology/Backoff.antt =====
-- The delay before a link is opened again.
use native.Mathlib.Nat.{pow-suc, mod-lt}
use wim.Prelude.{arith, max, min, suc, zero, ℕ, ◌%◌, ◌*◌, ◌+◌, ◌/◌, ◌<◌, ◌^◌, ◌≡◌, ◌≤◌}
use wim.Gateway.Manager.Topology.{reconnect_delay, with_jitter}

pow_small : (k : ℕ) → k ≤ 6 → (1 ≤ 2 ^ k) × (2 ^ k ≤ 64)
pow_small zero h = omega arith
pow_small (suc zero) h = omega arith
pow_small (suc (suc zero)) h = omega arith
pow_small (suc (suc (suc zero))) h = omega arith
pow_small (suc (suc (suc (suc zero)))) h = omega arith
pow_small (suc (suc (suc (suc (suc zero))))) h = omega arith
pow_small (suc (suc (suc (suc (suc (suc zero)))))) h = omega arith
pow_small (suc (suc (suc (suc (suc (suc (suc k))))))) h = absurd (omega arith)

pub pow_mono : (i j : ℕ) → i ≤ j → 2 ^ i ≤ 2 ^ j
pow_mono i zero h = let e : i ≡ 0 = omega arith in rw e (omega arith)
pow_mono zero (suc j) h = omega (arith, pow_mono 0 j (omega arith), pow-suc 2 j)
pow_mono (suc i) (suc j) h = omega (arith, pow_mono i j (omega arith), pow-suc 2 i, pow-suc 2 j)

-- After any number of failed attempts the wait is between 200 milliseconds and 12.5 seconds, jitter
-- included; one more failed attempt never shortens the wait before jitter; and from the sixth on it
-- is 10 seconds before jitter.
pub reconnect_delay_bounds :
    (attempt random : ℕ)
    → (200 ≤ with_jitter (reconnect_delay attempt) random)
      × (with_jitter (reconnect_delay attempt) random ≤ 12500)
      × (reconnect_delay attempt ≤ reconnect_delay (attempt + 1))
      × (reconnect_delay (attempt + 6) ≡ 10000)
unfolding reconnect_delay with_jitter
reconnect_delay_bounds attempt random =
    let p = pow_small (min attempt 6) (omega arith) in
    let q = pow_mono (min attempt 6) (min (attempt + 1) 6) (omega arith) in
    let six : min (attempt + 6) 6 ≡ 6 = omega arith in
    let jitter : random % (max 1 (min (200 * 2 ^ min attempt 6) 10000 / 4) + 1)
        < max 1 (min (200 * 2 ^ min attempt 6) 10000 / 4) + 1 =
      mod-lt random (omega arith) in
    (omega arith, omega arith, omega arith, rw six (omega arith))
