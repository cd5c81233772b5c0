-- ===== src/Client/Connection/Delay.antt =====
-- The delay before a reconnection (ScheduleReconnect).
use native.Mathlib.Nat.{pow-le-pow_right}
use wim.Prelude.{
  Bool-cases, ap, arith, inl, inr, leb, leb→le, min, ℕ, ◌*◌, ◌+◌, ◌/◌, ◌<◌, ◌^◌, ◌∙◌, ◌≡◌, ◌≤◌,
}
use wim.Client.Connection.Socket.{reconnect_base, retry_delay}

-- The cap of the exponent at 6 never shows: 200 · 2^6 is beyond the maximum already.
reconnect_base_lem : (attempt : ℕ) → reconnect_base attempt ≡ min 10000 (200 * 2 ^ attempt)
unfolding reconnect_base
reconnect_base_lem attempt = elim (Bool-cases (leb attempt 6)) [
  | inl small ↦ ap (λ e. min 10000 (200 * 2 ^ e)) (omega (arith, leb→le attempt 6 small))
  | inr large ↦
      let six : min attempt 6 ≡ 6 = ground arith in
      let tall : 64 ≤ 2 ^ attempt =
        pow-le-pow_right (omega arith) {i = 6} {j = attempt} (ground arith) in
      ap (λ e. min 10000 (200 * 2 ^ e)) six ∙ omega (arith, tall)
]

-- With a generator whose answer lies below its bound, the delay before the reconnection after any number of
-- attempts is at least 200 milliseconds doubled by each attempt and capped at 10 seconds, at most a
-- quarter more than that, and never more than 10 seconds.
pub retry_delay_bounds :
    (bounded : ℕ → ℕ) (attempt : ℕ)
    → ((n : ℕ) → 0 < n → bounded n < n)
    → (min 10000 (200 * 2 ^ attempt) ≤ retry_delay bounded attempt)
      × (4 * retry_delay bounded attempt ≤ 5 * min 10000 (200 * 2 ^ attempt))
      × (retry_delay bounded attempt ≤ 10000)
unfolding retry_delay
retry_delay_bounds bounded attempt h =
    let base = reconnect_base attempt in
    let jitter : bounded (base / 4 + 1) < base / 4 + 1 = h (base / 4 + 1) (omega arith) in
    let e = reconnect_base_lem attempt in
    (omega (arith, e), omega (arith, e, jitter), omega (arith, e))
