-- ===== src/Events/Minutes/Delay.antt =====
-- The waiting time before a message goes back to the queue.
use be25_fin_thanos_meetbowl.Prelude.{
  ℕ, suc, ◌-◌, ◌*◌, ◌^◌, ◌≤◌, min, ◌≡◌, arith, nat_eq, list_eq, option_eq, pair_eq,
}
use native.Mathlib.Nat.{two-pow-succ}
use be25_fin_thanos_meetbowl.Events.Minutes.{RetryPolicy, retry_delay}

-- One retry later the exponent is one more.
double : (b n : ℕ) → b * 2 ^ (suc (suc n) - 1) ≡ 2 * (b * 2 ^ (suc n - 1))
double b n =
    let e : suc (suc n) - 1 ≡ suc n = omega arith in
    let f : suc n - 1 ≡ n = omega arith in rw (e, f, two-pow-succ) (omega arith)

first : (b : ℕ) → b * 2 ^ (1 - 1) ≡ b
first b = omega arith

-- The delay never passes the maximum; the first one is the base, every later one is twice the one
-- before, both cut off at the maximum; and so the delays never fall.
pub retry_delay_lem :
    (policy : RetryPolicy) (n : ℕ)
    → (retry_delay policy n ≤ policy.retry_delay_max)
      × (retry_delay policy 1 ≡ min policy.retry_delay_base policy.retry_delay_max)
      × (retry_delay policy (suc (suc n))
          ≡ min (2 * retry_delay policy (suc n)) policy.retry_delay_max)
      × (retry_delay policy (suc n) ≤ retry_delay policy (suc (suc n)))
unfolding retry_delay
retry_delay_lem policy n = (
  omega arith,
  omega arith,
  omega (arith, double policy.retry_delay_base n),
  omega (arith, double policy.retry_delay_base n),
)
