-- ===== src/Operator/Retry/Policies.antt =====
-- The retry policies of operator/informer_controller.go.
use grafana_app_sdk.Base.{
  ℕ, ◌*◌, ◌^◌, ◌%◌, ◌≤◌, ◌<◌, ◌≡◌, ◌↔◌, true, false, not, ◌&&◌, Option, ltb, nat_eq, if◌then◌else◌,
  arith,
}
use native.Mathlib.Nat.{mod-eq_of_lt, mul-le-mul_left, pow-le-pow_right}
use grafana_app_sdk.Resource.Object.{Object}
use grafana_app_sdk.Operator.Io.{Err}
use grafana_app_sdk.Operator.Action.{ResourceAction, delete}
use grafana_app_sdk.Operator.Retry.{
  exponential_backoff_retry_policy, opinionated_retry_dequeue_policy, action_eq,
}

delay_fits : (d m a : ℕ) → d * 2 ^ m < 2 ^ 63 → a ≤ m → (d * 2 ^ a) % 2 ^ 64 ≡ d * 2 ^ a
delay_fits d m a h le = mod-eq_of_lt (omega (arith, scaled))
  where
    scaled : d * 2 ^ a ≤ d * 2 ^ m
    scaled = mul-le-mul_left d (pow-le-pow_right (omega arith) le)

-- Where the longest delay fits into 63 bits, the policy allows the attempts up to the maximum and
-- no other, and the delay of an allowed attempt is the initial one doubled that many times,
-- without a wrap-around.
pub exponential_backoff_exact :
    (initial_delay max_attempts attempt : ℕ) (e : Err)
    → initial_delay * 2 ^ max_attempts < 2 ^ 63
    → exponential_backoff_retry_policy initial_delay max_attempts e attempt
      ≡ (if ltb max_attempts attempt then (false, 0) else (true, initial_delay * 2 ^ attempt))
unfolding exponential_backoff_retry_policy
exponential_backoff_exact initial_delay max_attempts attempt e h =
    ground (arith, delay_fits initial_delay max_attempts attempt h)

-- A queued retry stays, if the opinionated policy is asked, exactly where the new action is no
-- deletion and is another action than the queued one or is for the same generation.
pub opinionated_keeps :
    (a b : ResourceAction) (x y : Object) (e : Option Err)
    → (opinionated_retry_dequeue_policy a x b y e ≡ false) ↔ (
        (action_eq a delete ≡ false)
        × ((action_eq a b && not (nat_eq x.generation y.generation)) ≡ false))
unfolding opinionated_retry_dequeue_policy
opinionated_keeps a b x y e = (λ h. (ground arith, ground arith), λ h. ground arith)
