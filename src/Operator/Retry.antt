-- ===== src/Operator/Retry.antt =====
-- operator/informer_controller.go: the policies of retries, and a request to retry an event.
-- Times and durations are numbers of nanoseconds.
use grafana_app_sdk.Base.{
  ℕ, ◌*◌, ◌^◌, ◌%◌, String, Bool, true, false, not, Option, ltb, nat_eq, if◌then◌else◌, ◌==◌,
}
use grafana_app_sdk.Resource.Object.{Object}
use grafana_app_sdk.Operator.Io.{Err}
use grafana_app_sdk.Operator.Events.{EventCall, Pointer}
use grafana_app_sdk.Operator.Action.{ResourceAction, create, update, delete, resync, other}
pub mod Policies
pub mod Heap
pub mod Worker
pub mod Processor
pub mod SortedQueue
mod Tests

-- Whether there is to be another attempt, and after which time.
abbrev pub RetryPolicy : Type 0
RetryPolicy = Err → ℕ → Bool × ℕ

-- `time.Duration(math.Pow(2, float64(attempt)))` is exact up to attempt 62; the product is one of
-- 64-bit integers and wraps around, here as a bit pattern.
pub exponential_backoff_retry_policy : ℕ → ℕ → RetryPolicy
exponential_backoff_retry_policy initial_delay max_attempts e attempt =
    if ltb max_attempts attempt then (false, 0) else (true, (initial_delay * 2 ^ attempt) % 2 ^ 64)

abbrev pub second : ℕ
second = 1000000000

pub default_retry_policy : RetryPolicy
unfolding exponential_backoff_retry_policy
default_retry_policy = exponential_backoff_retry_policy (5 * second) 5

-- `==` on resource actions, which are strings.
abbrev pub action_eq : ResourceAction → ResourceAction → Bool
action_eq create create = true
action_eq update update = true
action_eq delete delete = true
action_eq resync resync = true
action_eq (other s) (other t) = s == t
action_eq _ _ = false

-- Whether a new action on an object takes a queued retry out, from the new action with its
-- object and the queued action with its object and error.
abbrev pub RetryDequeuePolicy : Type 0
RetryDequeuePolicy = ResourceAction → Object → ResourceAction → Object → Option Err → Bool

pub opinionated_retry_dequeue_policy : RetryDequeuePolicy
opinionated_retry_dequeue_policy new_action new_object retry_action retry_object e =
    if action_eq new_action delete
    then true
    else (if not (action_eq new_action retry_action)
        then false
        else (if nat_eq new_object.generation retry_object.generation then false else true))

-- The closure `RetryFunc` is the call that it makes again.
pub record RetryRequest : Type 0 where
  pub key : String
  pub retry_after : ℕ
  pub retry_func : EventCall
  pub attempt : ℕ
  pub action : ResourceAction
  pub object : Pointer
  pub last_error : Option Err
