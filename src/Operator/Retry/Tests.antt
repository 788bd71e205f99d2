-- ===== src/Operator/Retry/Tests.antt =====
-- The theorems about retries at concrete inputs.
use Prim.Native.String
use grafana_app_sdk.Base.{ℕ, String, List, [], ◌∷◌, refl, none, some, arith}
use grafana_app_sdk.Operator.Io.{outside}
use grafana_app_sdk.Operator.Action.{create}
use grafana_app_sdk.Operator.Events.{watcher_add}
use grafana_app_sdk.Operator.Retry.Worker.{Result}
use grafana_app_sdk.Operator.Retry.Worker.Requeue.{IsCapped}
use grafana_app_sdk.Operator.Retry.Processor.{
  RetryProcessor, new_retry_processor, enqueue, dequeue, on_wake, on_tick,
}
use grafana_app_sdk.Operator.Retry.Processor.Shards.{
  IsValid, IsOwnResult, new_retry_processor-IsValid, operations-IsValid,
}
use grafana_app_sdk.Operator.Retry.{RetryRequest, RetryPolicy, exponential_backoff_retry_policy}
use grafana_app_sdk.Operator.Retry.SortedQueue.{sorted_queue}

abbrev request_at : String → ℕ → RetryRequest
request_at key t = record {
  key = key;
  retry_after = t;
  retry_func = watcher_add 1 0;
  attempt = 0;
  action = create;
  object = 0;
  last_error = none;
}

abbrev queue : List RetryRequest
queue = request_at "a" 10 ∷ request_at "b" 20 ∷ request_at "a" 30 ∷ []

queue-ordered : sorted_queue.IsHeap queue
queue-ordered = omega arith

abbrev policy : RetryPolicy
policy = exponential_backoff_retry_policy 5 2

policy-IsCapped : IsCapped 2 policy
unfolding exponential_backoff_retry_policy
policy-IsCapped e a h = ground arith

-- The call fails.
abbrev failed : RetryRequest → Result
failed r = record { request = r; requeue = none; error = some (outside 500); now = 50 }

-- The hash of a key is its length, modulo two workers.
abbrev hash : String → ℕ
hash = String.len

abbrev processor : RetryProcessor
processor = new_retry_processor (record { worker_pool_size = 2; check_interval = 0 }) (some policy)

processor-IsValid : IsValid sorted_queue hash processor
processor-IsValid =
    new_retry_processor-IsValid sorted_queue hash
      (record { worker_pool_size = 2; check_interval = 0 }) (some policy)

own : IsOwnResult failed
own r = refl

operations-IsValid_example :
    IsValid sorted_queue hash (enqueue sorted_queue hash (request_at "a" 10) processor)
    × IsValid sorted_queue hash (dequeue sorted_queue hash "a" none processor)
    × IsValid sorted_queue hash (on_wake sorted_queue hash failed 25 1 processor)
    × IsValid sorted_queue hash (on_tick sorted_queue hash failed 25 1 processor)
operations-IsValid_example =
    operations-IsValid sorted_queue hash processor (request_at "a" 10) "a" none failed 25 1 own
      processor-IsValid

abbrev loaded : RetryProcessor
loaded = enqueue sorted_queue hash (request_at "a" 10) processor

loaded-IsValid : IsValid sorted_queue hash loaded
loaded-IsValid =
    (operations-IsValid sorted_queue hash processor (request_at "a" 10) "a" none failed 25 1 own
      processor-IsValid).0
