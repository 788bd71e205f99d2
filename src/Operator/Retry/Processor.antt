-- ===== src/Operator/Retry/Processor.antt =====
-- operator/retry_processor.go: the pool of workers. `hash` is `xxhash.Sum64` on the bytes of a key.
-- `Run` lets each worker take the steps `on_wake` and `on_tick`; the channel `wake` holds one
-- signal at most.
use grafana_app_sdk.Base.{
  ℕ, zero, suc, ◌+◌, ◌%◌, String, List, [], ◌∷◌, ◌++◌, Bool, true, false, Option, none, nat_eq,
  length, map, modify, if◌then◌else◌,
}
use grafana_app_sdk.Operator.Io.{Err}
use grafana_app_sdk.Operator.Retry.{RetryRequest, RetryPolicy, second}
use grafana_app_sdk.Operator.Retry.Heap.{HeapPackage}
use grafana_app_sdk.Operator.Retry.Worker.{Result, take_ready, requeue_all, dequeue_from}
pub mod Shards
pub mod Pending

pub record RetryProcessorConfig : Type 0 where
  pub worker_pool_size : ℕ  -- a negative one counts as 0
  pub check_interval : ℕ

pub record RetryWorker : Type 0 where
  pub queue : List RetryRequest
  pub wake : Bool
  pub check_interval : ℕ

pub record RetryProcessor : Type 0 where
  pub workers : List RetryWorker
  pub worker_count : ℕ
  pub policy : Option RetryPolicy

replicate : ℕ → RetryWorker → List RetryWorker
replicate zero w = []
replicate (suc n) w = w ∷ replicate n w

abbrev or_default : ℕ → ℕ → ℕ
or_default n d = if nat_eq n 0 then d else n

pub new_retry_processor : RetryProcessorConfig → Option RetryPolicy → RetryProcessor
unfolding replicate
new_retry_processor cfg policy =
    let size = or_default cfg.worker_pool_size 4 in
    record {
      workers = replicate size (record {
        queue = [];
        wake = false;
        check_interval = or_default cfg.check_interval second;
      });
      worker_count = size;
      policy = policy;
    }

-- All pending requests, worker by worker.
pub pending : List RetryWorker → List RetryRequest
pending [] = []
pending (w ∷ ws) = w.queue ++ pending ws

total_length : List RetryWorker → ℕ
total_length [] = 0
total_length (w ∷ ws) = length w.queue + total_length ws

pub len : RetryProcessor → ℕ
unfolding total_length
len p = total_length p.workers

module _ (heap : HeapPackage) (hash : String → ℕ) where
  open heap use {push}

  pub shard : RetryProcessor → String → ℕ
  shard p key = hash key % p.worker_count

  pub enqueue : RetryRequest → RetryProcessor → RetryProcessor
  unfolding shard
  enqueue r p = record p {
    workers =
        modify (shard p r.key) (λ w. record w { queue = push w.queue r; wake = true }) p.workers;
  }

  pub dequeue : String → Option (RetryRequest → Bool) → RetryProcessor → RetryProcessor
  unfolding shard
  dequeue key predicate p = record p {
    workers =
        modify (shard p key) (λ w. record w { queue = dequeue_from heap key predicate w.queue })
          p.workers;
  }

  pub dequeue_all : String → RetryProcessor → RetryProcessor
  unfolding dequeue
  dequeue_all key p = dequeue key none p

  -- `processReady` of a worker at a time. `call` makes the call of a request's `RetryFunc` and gives
  -- what it returned, with the time at which that is looked at.
  pub process_ready : (RetryRequest → Result) → Option RetryPolicy → ℕ → RetryWorker → RetryWorker
  process_ready call policy now w =
      let split = take_ready heap now w.queue in
      record w { queue = requeue_all heap policy (map call split.0) split.1 }

  -- The two cases in which the loop of a worker goes on: a signal, which is used up, and the tick.
  pub on_wake : (RetryRequest → Result) → ℕ → ℕ → RetryProcessor → RetryProcessor
  unfolding process_ready
  on_wake call now i p = record p {
    workers =
        modify i
          (λ w. if w.wake then process_ready call p.policy now (record w { wake = false }) else w)
          p.workers;
  }

  pub on_tick : (RetryRequest → Result) → ℕ → ℕ → RetryProcessor → RetryProcessor
  unfolding process_ready
  on_tick call now i p = record p { workers = modify i (process_ready call p.policy now) p.workers }
