-- ===== src/Operator/Retry/Worker.antt =====
-- operator/retry_processor.go: one worker, with the queue of its shard. The mutex is held through
-- each phase of `processReady`; what other goroutines add between two phases is in the queue that
-- the next phase starts from.
use grafana_app_sdk.Base.{
  ℕ, zero, suc, ◌+◌, ◌≤◌, String, List, [], ◌∷◌, ◌++◌, Bool, true, false, not, ◌&&◌, Option, none,
  some, leb, nat_eq, length, filter, if◌then◌else◌, ◌==◌,
}
use grafana_app_sdk.Operator.Io.{Err}
use grafana_app_sdk.Operator.Retry.{RetryRequest, RetryPolicy}
use grafana_app_sdk.Operator.Retry.Heap.{HeapPackage}
pub mod Ready
pub mod Requeue
pub mod Dequeue

-- What a `RetryFunc` returned, and the time at which the request would be queued again.
pub record Result : Type 0 where
  pub request : RetryRequest
  pub requeue : Option ℕ
  pub error : Option Err
  pub now : ℕ

-- What the third phase queues for a result, if anything.
pub requeued : Option RetryPolicy → Result → Option RetryRequest
requeued policy res = elim res.requeue [
  | some after ↦ some (record res.request { retry_after = res.now + after; last_error = res.error })
  | none ↦ elim res.error [
    | none ↦ none
    | some e ↦ elim policy [
      | none ↦ none
      | some p ↦
          if (p e (res.request.attempt + 1)).0
          then some (record res.request {
            retry_after = res.now + (p e (res.request.attempt + 1)).1;
            attempt = res.request.attempt + 1;
            last_error = some e;
          })
          else none
    ]
  ]
]

-- What `Dequeue` takes out: the requests of the key that satisfy the predicate, and all of the key
-- where the predicate is nil.
unfoldable pub taken_out : String → Option (RetryRequest → Bool) → RetryRequest → Bool
taken_out key none r = r.key == key
taken_out key (some predicate) r = r.key == key && predicate r

module _ (heap : HeapPackage) where
  open heap use {init, push, pop}

  -- The loop of the first phase: the requests that are due, and the queue that is left. The
  -- queue gets shorter by one in each round, so its length is fuel enough.
  pub pop_ready : ℕ → ℕ → List RetryRequest → List RetryRequest × List RetryRequest
  pop_ready zero now q = ([], q)
  pop_ready (suc n) now [] = ([], [])
  pop_ready (suc n) now (r ∷ q) =
      let rest = pop_ready n now (pop (r ∷ q)) in
      if leb r.retry_after now then (r ∷ rest.0, rest.1) else ([], r ∷ q)

  pub take_ready : ℕ → List RetryRequest → List RetryRequest × List RetryRequest
  unfolding pop_ready
  take_ready now q = pop_ready (length q) now q

  -- The loop of the third phase.
  pub requeue_all : Option RetryPolicy → List Result → List RetryRequest → List RetryRequest
  unfolding requeued
  requeue_all policy [] q = q
  requeue_all policy (res ∷ results) q = elim (requeued policy res) [
    | none ↦ requeue_all policy results q
    | some r ↦ requeue_all policy results (push q r)
  ]

  -- `Dequeue` on the worker of the key, and `DequeueAll`, where the predicate is nil: the queue
  -- is made a heap again only if something was taken out.
  pub dequeue_from : String → Option (RetryRequest → Bool) → List RetryRequest → List RetryRequest
  unfolding taken_out
  dequeue_from key predicate q =
      let filtered = filter (λ r. not (taken_out key predicate r)) q in
      if nat_eq (length filtered) (length q) then q else init filtered
