-- ===== src/Operator/Retry/Heap.antt =====
-- The package `container/heap` on `retryPriorityQueue` of operator/retry_processor.go, as far as
-- the retry processor relies on it. The queue is a slice; `Less` compares the times of the
-- requests.
use mathlib.Core.List.{Perm}
use grafana_app_sdk.Base.{◌≤◌, List, [], ◌∷◌, All}
use grafana_app_sdk.Operator.Retry.{RetryRequest}

-- The documented behaviour: `init` establishes the heap order, `push` and `pop` keep it, and the
-- root, at index 0, is a minimum, which `pop` removes.
pub record HeapPackage : Type 1 where
  pub init : List RetryRequest → List RetryRequest
  pub push : List RetryRequest → RetryRequest → List RetryRequest
  pub pop : List RetryRequest → List RetryRequest
  pub IsHeap : List RetryRequest → Type 0
  pub empty-IsHeap : IsHeap []
  pub init-perm : (q : List RetryRequest) → Perm (init q) q
  pub init-IsHeap : (q : List RetryRequest) → IsHeap (init q)
  pub push-perm : (q : List RetryRequest) (r : RetryRequest) → Perm (push q r) (r ∷ q)
  pub push-IsHeap : (q : List RetryRequest) (r : RetryRequest) → IsHeap q → IsHeap (push q r)
  pub pop-perm :
      (r : RetryRequest) (q : List RetryRequest) → IsHeap (r ∷ q) → Perm (r ∷ pop (r ∷ q)) (r ∷ q)
  pub pop-IsHeap :
      (r : RetryRequest) (q : List RetryRequest) → IsHeap (r ∷ q) → IsHeap (pop (r ∷ q))
  pub root_least :
      (r : RetryRequest) (q : List RetryRequest)
      → IsHeap (r ∷ q)
      → All (λ x. r.retry_after ≤ x.retry_after) q
