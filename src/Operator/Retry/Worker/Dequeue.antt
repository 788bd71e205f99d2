-- ===== src/Operator/Retry/Worker/Dequeue.antt =====
-- `Dequeue` and `DequeueAll` on the queue of one worker.
use mathlib.Core.List.{Perm}
use mathlib.Core.List.Perm
use grafana_app_sdk.Base.{
  ◌≡◌, refl, String, List, [], ◌∷◌, Bool, not, inl, inr, nat_eq, Option, length, filter,
  length-filter-le, count, count-perm, Bool-cases, arith,
}
use grafana_app_sdk.Operator.Retry.{RetryRequest}
use grafana_app_sdk.Operator.Retry.Heap.{HeapPackage}
use grafana_app_sdk.Operator.Retry.Worker.{taken_out, dequeue_from}

pub filter_all {ℓ} :
    {A : Type ℓ} (p : A → Bool) (xs : List A) → length (filter p xs) ≡ length xs → filter p xs ≡ xs
filter_all p [] h = refl
filter_all p (x ∷ xs) h = ground (arith, filter_all p xs, length-filter-le p xs)

pub count-filter_none {ℓ} :
    {A : Type ℓ} (p : A → Bool) (xs : List A) → count p (filter (λ x. not (p x)) xs) ≡ 0
count-filter_none p [] = refl
count-filter_none p (x ∷ xs) = ground (arith, count-filter_none p xs)

module _ (heap : HeapPackage) (key : String) (predicate : Option (RetryRequest → Bool)) where
  open heap use {init, IsHeap, init-perm, init-IsHeap}

  -- Dequeuing leaves exactly the requests that are of another key or do not satisfy the predicate,
  -- and keeps the heap order. (Without a predicate every request of the key is taken out.)
  pub dequeue_from-perm :
      (q : List RetryRequest)
      → IsHeap q
      → Perm (dequeue_from heap key predicate q) (filter (λ r. not (taken_out key predicate r)) q)
        × IsHeap (dequeue_from heap key predicate q)
  unfolding dequeue_from
  dequeue_from-perm q h = elim (Bool-cases (nat_eq (length (filter keep q)) (length q))) [
    | inl e ↦ rw e (rw (filter_all keep q (ground arith)) (Perm.refl q), h)
    | inr e ↦ rw e (init-perm (filter keep q), init-IsHeap (filter keep q))
  ]
    where
      keep : RetryRequest → Bool
      keep r = not (taken_out key predicate r)

  pub dequeue_from_none :
      (q : List RetryRequest)
      → IsHeap q
      → count (taken_out key predicate) (dequeue_from heap key predicate q) ≡ 0
  dequeue_from_none q h = omega (
    arith,
    count-perm (taken_out key predicate) (dequeue_from-perm q h).0,
    count-filter_none (taken_out key predicate) q,
  )
