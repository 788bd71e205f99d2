-- ===== src/Operator/Retry/SortedQueue.antt =====
-- A queue in order of time has the behaviour that is documented of `container/heap`.
use mathlib.Core.List.{Perm}
use mathlib.Core.List.Perm
use grafana_app_sdk.Base.{
  ℕ, ◌≤◌, List, [], ◌∷◌, inl, inr, leb, All, if◌then◌else◌, Bool-cases, arith,
}
use grafana_app_sdk.Operator.Retry.{RetryRequest}
use grafana_app_sdk.Operator.Retry.Heap.{HeapPackage}

abbrev pub insert : RetryRequest → List RetryRequest → List RetryRequest
insert r [] = r ∷ []
insert r (x ∷ q) = if leb r.retry_after x.retry_after then r ∷ x ∷ q else x ∷ insert r q

abbrev pub sort : List RetryRequest → List RetryRequest
sort [] = []
sort (r ∷ q) = insert r (sort q)

abbrev pub rest : List RetryRequest → List RetryRequest
rest [] = []
rest (r ∷ q) = q

abbrev pub IsSorted : List RetryRequest → Type 0
IsSorted [] = Unit
IsSorted (r ∷ q) = All (λ x. r.retry_after ≤ x.retry_after) q × IsSorted q

pub insert-perm : (r : RetryRequest) (q : List RetryRequest) → Perm (insert r q) (r ∷ q)
insert-perm r [] = Perm.refl (r ∷ [])
insert-perm r (x ∷ q) = elim (Bool-cases (leb r.retry_after x.retry_after)) [
  | inl e ↦ rw e (Perm.refl (r ∷ x ∷ q))
  | inr e ↦ rw e (Perm.trans (Perm.cons x (insert-perm r q)) (Perm.swap r x q))
]

pub sort-perm : (q : List RetryRequest) → Perm (sort q) q
sort-perm [] = Perm.refl []
sort-perm (r ∷ q) = Perm.trans (insert-perm r (sort q)) (Perm.cons r (sort-perm q))

All-le :
    (s t : ℕ) (q : List RetryRequest)
    → s ≤ t
    → All (λ x. t ≤ x.retry_after) q
    → All (λ x. s ≤ x.retry_after) q
All-le s t [] h a = tt
All-le s t (r ∷ q) h a = (omega arith, All-le s t q h a.1)

All-insert :
    (t : ℕ) (r : RetryRequest) (q : List RetryRequest)
    → t ≤ r.retry_after
    → All (λ x. t ≤ x.retry_after) q
    → All (λ x. t ≤ x.retry_after) (insert r q)
All-insert t r [] h a = (h, tt)
All-insert t r (x ∷ q) h a = elim (Bool-cases (leb r.retry_after x.retry_after)) [
  | inl e ↦ rw e (h, a)
  | inr e ↦ rw e (a.0, All-insert t r q h a.1)
]

pub insert-IsSorted :
    (q : List RetryRequest) (r : RetryRequest) → IsSorted q → IsSorted (insert r q)
insert-IsSorted [] r s = (tt, tt)
insert-IsSorted (x ∷ q) r s = elim (Bool-cases (leb r.retry_after x.retry_after)) [
  | inl e ↦ rw e ((ground arith, All-le r.retry_after x.retry_after q (ground arith) s.0), s)
  | inr e ↦ rw e (All-insert x.retry_after r q (ground arith) s.0, insert-IsSorted q r s.1)
]

pub sort-IsSorted : (q : List RetryRequest) → IsSorted (sort q)
sort-IsSorted [] = tt
sort-IsSorted (r ∷ q) = insert-IsSorted (sort q) r (sort-IsSorted q)

abbrev pub sorted_queue : HeapPackage
sorted_queue = record {
  init = sort;
  push = λ q r. insert r q;
  pop = rest;
  IsHeap = IsSorted;
  empty-IsHeap = tt;
  init-perm = sort-perm;
  init-IsHeap = sort-IsSorted;
  push-perm = λ q r. insert-perm r q;
  push-IsHeap = insert-IsSorted;
  pop-perm = λ r q h. Perm.refl (r ∷ q);
  pop-IsHeap = λ r q h. h.1;
  root_least = λ r q h. h.0;
}
