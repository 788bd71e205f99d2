-- ===== src/Operator/Retry/Worker/Requeue.antt =====
-- The third phase of `processReady`: which requests come back into the queue.
use mathlib.Core.List.{Perm, perm_middle}
use mathlib.Core.List.Perm
use grafana_app_sdk.Base.{
  ℕ, ◌+◌, ◌≤◌, ◌<◌, ◌≡◌, refl, List, [], ◌∷◌, ◌++◌, Bool, false, inl, inr, ltb, Option, none, some,
  count, count-perm, count-append, All, Option-cases, arith,
}
use grafana_app_sdk.Operator.Io.{Err}
use grafana_app_sdk.Operator.Retry.{RetryRequest, RetryPolicy}
use grafana_app_sdk.Operator.Retry.Heap.{HeapPackage}
use grafana_app_sdk.Operator.Retry.Worker.{Result, requeued, requeue_all}

-- All that comes back, in the order of the results.
abbrev pub all_requeued : Option RetryPolicy → List Result → List RetryRequest
all_requeued policy [] = []
all_requeued policy (res ∷ results) = elim (requeued policy res) [
  | none ↦ all_requeued policy results
  | some r ↦ r ∷ all_requeued policy results
]

-- The policy allows no attempt beyond a maximum.
abbrev pub IsCapped : ℕ → RetryPolicy → Type 0
IsCapped m p = (e : Err) (a : ℕ) → m < a → (p e a).0 ≡ false

abbrev pub is_beyond : ℕ → RetryRequest → Bool
is_beyond m r = ltb m r.attempt

pub requeued-key :
    (policy : Option RetryPolicy) (res : Result) (r : RetryRequest)
    → requeued policy res ≡ some r
    → r.key ≡ res.request.key
unfolding requeued
requeued-key policy res r h = ground arith

requeued_capped :
    (m : ℕ) (p : RetryPolicy) (res : Result) (r : RetryRequest)
    → IsCapped m p
    → res.request.attempt ≤ m
    → requeued (some p) res ≡ some r
    → r.attempt ≤ m
unfolding requeued
requeued_capped m p res r c l h = elim (Option-cases res.error) [
  | inl k ↦ ground arith
  | inr (e, k) ↦ ground (arith, c e (res.request.attempt + 1))
]

all_requeued_capped :
    (m : ℕ) (p : RetryPolicy) (results : List Result)
    → IsCapped m p
    → All (λ res. res.request.attempt ≤ m) results
    → count (is_beyond m) (all_requeued (some p) results) ≡ 0
all_requeued_capped m p [] c a = refl
all_requeued_capped m p (res ∷ results) c a =
    let rest = all_requeued_capped m p results c a.1 in
    elim (Option-cases (requeued (some p) res)) [
      | inl e ↦ rw (e, all_requeued) rest
      | inr (r, e) ↦ rw (e, all_requeued) (ground (arith, rest, requeued_capped m p res r c a.0 e))
    ]

module _ (heap : HeapPackage) where
  open heap use {push, IsHeap, push-perm, push-IsHeap}

  -- The third phase adds to the queue, which may have changed meanwhile, exactly what comes back
  -- from the results, and keeps its heap order.
  pub requeue_all-perm :
      (policy : Option RetryPolicy) (results : List Result) (q : List RetryRequest)
      → IsHeap q
      → Perm (requeue_all heap policy results q) (all_requeued policy results ++ q)
        × IsHeap (requeue_all heap policy results q)
  unfolding requeue_all
  requeue_all-perm policy [] q h = (Perm.refl q, h)
  requeue_all-perm policy (res ∷ results) q h = elim (Option-cases (requeued policy res)) [
    | inl e ↦ rw (e, requeue_all, all_requeued) (requeue_all-perm policy results q h)
    | inr (r, e) ↦
        let rest = requeue_all-perm policy results (push q r) (push-IsHeap q r h) in
        rw (e, requeue_all, all_requeued)
          (
            Perm.trans rest.0 (
                Perm.trans (Perm.append_left (all_requeued policy results) (push-perm q r))
                  (perm_middle (all_requeued policy results) q)),
            rest.1,
          )
  ]

  -- Where the policy allows no attempt beyond a maximum, no request in the queue has gone beyond
  -- it after the third phase if none had before, in the queue and among the results.
  pub requeue_all_capped :
      (m : ℕ) (p : RetryPolicy) (results : List Result) (q : List RetryRequest)
      → IsHeap q
      → IsCapped m p
      → All (λ res. res.request.attempt ≤ m) results
      → count (is_beyond m) q ≡ 0
      → count (is_beyond m) (requeue_all heap (some p) results q) ≡ 0
  requeue_all_capped m p results q h c a b = omega (
    arith,
    count-perm (is_beyond m) (requeue_all-perm (some p) results q h).0,
    count-append (is_beyond m) (all_requeued (some p) results) q,
    all_requeued_capped m p results c a,
  )
