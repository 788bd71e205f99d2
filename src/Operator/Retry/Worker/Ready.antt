-- ===== src/Operator/Retry/Worker/Ready.antt =====
-- The first phase of `processReady`: which requests it takes out of the queue.
use mathlib.Core.List.{Perm}
use mathlib.Core.List.Perm
use grafana_app_sdk.Base.{
  ℕ, zero, suc, ◌≤◌, ◌<◌, ◌≡◌, refl, List, [], ◌∷◌, ◌++◌, Bool, true, inl, inr, leb, ltb, length,
  count, count-perm, All, Bool-cases, arith,
}
use grafana_app_sdk.Operator.Retry.{RetryRequest}
use grafana_app_sdk.Operator.Retry.Heap.{HeapPackage}
use grafana_app_sdk.Operator.Retry.Worker.{pop_ready, take_ready}

abbrev pub is_due : ℕ → RetryRequest → Bool
is_due now r = leb r.retry_after now

abbrev pub is_early : ℕ → RetryRequest → Bool
is_early now r = ltb now r.retry_after

pub length-count {ℓ} : {A : Type ℓ} (xs : List A) → length xs ≡ count (λ _. true) xs
length-count [] = refl
length-count (x ∷ xs) = omega (arith, length-count xs)

pub length-perm {ℓ} : {A : Type ℓ} {xs ys : List A} → Perm xs ys → length xs ≡ length ys
length-perm {xs = xs} {ys = ys} h =
    omega (arith, length-count xs, length-count ys, count-perm (λ _. true) h)

none_due :
    (now t : ℕ) (q : List RetryRequest)
    → now < t
    → All (λ x. t ≤ x.retry_after) q
    → count (is_due now) q ≡ 0
none_due now t [] h a = refl
none_due now t (r ∷ q) h a = ground (arith, none_due now t q h a.1)

module _ (heap : HeapPackage) where
  open heap use {pop, IsHeap, empty-IsHeap, pop-perm, pop-IsHeap, root_least}

  length-pop :
      (r : RetryRequest) (q : List RetryRequest) → IsHeap (r ∷ q) → length (pop (r ∷ q)) ≡ length q
  length-pop r q h = omega (arith, length-perm (pop-perm r q h))

  -- What holds of the first phase on a queue: its result, and the queue.
  pub record Splits (now : ℕ) (q : List RetryRequest) (out : List RetryRequest × List RetryRequest)
      : Type 0 where
    pub same : Perm (out.0 ++ out.1) q
    pub due : count (is_early now) out.0 ≡ 0
    pub early : count (is_due now) out.1 ≡ 0
    pub ordered : IsHeap out.1

  pop_ready-Splits :
      (n now : ℕ) (q : List RetryRequest)
      → length q ≤ n
      → IsHeap q
      → Splits now q (pop_ready heap n now q)
  unfolding pop_ready
  pop_ready-Splits zero now [] l h = record {
    same = Perm.refl [];
    due = refl;
    early = refl;
    ordered = h;
  }
  pop_ready-Splits zero now (r ∷ q) l h = absurd (omega arith)
  pop_ready-Splits (suc n) now [] l h = record {
    same = Perm.refl [];
    due = refl;
    early = refl;
    ordered = h;
  }
  pop_ready-Splits (suc n) now (r ∷ q) l h =
      let rest =
        pop_ready-Splits n now (pop (r ∷ q)) (omega (arith, length-pop r q h)) (pop-IsHeap r q h) in
      elim (Bool-cases (leb r.retry_after now)) [
        | inl d ↦ rw d (record {
          same = Perm.trans (Perm.cons r rest.same) (pop-perm r q h);
          due = ground (arith, rest.due);
          early = rest.early;
          ordered = rest.ordered;
        })
        | inr e ↦ rw e (record {
          same = Perm.refl (r ∷ q);
          due = refl;
          early = ground (arith, none_due now r.retry_after q (ground arith) (root_least r q h));
          ordered = h;
        })
      ]

  -- On a queue in heap order the first phase takes exactly the requests that are due: none of
  -- those it takes lies in the future, none of those it leaves is due, the two together are the
  -- queue, and what it leaves is in heap order.
  pub take_ready-Splits :
      (now : ℕ) (q : List RetryRequest) → IsHeap q → Splits now q (take_ready heap now q)
  unfolding take_ready
  take_ready-Splits now q h = pop_ready-Splits (length q) now q (omega arith) h
