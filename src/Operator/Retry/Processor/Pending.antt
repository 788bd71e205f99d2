-- ===== src/Operator/Retry/Processor/Pending.antt =====
-- The pool of workers seen as one collection of pending requests.
use grafana_app_sdk.Base.{
  ℕ, zero, suc, ◌+◌, ◌%◌, ◌<◌, ◌≡◌, refl, ap, ◌∙◌, String, List, [], ◌∷◌, ◌++◌, Bool, true, false,
  not, ◌&&◌, inl, inr, nat_eq, Option, none, some, length, length-append, count, count-filter,
  count-perm, count-append, modify, Bool-cases, arith, ◌==◌, eq_iff,
}
use native.Mathlib.Nat.{mod-lt}
use grafana_app_sdk.Operator.Retry.{RetryRequest, RetryPolicy}
use grafana_app_sdk.Operator.Retry.Heap.{HeapPackage}
use grafana_app_sdk.Operator.Retry.Worker.{dequeue_from, taken_out}
use grafana_app_sdk.Operator.Retry.Worker.Dequeue.{dequeue_from-perm}
use grafana_app_sdk.Operator.Retry.Processor.{
  RetryWorker, RetryProcessor, RetryProcessorConfig, new_retry_processor, replicate, pending,
  total_length, len, shard, enqueue, dequeue, dequeue_all,
}
use grafana_app_sdk.Operator.Retry.Processor.Shards.{is_stray, Shards, IsValid}

total_length-pending : (ws : List RetryWorker) → total_length ws ≡ length (pending ws)
unfolding total_length pending
total_length-pending [] = refl
total_length-pending (w ∷ ws) =
    omega (arith, total_length-pending ws, length-append w.queue (pending ws))

-- `Len` is the number of pending requests.
pub len-pending : (p : RetryProcessor) → len p ≡ length (pending p.workers)
unfolding len
len-pending p = total_length-pending p.workers

pending-replicate : (n : ℕ) (w : RetryWorker) → w.queue ≡ [] → pending (replicate n w) ≡ []
unfolding replicate pending
pending-replicate zero w h = refl
pending-replicate (suc n) w h = ap (λ q. q ++ pending (replicate n w)) h ∙ pending-replicate n w h

-- Nothing waits at a new processor.
pub pending-new_retry_processor :
    (cfg : RetryProcessorConfig) (policy : Option RetryPolicy)
    → pending (new_retry_processor cfg policy).workers ≡ []
unfolding new_retry_processor
pending-new_retry_processor cfg policy = pending-replicate _ _ refl

-- Only requests of the key are taken out.
other_key_stays :
    (key : String) (predicate : Option (RetryRequest → Bool)) (r : RetryRequest)
    → (r.key == key) ≡ false
    → taken_out key predicate r ≡ false
unfolding taken_out
other_key_stays key none r h = h
other_key_stays key (some f) r h = ground arith

module _ (heap : HeapPackage) (hash : String → ℕ) where
  open heap use {push, push-perm}

  pending-push :
      (f : RetryRequest → Bool) (r : RetryRequest) (k : ℕ) (ws : List RetryWorker)
      → k < length ws
      → count f (pending (modify k (λ w. record w { queue = push w.queue r; wake = true }) ws))
        ≡ count f (r ∷ pending ws)
  unfolding pending
  pending-push f r k [] h = absurd (omega arith)
  pending-push f r zero (w ∷ ws) h = ground (
    arith,
    count-append f (push w.queue r) (pending ws),
    count-append f w.queue (pending ws),
    count-perm f (push-perm w.queue r),
  )
  pending-push f r (suc k) (w ∷ ws) h = ground (
    arith,
    count-append f w.queue
        (pending (modify k (λ v. record v { queue = push v.queue r; wake = true }) ws)),
    count-append f w.queue (pending ws),
    pending-push f r k ws,
  )

  -- Enqueuing adds the request to what is pending, and changes nothing else there.
  pub pending-enqueue :
      (f : RetryRequest → Bool) (r : RetryRequest) (p : RetryProcessor)
      → IsValid heap hash p
      → count f (pending (enqueue heap hash r p).workers) ≡ count f (r ∷ pending p.workers)
  unfolding enqueue shard
  pending-enqueue f r p v =
      pending-push f r (hash r.key % p.worker_count) p.workers
        (omega (arith, v.counted, mod-lt (hash r.key) v.some_worker))

  module _ (key : String) (predicate : Option (RetryRequest → Bool)) where
    abbrev stays : RetryRequest → Bool
    stays r = not (taken_out key predicate r)

    not_stray :
        (n i : ℕ) (r : RetryRequest)
        → is_stray heap hash n i r ≡ false
        → nat_eq (hash key % n) i ≡ false
        → (r.key == key) ≡ false
    not_stray n i r s h = elim (Bool-cases (r.key == key)) [
      | inr e ↦ e
      | inl e ↦
          let same : hash r.key ≡ hash key = ap hash ((eq_iff r.key key).0 e) in
          absurd (ground (arith, same))
    ]

    stays_elsewhere :
        (f : RetryRequest → Bool) (n i : ℕ) (q : List RetryRequest)
        → count (is_stray heap hash n i) q ≡ 0
        → nat_eq (hash key % n) i ≡ false
        → count (λ r. f r && stays r) q ≡ count f q
    stays_elsewhere f n i [] s h = refl
    stays_elsewhere f n i (r ∷ q) s h =
        ground (arith, stays_elsewhere f n i q, not_stray n i r, other_key_stays key predicate r)

    pending_elsewhere :
        (f : RetryRequest → Bool) (n i : ℕ) (ws : List RetryWorker)
        → hash key % n < i
        → Shards heap hash n i ws
        → count (λ r. f r && stays r) (pending ws) ≡ count f (pending ws)
    unfolding pending
    pending_elsewhere f n i [] l s = refl
    pending_elsewhere f n i (w ∷ ws) l s = omega (
      arith,
      count-append (λ r. f r && stays r) w.queue (pending ws),
      count-append f w.queue (pending ws),
      stays_elsewhere f n i w.queue s.0.1 (ground arith),
      pending_elsewhere f n (suc i) ws (omega arith) s.1,
    )

    pending_at_shard :
        (f : RetryRequest → Bool) (n i k : ℕ) (ws : List RetryWorker)
        → hash key % n ≡ i + k
        → Shards heap hash n i ws
        → count f (
            pending
              (modify k (λ w. record w { queue = dequeue_from heap key predicate w.queue }) ws))
          ≡ count (λ r. f r && stays r) (pending ws)
    unfolding pending
    pending_at_shard f n i k [] e s = refl
    pending_at_shard f n i zero (w ∷ ws) e s = omega (
      arith,
      count-append (λ r. f r && stays r) w.queue (pending ws),
      count-append f (dequeue_from heap key predicate w.queue) (pending ws),
      count-perm f (dequeue_from-perm heap key predicate w.queue s.0.0).0,
      count-filter f stays w.queue,
      pending_elsewhere f n (suc i) ws (omega arith) s.1,
    )
    pending_at_shard f n i (suc k) (w ∷ ws) e s = omega (
      arith,
      count-append (λ r. f r && stays r) w.queue (pending ws),
      count-append f w.queue (
          pending
            (modify k (λ v. record v { queue = dequeue_from heap key predicate v.queue }) ws)),
      stays_elsewhere f n i w.queue s.0.1 (ground arith),
      pending_at_shard f n (suc i) k ws (omega arith) s.1,
    )

    -- Of the pending requests of a valid processor, `Dequeue` leaves exactly those that are of
    -- another key or do not satisfy the predicate, whichever worker they wait at.
    pub pending-dequeue :
        (f : RetryRequest → Bool) (p : RetryProcessor)
        → IsValid heap hash p
        → count f (pending (dequeue heap hash key predicate p).workers)
          ≡ count (λ r. f r && not (taken_out key predicate r)) (pending p.workers)
    unfolding dequeue shard
    pending-dequeue f p v =
        pending_at_shard f p.worker_count 0 (hash key % p.worker_count) p.workers (omega arith)
          v.shards

  pub dequeue_all-dequeue :
      (key : String) (p : RetryProcessor)
      → dequeue_all heap hash key p ≡ dequeue heap hash key none p
  unfolding dequeue_all
  dequeue_all-dequeue key p = refl

  no_key_left :
      (key : String) (q : List RetryRequest)
      → count (λ r. r.key == key && not (taken_out key none r)) q ≡ 0
  unfolding taken_out
  no_key_left key [] = refl
  no_key_left key (r ∷ q) = ground (arith, no_key_left key q)

  -- After `DequeueAll` no request of the key is pending anywhere.
  pub pending-dequeue_all :
      (key : String) (p : RetryProcessor)
      → IsValid heap hash p
      → count (λ r. r.key == key) (pending (dequeue_all heap hash key p).workers) ≡ 0
  unfolding dequeue_all
  pending-dequeue_all key p v =
      pending-dequeue key none (λ r. r.key == key) p v ∙ no_key_left key (pending p.workers)
