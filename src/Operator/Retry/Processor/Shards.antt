-- ===== src/Operator/Retry/Processor/Shards.antt =====
-- Every request waits at the worker of its key, in a queue in heap order.
use grafana_app_sdk.Base.{
  ℕ, zero, suc, ◌+◌, ◌%◌, ◌≤◌, ◌<◌, ◌≡◌, refl, ap, subst, sym, ◌∙◌, String, List, [], ◌∷◌, Bool,
  false, not, inl, inr, nat_eq, Option, length, filter, count, count-perm, count-append, map,
  modify, length-modify, Bool-cases, Option-cases, arith,
}
use grafana_app_sdk.Operator.Retry.{RetryRequest, RetryPolicy}
use grafana_app_sdk.Operator.Retry.Heap.{HeapPackage}
use grafana_app_sdk.Operator.Retry.Worker.{Result, requeued, take_ready, taken_out}
use grafana_app_sdk.Operator.Retry.Worker.Ready.{take_ready-Splits}
use grafana_app_sdk.Operator.Retry.Worker.Requeue.{all_requeued, requeued-key, requeue_all-perm}
use grafana_app_sdk.Operator.Retry.Worker.Dequeue.{dequeue_from-perm}
use grafana_app_sdk.Operator.Retry.Processor.{
  RetryProcessorConfig, RetryWorker, RetryProcessor, replicate, new_retry_processor, shard, enqueue,
  dequeue, process_ready, on_wake, on_tick,
}

pub count-filter-le {ℓ} :
    {A : Type ℓ} (p f : A → Bool) (xs : List A) → count p (filter f xs) ≤ count p xs
count-filter-le p f [] = omega arith
count-filter-le p f (x ∷ xs) = ground (arith, count-filter-le p f xs)

-- A call's result is about the request that was called.
abbrev pub IsOwnResult : (RetryRequest → Result) → Type 0
IsOwnResult call = (r : RetryRequest) → (call r).request ≡ r

module _ (heap : HeapPackage) (hash : String → ℕ) where
  open heap use {push, IsHeap, empty-IsHeap, push-perm, push-IsHeap}

  -- The request belongs to another worker than the one at `i`.
  abbrev pub is_stray : ℕ → ℕ → RetryRequest → Bool
  is_stray n i r = not (nat_eq (hash r.key % n) i)

  abbrev pub IsShard : ℕ → ℕ → RetryWorker → Type 0
  IsShard n i w = IsHeap w.queue × (count (is_stray n i) w.queue ≡ 0)

  abbrev pub Shards : ℕ → ℕ → List RetryWorker → Type 0
  Shards n i [] = Unit
  Shards n i (w ∷ ws) = IsShard n i w × Shards n (suc i) ws

  pub record IsValid (p : RetryProcessor) : Type 0 where
    pub counted : length p.workers ≡ p.worker_count
    pub some_worker : 0 < p.worker_count
    pub shards : Shards p.worker_count 0 p.workers

  modify-Shards :
      (f : RetryWorker → RetryWorker) (n k i j : ℕ) (ws : List RetryWorker)
      → j ≡ i + k
      → ((w : RetryWorker) → IsShard n j w → IsShard n j (f w))
      → Shards n i ws
      → Shards n i (modify k f ws)
  modify-Shards f n k i j [] e step s = tt
  modify-Shards f n zero i j (w ∷ ws) e step s = (
    subst (λ m. IsShard n m (f w)) same (step w (subst (λ m. IsShard n m w) (sym same) s.0)),
    s.1,
  )
    where
      same : j ≡ i
      same = omega arith
  modify-Shards f n (suc k) i j (w ∷ ws) e step s =
      (s.0, modify-Shards f n k (suc i) j ws (omega arith) step s.1)

  replicate-Shards : (n i k : ℕ) (w : RetryWorker) → w.queue ≡ [] → Shards n i (replicate k w)
  unfolding replicate
  replicate-Shards n i zero w e = tt
  replicate-Shards n i (suc k) w e =
      ((subst IsHeap (sym e) empty-IsHeap, ground arith), replicate-Shards n (suc i) k w e)

  length-replicate : (k : ℕ) (w : RetryWorker) → length (replicate k w) ≡ k
  unfolding replicate
  length-replicate zero w = refl
  length-replicate (suc k) w = omega (arith, length-replicate k w)

  all_requeued_stray :
      (call : RetryRequest → Result) (policy : Option RetryPolicy) (n i : ℕ) (q : List RetryRequest)
      → IsOwnResult call
      → count (is_stray n i) (all_requeued policy (map call q)) ≤ count (is_stray n i) q
  all_requeued_stray call policy n i [] own = omega arith
  all_requeued_stray call policy n i (r ∷ q) own =
      let rest = all_requeued_stray call policy n i q own in
      elim (Option-cases (requeued policy (call r))) [
        | inl e ↦ rw (e, all_requeued) (ground (arith, rest))
        | inr (s, e) ↦
            let same : s.key ≡ r.key = requeued-key policy (call r) s e ∙ ap (λ x. x.key) (own r) in
            rw (e, all_requeued) (ground (arith, rest, same))
      ]

  process_ready-IsShard :
      (call : RetryRequest → Result) (policy : Option RetryPolicy) (now n i : ℕ) (w : RetryWorker)
      → IsOwnResult call
      → IsShard n i w
      → IsShard n i (process_ready heap hash call policy now w)
  unfolding process_ready
  process_ready-IsShard call policy now n i w own s =
      let split = take_ready-Splits heap now w.queue s.0 in
      let back =
        requeue_all-perm heap policy (map call (take_ready heap now w.queue).0)
          (take_ready heap now w.queue).1 split.ordered in
      (
        back.1,
        omega (
          arith,
          count-perm (is_stray n i) back.0,
          count-append (is_stray n i)
              (all_requeued policy (map call (take_ready heap now w.queue).0))
              (take_ready heap now w.queue).1,
          count-perm (is_stray n i) split.same,
          count-append (is_stray n i) (take_ready heap now w.queue).0
              (take_ready heap now w.queue).1,
          all_requeued_stray call policy n i (take_ready heap now w.queue).0 own,
        ),
      )

  -- A new processor is valid.
  pub new_retry_processor-IsValid :
      (cfg : RetryProcessorConfig) (policy : Option RetryPolicy)
      → IsValid (new_retry_processor cfg policy)
  unfolding new_retry_processor
  new_retry_processor-IsValid cfg policy = record {
    counted = length-replicate _ _;
    some_worker = ground arith;
    shards = replicate-Shards _ 0 _ _ refl;
  }

  module _ (p : RetryProcessor) (valid : IsValid p) where
    modify-IsValid :
        (f : RetryWorker → RetryWorker) (k : ℕ)
        → ((w : RetryWorker) → IsShard p.worker_count k w → IsShard p.worker_count k (f w))
        → IsValid (record p { workers = modify k f p.workers })
    modify-IsValid f k step = record {
      counted = length-modify k f p.workers ∙ valid.counted;
      some_worker = valid.some_worker;
      shards = modify-Shards f p.worker_count k 0 k p.workers (omega arith) step valid.shards;
    }

    pub enqueue-IsValid : (r : RetryRequest) → IsValid (enqueue heap hash r p)
    unfolding enqueue shard
    enqueue-IsValid r = modify-IsValid _ (hash r.key % p.worker_count) (λ w s. (
      push-IsHeap w.queue r s.0,
      ground (
        arith,
        s.1,
        count-perm (is_stray p.worker_count (hash r.key % p.worker_count)) (push-perm w.queue r),
      ),
    ))

    pub dequeue-IsValid :
        (key : String) (predicate : Option (RetryRequest → Bool))
        → IsValid (dequeue heap hash key predicate p)
    unfolding dequeue
    dequeue-IsValid key predicate = modify-IsValid _ (shard heap hash p key) (λ w s.
        let left = dequeue_from-perm heap key predicate w.queue s.0 in
        (
          left.1,
          omega (
            arith,
            count-perm (is_stray p.worker_count (shard heap hash p key)) left.0,
            count-filter-le (is_stray p.worker_count (shard heap hash p key))
                (λ r. not (taken_out key predicate r)) w.queue,
          ),
        ))

    module _ (call : RetryRequest → Result) (own : IsOwnResult call) (now i : ℕ) where
      on_tick-IsValid : IsValid (on_tick heap hash call now i p)
      unfolding on_tick
      on_tick-IsValid =
          modify-IsValid _ i
            (λ w s. process_ready-IsShard call p.policy now p.worker_count i w own s)

      on_wake-IsValid : IsValid (on_wake heap hash call now i p)
      unfolding on_wake
      on_wake-IsValid = modify-IsValid _ i (λ w s. elim (Bool-cases w.wake) [
        | inl e ↦ rw e (
            process_ready-IsShard call p.policy now p.worker_count i (record w { wake = false }) own
              s)
        | inr e ↦ rw e s
      ])

  -- Each operation keeps a processor valid: the number of workers is the one that requests are
  -- spread over, every request waits at the worker of its key, and each queue is in heap order.
  -- The call of a worker's requests has results about those requests.
  pub operations-IsValid :
      (p : RetryProcessor) (r : RetryRequest) (key : String)
      (predicate : Option (RetryRequest → Bool)) (call : RetryRequest → Result) (now i : ℕ)
      → IsOwnResult call
      → IsValid p
      → IsValid (enqueue heap hash r p)
        × IsValid (dequeue heap hash key predicate p)
        × IsValid (on_wake heap hash call now i p)
        × IsValid (on_tick heap hash call now i p)
  operations-IsValid p r key predicate call now i own v = (
    enqueue-IsValid p v r,
    dequeue-IsValid p v key predicate,
    on_wake-IsValid p v call own now i,
    on_tick-IsValid p v call own now i,
  )
