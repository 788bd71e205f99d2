-- ===== src/Operator/Controller/Stores.antt =====
-- The two places where retries wait, the retry processor and the legacy map, hold the same retries.
use grafana_app_sdk.Base.{
  ℕ, suc, ◌+◌, String, List, [], ◌∷◌, ◌++◌, ◌≡◌, refl, sym, ap, subst, ◌∙◌, Bool, true, false, not,
  ◌&&◌, Option, none, some, inl, inr, if◌then◌else◌, Bool-cases, Option-cases, ◌==◌, ==_comm,
  ==_cases, eq_iff, eq_refl, count, count-append, count_same, count-filter, filter, arith,
}
use grafana_app_sdk.Operator.Io.{Err}
use grafana_app_sdk.Operator.Action.{ResourceAction, resource_action_from_reconcile_action}
use grafana_app_sdk.Operator.Events.{Pointer, EventRequest, EventCall}
use grafana_app_sdk.Operator.ListMap.{range, remove_items, remove_key, add_item}
use grafana_app_sdk.Operator.ListMap.Laws.{removed-filter, add_item-remove_key}
use grafana_app_sdk.Operator.Retry.{RetryRequest, RetryDequeuePolicy}
use grafana_app_sdk.Operator.Retry.Worker.{taken_out}
use grafana_app_sdk.Operator.Retry.Processor.{
  RetryProcessor, pending, enqueue, dequeue, dequeue_all,
}
use grafana_app_sdk.Operator.Retry.Processor.Shards.{IsValid, enqueue-IsValid, dequeue-IsValid}
use grafana_app_sdk.Operator.Retry.Processor.Pending.{
  pending-enqueue, pending-dequeue, dequeue_all-dequeue,
}
use grafana_app_sdk.Operator.Controller.{
  Platform, World, RetryInfo, taken_by, set_processor, set_retries, dequeue_if_required, add_retry,
  queue_retry, report, handle_watcher, do_reconcile, event_call, with_state,
}
pub mod Steps

-- A request of the processor as an entry of the legacy map.
abbrev pub info : RetryRequest → RetryInfo
info r = record {
  retry_after = r.retry_after;
  retry_func = r.retry_func;
  attempt = r.attempt;
  action = r.action;
  object = r.object;
  err = r.last_error;
}

abbrev pub entry : String → (RetryInfo → Bool) → RetryRequest → Bool
entry k g r = r.key == k && g (info r)

and_true : (b : Bool) → b ≡ (b && true)
and_true true = refl
and_true false = refl

-- An entry that is left, seen from either side.
left_entry :
    (key k : String) (taken : RetryInfo → Bool) (predicate : Option (RetryRequest → Bool))
    (g : RetryInfo → Bool)
    → ((r : RetryRequest) → taken_out key predicate r ≡ (r.key == key && taken (info r)))
    → (r : RetryRequest)
    → entry k (λ x. g x && not ((key == k) && taken x)) r
      ≡ (entry k g r && not (taken_out key predicate r))
left_entry key k taken predicate g same r = elim (==_cases r.key k) [
  | inl e ↦ rw (same r) (
      subst
        (λ j.
          (r.key == j && (g (info r) && not ((key == j) && taken (info r))))
          ≡ ((r.key == j && g (info r)) && not (r.key == key && taken (info r))))
        e (rw (eq_refl r.key) (rw (==_comm key r.key) refl)))
  | inr e ↦ rw e refl
]

module _ (platform : Platform) where
  open platform use {retries, heap, hash}

  -- Under each key the map and the processor have the same retries.
  abbrev pub Holds : retries.Map → RetryProcessor → Type 0
  Holds m p =
      (k : String) (g : RetryInfo → Bool)
      → count g (range retries m k) ≡ count (entry k g) (pending p.workers)

  -- What is left in the map and in the processor when the retries of a key go that a policy takes.
  dequeued-Holds :
      (m m' : retries.Map) (p : RetryProcessor) (key : String) (taken : RetryInfo → Bool)
      (predicate : Option (RetryRequest → Bool))
      → IsValid heap hash p
      → ((r : RetryRequest) → taken_out key predicate r ≡ (r.key == key && taken (info r)))
      → ((k : String)
          → range retries m' k ≡ filter (λ x. not ((key == k) && taken x)) (range retries m k))
      → Holds m p
      → Holds m' (dequeue heap hash key predicate p)
  dequeued-Holds m m' p key taken predicate v same left h k g =
      ap (count g) (left k)
      ∙ count-filter g (λ x. not ((key == k) && taken x)) (range retries m k)
      ∙ h k (λ x. g x && not ((key == k) && taken x))
      ∙ count_same (entry k (λ x. g x && not ((key == k) && taken x)))
          (λ r. entry k g r && not (taken_out key predicate r))
          (left_entry key k taken predicate g same) (pending p.workers)
      ∙ sym (pending-dequeue heap hash key predicate (entry k g) p v)

  -- A new retry, in the map and in the processor.
  added-Holds :
      (m : retries.Map) (p : RetryProcessor) (r : RetryRequest)
      → IsValid heap hash p
      → Holds m p
      → Holds (add_item retries m r.key (info r ∷ [])) (enqueue heap hash r p)
  added-Holds m p r v h k g = elim (Bool-cases (r.key == k)) [
    | inl e ↦
        ap (count g) ((add_item-remove_key retries m r.key k (info r ∷ [])).0)
        ∙ rw e (
            count-append g (range retries m k) (info r ∷ [])
            ∙ ground (arith, pending-enqueue heap hash (entry k g) r p v, h k g))
    | inr e ↦
        ap (count g) ((add_item-remove_key retries m r.key k (info r ∷ [])).0)
        ∙ rw e (h k g ∙ ground (arith, pending-enqueue heap hash (entry k g) r p v))
  ]

  -- The world with its retries at a processor, and a legacy map that no step uses.
  abbrev pub pooled : World platform → RetryProcessor → retries.Map → World platform
  pooled w p m = record w {
    controller = record w.controller { retry_processor = some p; to_retry = m };
  }

  -- The two worlds differ only in where the retries wait, and have the same ones.
  abbrev pub Alike : retries.Map → World platform → World platform → Type 0
  Alike m u v =
      (p : RetryProcessor) × (u.controller.retry_processor ≡ none)
      × (v ≡ pooled u p m)
      × IsValid heap hash p
      × Holds u.controller.to_retry p

  abbrev taken_info :
      RetryDequeuePolicy → World platform → ResourceAction → Pointer → RetryInfo → Bool
  taken_info policy w action ref r =
      taken_by platform policy w.objects action ref r.action r.object r.err

  abbrev taken_request :
      RetryDequeuePolicy → World platform → ResourceAction → Pointer → Option (RetryRequest → Bool)
  taken_request policy w action ref =
      some (λ r. taken_by platform policy w.objects action ref r.action r.object r.last_error)

  module _ (m : retries.Map) where
    -- It is enough to look at a world in this form.
    pub from_pooled :
        (step : World platform → World platform) (u v : World platform)
        → ((p : RetryProcessor)
            → u.controller.retry_processor ≡ none
            → IsValid heap hash p
            → Holds u.controller.to_retry p
            → Alike m (step u) (step (pooled u p m)))
        → Alike m u v
        → Alike m (step u) (step v)
    from_pooled step u v f (p, e, same, valid, holds) =
        subst (λ x. Alike m (step u) (step x)) (sym same) (f p e valid holds)

    pub dequeue-Alike :
        (key : String) (ref : Pointer) (action : ResourceAction) (u v : World platform)
        → Alike m u v
        → Alike m
            (dequeue_if_required platform key ref action u)
            (dequeue_if_required platform key ref action v)
    unfolding dequeue_if_required set_processor set_retries taken_out
    dequeue-Alike key ref action u v =
        from_pooled (dequeue_if_required platform key ref action) u v (λ p e valid holds.
          elim (Option-cases u.controller.retry_dequeue_policy) [
            | inl n ↦
                rw (e, dequeue_if_required)
                  (rw (n, dequeue_if_required)
                    (
                      dequeue heap hash key none p,
                      e,
                      ap (λ q. pooled u q m) (dequeue_all-dequeue heap hash key p),
                      dequeue-IsValid heap hash p valid key none,
                      dequeued-Holds u.controller.to_retry
                          (remove_key retries u.controller.to_retry key) p key (λ x. true) none
                          valid (λ r. and_true (r.key == key))
                          (λ k. (removed-filter retries u.controller.to_retry key k (λ x. true)).1)
                          holds,
                    ))
            | inr (policy, s) ↦
                rw (e, dequeue_if_required)
                  (rw (s, dequeue_if_required)
                    (
                      dequeue heap hash key (taken_request policy u action ref) p,
                      e,
                      refl,
                      dequeue-IsValid heap hash p valid key (taken_request policy u action ref),
                      dequeued-Holds u.controller.to_retry
                          (remove_items retries u.controller.to_retry key
                            (taken_info policy u action ref) 0).0
                          p key (taken_info policy u action ref) (taken_request policy u action ref)
                          valid (λ r. refl)
                          (λ k.
                            (removed-filter retries u.controller.to_retry key k
                              (taken_info policy u action ref)).0)
                          holds,
                    ))
          ])

    pub add_retry-Alike :
        (key : String) (after : ℕ) (func : EventCall) (action : ResourceAction) (ref : Pointer)
        (x : Option Err) (u v : World platform)
        → Alike m u v
        → Alike m
            (add_retry platform key after func action ref x u)
            (add_retry platform key after func action ref x v)
    unfolding add_retry set_processor set_retries
    add_retry-Alike key after func action ref x u v =
        from_pooled (add_retry platform key after func action ref x) u v (λ p e valid holds.
          let r : RetryRequest = record {
            key = key;
            retry_after = platform.outside.clock u.history + after;
            retry_func = func;
            attempt = 0;
            action = action;
            object = ref;
            last_error = x;
          } in
          rw (e, add_retry)
            (
              enqueue heap hash r p,
              e,
              refl,
              enqueue-IsValid heap hash p valid r,
              added-Holds u.controller.to_retry p r valid holds,
            ))

    pub queue_retry-Alike :
        (key : String) (x : Err) (func : EventCall) (action : ResourceAction) (ref : Pointer)
        (u v : World platform)
        → Alike m u v
        → Alike m
            (queue_retry platform key x func action ref u)
            (queue_retry platform key x func action ref v)
    unfolding queue_retry
    queue_retry-Alike key x func action ref u v =
        from_pooled (queue_retry platform key x func action ref) u v (λ p e valid holds.
          let alike : Alike m u (pooled u p m) = (p, e, refl, valid, holds) in
          elim (Option-cases u.controller.retry_policy) [
            | inl n ↦ rw (n, queue_retry) alike
            | inr (policy, s) ↦ elim (Bool-cases (policy x 0).0) [
              | inl b ↦
                  rw (s, queue_retry)
                    (rw b (
                      add_retry-Alike key (policy x 0).1 func action ref (some x) u (pooled u p m)
                        alike))
              | inr b ↦ rw (s, queue_retry) (rw b alike)
            ]
          ])

    -- A call changes the history and the objects only, in the same way in both worlds.
    pub event_call-Alike :
        (c : EventCall) (u : World platform) (p : RetryProcessor)
        → u.controller.retry_processor ≡ none
        → IsValid heap hash p
        → Holds u.controller.to_retry p
        → Alike m (event_call platform c u).1 (event_call platform c (pooled u p m)).1
    unfolding event_call
    event_call-Alike c u p e valid holds = (p, e, refl, valid, holds)

    pub report-Alike :
        (x : Err) (u v : World platform)
        → Alike m u v
        → Alike m (report platform x u) (report platform x v)
    unfolding report event_call
    report-Alike x u v = from_pooled (report platform x) u v (λ p e valid holds.
        elim (Bool-cases u.controller.error_handler) [
          | inl b ↦ rw b (p, e, refl, valid, holds)
          | inr b ↦ rw b (p, e, refl, valid, holds)
        ])
