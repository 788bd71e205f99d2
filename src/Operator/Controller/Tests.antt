-- ===== src/Operator/Controller/Tests.antt =====
-- The theorems about the informer controller at concrete inputs.
use Prim.Native.String
use grafana_app_sdk.Base.{
  ℕ, List, [], ◌∷◌, ◌≡◌, refl, true, Option, none, some, nat_eq, if◌then◌else◌, sym, ap, count,
}
use grafana_app_sdk.Operator.Io.{Err, outside}
use grafana_app_sdk.Operator.Action.{create, delete}
use grafana_app_sdk.Operator.Events.{
  Objects, EventCall, watcher_add, watcher_update, watcher_delete, Answer,
}
use grafana_app_sdk.Operator.Samples.{object_with}
use grafana_app_sdk.Operator.ListMap.{range}
use grafana_app_sdk.Operator.ListMap.Association.{assoc}
use grafana_app_sdk.Operator.Retry.{opinionated_retry_dequeue_policy, RetryPolicy}
use grafana_app_sdk.Operator.Retry.SortedQueue.{sorted_queue}
use grafana_app_sdk.Operator.Controller.{Platform, World, RetryInfo}
use grafana_app_sdk.Operator.Retry.Processor.{
  RetryProcessor, RetryProcessorConfig, new_retry_processor,
}
use grafana_app_sdk.Operator.Retry.Processor.Shards.{new_retry_processor-IsValid}
use grafana_app_sdk.Operator.Retry.Processor.Pending.{pending-new_retry_processor}
use grafana_app_sdk.Operator.Controller.Stores.{Alike, pooled, entry}
use grafana_app_sdk.Operator.Controller.Handlers.Equivalence.{events-Alike}
use grafana_app_sdk.Operator.Controller.Delivery.{Delivers}
use grafana_app_sdk.Operator.Controller.Handlers.{
  informer_add_func, informer_update_func, informer_delete_func,
}
use grafana_app_sdk.Operator.Controller.Handlers.Order.{
  reconcile_calls, Turns, resync_or_update, informer_add_func-Delivers, informer_update_func-Turns,
}

abbrev objects : Objects
objects ref = record (object_with [] none) { generation = ref }

-- Watcher 1 fails to add, and reconciler 4 to reconcile; reconciler 5 asks for another call after a
-- time of 60.
abbrev error_of : EventCall → Option Err
error_of (watcher_add h ref) = if nat_eq h 1 then some (outside 500) else none
error_of (EventCall.reconcile h req) = if nat_eq h 4 then some (outside 500) else none
error_of _ = none

abbrev requeue_of : EventCall → Option ℕ
requeue_of (EventCall.reconcile h req) = if nat_eq h 5 then some 60 else none
requeue_of _ = none

abbrev answer_to : EventCall → Answer
answer_to c = record {
  error = error_of c;
  requeue_after = requeue_of c;
  state = none;
  objects = objects;
}

abbrev platform : Platform
platform = record {
  handlers = assoc (List ℕ);
  retries = assoc (List RetryInfo);
  heap = sorted_queue;
  hash = String.len;
  itoa = λ n. "0";
  outside = record { call = λ h c. answer_to c; clock = λ h. 100 };
}

abbrev once_more : RetryPolicy
once_more e attempt = (nat_eq attempt 0, 5)

abbrev world : World platform
world = record {
  controller = record {
    error_handler = true;
    retry_policy = some once_more;
    retry_dequeue_policy = some opinionated_retry_dequeue_policy;
    watchers = ("Issue", 1 ∷ 2 ∷ []) ∷ ("Other", 3 ∷ []) ∷ [];
    reconcilers = ("Issue", 4 ∷ 5 ∷ []) ∷ [];
    to_retry = [];
    retry_processor = none;
  };
  objects = objects;
  history = [];
}

informer_add_func-Delivers_example :
    Delivers platform
      (watcher_add 1 7 ∷ watcher_add 2 7 ∷ reconcile_calls create 7 (4 ∷ 5 ∷ []))
      world
      (informer_add_func platform "Issue" (some 7) world).1
    × Delivers platform
        (watcher_delete 1 7 ∷ watcher_delete 2 7 ∷ reconcile_calls delete 7 (4 ∷ 5 ∷ []))
        world
        (informer_delete_func platform "Issue" (some 7) world).1
unfolding range
informer_add_func-Delivers_example = informer_add_func-Delivers platform "Issue" 7 world

informer_update_func-Turns_example :
    (v : World platform) × Delivers platform
      (watcher_update 1 (some 6) 7 ∷ watcher_update 2 (some 6) 7 ∷ [])
      world
      v
    × Turns platform
        (resync_or_update (some 6) 7)
        7
        (4 ∷ 5 ∷ [])
        v
        (informer_update_func platform "Issue" (some 6) (some 7) world).1
unfolding range
informer_update_func-Turns_example = informer_update_func-Turns platform "Issue" 7 world (some 6)

abbrev config : RetryProcessorConfig
config = record { worker_pool_size = 2; check_interval = 0 }

abbrev processor : RetryProcessor
processor = new_retry_processor config (some once_more)

abbrev pooled_world : World platform
pooled_world = pooled platform world processor []

world-Alike : Alike platform [] world pooled_world
unfolding range
world-Alike = (
  processor,
  refl,
  refl,
  new_retry_processor-IsValid sorted_queue String.len config (some once_more),
  λ k g. ap (count (entry k g)) (sym (pending-new_retry_processor config (some once_more))),
)

events-Alike_example :
    ((informer_add_func platform "Issue" (some 7) pooled_world).0
      ≡ (informer_add_func platform "Issue" (some 7) world).0)
    × Alike platform []
        (informer_add_func platform "Issue" (some 7) world).1
        (informer_add_func platform "Issue" (some 7) pooled_world).1
    × ((informer_update_func platform "Issue" (some 6) (some 7) pooled_world).0
        ≡ (informer_update_func platform "Issue" (some 6) (some 7) world).0)
    × Alike platform []
        (informer_update_func platform "Issue" (some 6) (some 7) world).1
        (informer_update_func platform "Issue" (some 6) (some 7) pooled_world).1
    × ((informer_delete_func platform "Issue" (some 7) pooled_world).0
        ≡ (informer_delete_func platform "Issue" (some 7) world).0)
    × Alike platform []
        (informer_delete_func platform "Issue" (some 7) world).1
        (informer_delete_func platform "Issue" (some 7) pooled_world).1
events-Alike_example =
    events-Alike platform [] "Issue" (some 6) (some 7) world pooled_world world-Alike

abbrev waiting : ℕ → EventCall → RetryInfo
waiting time func = record {
  retry_after = time;
  retry_func = func;
  attempt = 0;
  action = create;
  object = 7;
  err = none;
}

abbrev busy_world : World platform
busy_world = record world {
  controller = record world.controller {
    to_retry = ("a", waiting 10 (watcher_add 1 7) ∷ waiting 60 (watcher_add 2 7) ∷ []) ∷ [];
  };
}
