-- ===== src/Operator/Controller.antt =====
-- operator/informer_controller.go: the informer controller, from the events of its informers on.
-- Watchers and reconcilers are outside code, known by numbers. Logging, spans and metrics are left out.
use Prim.Native.String
use grafana_app_sdk.Base.{
  ℕ, zero, suc, ◌+◌, String, List, [], ◌∷◌, Bool, true, false, not, ◌&&◌, Option, none, some,
  nat_eq, if◌then◌else◌, ◌==◌,
}
use grafana_app_sdk.Resource.Object.{Object}
use grafana_app_sdk.Operator.Io.{Err, State, message}
use grafana_app_sdk.Operator.Action.{
  ResourceAction, create, update, delete, resync, reconcile_action_from_resource_action,
  resource_action_from_reconcile_action,
}
use grafana_app_sdk.Operator.Events.{
  Pointer, Objects, EventRequest, EventCall, watcher_add, watcher_update, watcher_delete, Answer,
  History, Outside,
}
use grafana_app_sdk.Operator.ListMap.{MapOf, range, add_item, remove_key, remove_item, remove_items}
use grafana_app_sdk.Operator.Retry.{RetryPolicy, RetryDequeuePolicy, RetryRequest}
use grafana_app_sdk.Operator.Retry.Heap.{HeapPackage}
use grafana_app_sdk.Operator.Retry.Processor.{RetryProcessor, enqueue, dequeue, dequeue_all}
pub mod Handlers
pub mod Delivery
pub mod Ticker
pub mod Stores
mod Tests

pub record RetryInfo : Type 0 where
  pub retry_after : ℕ
  pub retry_func : EventCall
  pub attempt : ℕ
  pub action : ResourceAction
  pub object : Pointer
  pub err : Option Err

infixl 6 ◌colon◌
abbrev ◌colon◌ : String → String → String
a colon b = String.◌++◌ a (String.◌++◌ ":" b)

-- A nil object is `none`.
pub key_for_watcher_event : (ℕ → String) → String → ℕ → Option Object → String
key_for_watcher_event itoa kind i none = kind colon itoa i colon "nil" colon "nil"
key_for_watcher_event itoa kind i (some o) = kind colon itoa i colon o.namespace colon o.name

pub key_for_reconciler_event : (ℕ → String) → String → ℕ → Option Object → String
key_for_reconciler_event itoa kind i none =
    "reconcile" colon kind colon itoa i colon "nil" colon "nil"
key_for_reconciler_event itoa kind i (some o) =
    "reconcile" colon kind colon itoa i colon o.namespace colon o.name

-- Code outside the repository: `handlers` and `retries` are the `xsync.MapOf` under the lists of
-- handlers and of retries, `heap` is `container/heap`, `hash` is `xxhash.Sum64`, and `itoa` writes
-- a number in decimal, as `%d` does.
pub record Platform : Type 1 where
  pub handlers : MapOf (List ℕ)
  pub retries : MapOf (List RetryInfo)
  pub heap : HeapPackage
  pub hash : String → ℕ
  pub itoa : ℕ → String
  pub outside : Outside

module _ (platform : Platform) where
  open platform use {handlers, retries, heap, hash, itoa, outside}

  -- The fields that an event uses. The error handler is outside code: whether it is set.
  pub record Controller : Type 0 where
    pub error_handler : Bool
    pub retry_policy : Option RetryPolicy
    pub retry_dequeue_policy : Option RetryDequeuePolicy
    pub watchers : handlers.Map
    pub reconcilers : handlers.Map
    pub to_retry : retries.Map
    pub retry_processor : Option RetryProcessor

  -- The controller, the objects in memory and the calls so far.
  pub record World : Type 0 where
    pub controller : Controller
    pub objects : Objects
    pub history : History

  set_retries : World → retries.Map → World
  set_retries w m = record w { controller = record w.controller { to_retry = m } }

  set_processor : World → RetryProcessor → World
  set_processor w p = record w { controller = record w.controller { retry_processor = some p } }

  -- A nil handler is `none`.
  pub add_watcher : Option ℕ → String → Controller → Option Err × Controller
  add_watcher none kind c = (some (message "watcher cannot be nil"), c)
  add_watcher (some h) kind c =
      if kind == ""
      then (some (message "resourceKind cannot be empty"), c)
      else (none, record c { watchers = add_item handlers c.watchers kind (h ∷ []) })

  pub remove_watcher : ℕ → String → Controller → Controller
  remove_watcher h kind c = record c {
    watchers = (remove_item handlers c.watchers kind (λ x. nat_eq h x)).0;
  }

  pub remove_all_watchers_for_resource : String → Controller → Controller
  remove_all_watchers_for_resource kind c = record c {
    watchers = remove_key handlers c.watchers kind;
  }

  pub add_reconciler : Option ℕ → String → Controller → Option Err × Controller
  add_reconciler none kind c = (some (message "reconciler cannot be nil"), c)
  add_reconciler (some h) kind c =
      if kind == ""
      then (some (message "resourceKind cannot be empty"), c)
      else (none, record c { reconcilers = add_item handlers c.reconcilers kind (h ∷ []) })

  pub remove_reconciler : ℕ → String → Controller → Controller
  remove_reconciler h kind c = record c {
    reconcilers = (remove_item handlers c.reconcilers kind (λ x. nat_eq h x)).0;
  }

  pub remove_all_reconcilers_for_resource : String → Controller → Controller
  remove_all_reconcilers_for_resource kind c = record c {
    reconcilers = remove_key handlers c.reconcilers kind;
  }

  -- Whether the policy takes a queued retry out for a new action on an object.
  abbrev pub taken_by :
      RetryDequeuePolicy
      → Objects
      → ResourceAction
      → Pointer
      → ResourceAction
      → Pointer
      → Option Err
      → Bool
  taken_by policy objects action ref retry_action retry_ref e =
      policy action (objects ref) retry_action (objects retry_ref) e

  pub dequeue_if_required : String → Pointer → ResourceAction → World → World
  unfolding set_retries set_processor
  dequeue_if_required key ref action w = elim w.controller.retry_processor [
    | some p ↦ elim w.controller.retry_dequeue_policy [
      | some policy ↦ set_processor w (
          dequeue heap hash key
            (some (λ r. taken_by policy w.objects action ref r.action r.object r.last_error)) p)
      | none ↦ set_processor w (dequeue_all heap hash key p)
    ]
    | none ↦ elim w.controller.retry_dequeue_policy [
      | some policy ↦
          set_retries w
            (remove_items retries w.controller.to_retry key
              (λ r. taken_by policy w.objects action ref r.action r.object r.err) 0).0
      | none ↦ set_retries w (remove_key retries w.controller.to_retry key)
    ]
  ]

  pub event_call : EventCall → World → Answer × World
  event_call c w =
      let a = outside.call w.history c in
      (a, record w { objects = a.objects; history = (c, a) ∷ w.history })

  -- A retry after a time, counted from now, at the processor or in the legacy map.
  pub add_retry : String → ℕ → EventCall → ResourceAction → Pointer → Option Err → World → World
  unfolding set_retries set_processor
  add_retry key after func action ref e w =
      let at = outside.clock w.history + after in
      elim w.controller.retry_processor [
        | some p ↦ set_processor w (
            enqueue heap hash
              (record {
                key = key;
                retry_after = at;
                retry_func = func;
                attempt = 0;
                action = action;
                object = ref;
                last_error = e;
              })
              p)
        | none ↦ set_retries w (
            add_item retries w.controller.to_retry key (
              record {
                retry_after = at;
                retry_func = func;
                attempt = 0;
                action = action;
                object = ref;
                err = e;
              }
              ∷ []))
      ]

  pub queue_retry : String → Err → EventCall → ResourceAction → Pointer → World → World
  unfolding add_retry
  queue_retry key e func action ref w = elim w.controller.retry_policy [
    | none ↦ w
    | some policy ↦
        if (policy e 0).0 then add_retry key (policy e 0).1 func action ref (some e) w else w
  ]

  -- `c.ErrorHandler(ctx, err)`, if it is set.
  pub report : Err → World → World
  unfolding event_call
  report e w = if w.controller.error_handler then (event_call (EventCall.handle_error e) w).1 else w

  -- What the three functions do for one watcher, whose call is `func`.
  pub handle_watcher : String → EventCall → ResourceAction → Pointer → World → World
  unfolding dequeue_if_required event_call queue_retry report
  handle_watcher key func action ref w =
      let called = event_call func (dequeue_if_required key ref action w) in
      elim called.0.error [
        | none ↦ called.1
        | some e ↦ queue_retry key e func action ref (report e called.1)
      ]

  -- The request with the state of the answer, for the retries.
  abbrev pub with_state : EventRequest → Option State → EventRequest
  with_state req none = req
  with_state req (some s) = record req { state = some s }

  pub do_reconcile : ℕ → EventRequest → String → World → World
  unfolding event_call add_retry queue_retry report
  do_reconcile h req key w =
      let called = event_call (EventCall.reconcile h req) w in
      let action = resource_action_from_reconcile_action req.action in
      let again = EventCall.reconcile h (with_state req called.0.state) in
      elim called.0.requeue_after [
        | some after ↦ add_retry key after again action req.object called.0.error called.1
        | none ↦ elim called.0.error [
          | none ↦ called.1
          | some e ↦ queue_retry key e again action req.object (report e called.1)
        ]
      ]
