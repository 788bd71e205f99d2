-- ===== src/Operator/Controller/Handlers.antt =====
-- operator/informer_controller.go: the three functions that the controller gives to an informer.
-- A nil object is `none`.
use grafana_app_sdk.Base.{ℕ, ◌+◌, String, List, [], ◌∷◌, Option, none, some, if◌then◌else◌, ◌==◌}
use grafana_app_sdk.Resource.Object.{Object}
use grafana_app_sdk.Operator.Io.{Err, message}
use grafana_app_sdk.Operator.Action.{
  ResourceAction, create, update, delete, resync, reconcile_action_from_resource_action,
}
use grafana_app_sdk.Operator.Events.{
  Pointer, Objects, EventRequest, EventCall, watcher_add, watcher_update, watcher_delete,
}
use grafana_app_sdk.Operator.ListMap.{range}
use grafana_app_sdk.Operator.Controller.{
  Platform, World, key_for_watcher_event, key_for_reconciler_event, handle_watcher, do_reconcile,
  dequeue_if_required,
}
pub mod Order
pub mod Equivalence

module _ (platform : Platform) where
  open platform use {handlers, itoa}

  -- The watchers of a kind in order, from index `i` on.
  pub watch_all :
      String
      → (ℕ → EventCall)
      → ResourceAction
      → Pointer
      → ℕ
      → List ℕ
      → World platform
      → World platform
  unfolding handle_watcher
  watch_all kind func action ref i [] w = w
  watch_all kind func action ref i (h ∷ hs) w = watch_all kind func action ref (i + 1) hs (
      handle_watcher platform (key_for_watcher_event itoa kind i (some (w.objects ref))) (func h)
        action ref w)

  -- What the three functions do for one reconciler.
  pub handle_reconciler :
      String → ResourceAction → Pointer → ℕ → ℕ → World platform → World platform
  handle_reconciler kind action ref i h w =
      let key = key_for_reconciler_event itoa kind i (some (w.objects ref)) in
      let req : EventRequest = record {
        action = reconcile_action_from_resource_action action;
        object = ref;
        state = none;
      } in
      do_reconcile platform h req key (dequeue_if_required platform key ref action w)

  -- The reconcilers of a kind in order; the action is looked at again for each.
  pub reconcile_all :
      String → (Objects → ResourceAction) → Pointer → ℕ → List ℕ → World platform → World platform
  unfolding handle_reconciler
  reconcile_all kind action ref i [] w = w
  reconcile_all kind action ref i (h ∷ hs) w =
      reconcile_all kind action ref (i + 1) hs (handle_reconciler kind (action w.objects) ref i h w)

  abbrev pub err_nil_object : Err
  err_nil_object = message "object cannot be nil"

  pub informer_add_func : String → Option Pointer → World platform → Option Err × World platform
  informer_add_func kind none w = (some err_nil_object, w)
  informer_add_func kind (some ref) w =
      let watched =
        watch_all kind (λ h. watcher_add h ref) create ref 0
          (range handlers w.controller.watchers kind) w in
      (
        none,
        reconcile_all kind (λ o. create) ref 0 (range handlers watched.controller.reconcilers kind)
            watched,
      )

  -- An update that leaves the resource version is a resync for reconcilers.
  abbrev pub update_action : Option Pointer → Pointer → Objects → ResourceAction
  update_action none new objects = update
  update_action (some old) new objects =
      if (objects old).resource_version == (objects new).resource_version then resync else update

  pub informer_update_func :
      String → Option Pointer → Option Pointer → World platform → Option Err × World platform
  informer_update_func kind old none w = (some err_nil_object, w)
  informer_update_func kind old (some new) w =
      let watched =
        watch_all kind (λ h. watcher_update h old new) update new 0
          (range handlers w.controller.watchers kind) w in
      (
        none,
        reconcile_all kind (update_action old new) new 0
            (range handlers watched.controller.reconcilers kind) watched,
      )

  pub informer_delete_func : String → Option Pointer → World platform → Option Err × World platform
  informer_delete_func kind none w = (some err_nil_object, w)
  informer_delete_func kind (some ref) w =
      let watched =
        watch_all kind (λ h. watcher_delete h ref) delete ref 0
          (range handlers w.controller.watchers kind) w in
      (
        none,
        reconcile_all kind (λ o. delete) ref 0 (range handlers watched.controller.reconcilers kind)
            watched,
      )
