-- ===== src/Operator/Controller/Handlers/Equivalence.antt =====
-- The events of an informer, with the retries at a processor and in the legacy map.
use grafana_app_sdk.Base.{
  ℕ, ◌+◌, String, List, [], ◌∷◌, ◌≡◌, refl, sym, ap, subst, Option, none, some,
}
use grafana_app_sdk.Operator.Action.{
  ResourceAction, create, update, delete, reconcile_action_from_resource_action,
}
use grafana_app_sdk.Operator.Events.{
  Pointer, Objects, EventRequest, EventCall, watcher_add, watcher_update, watcher_delete,
}
use grafana_app_sdk.Operator.ListMap.{range}
use grafana_app_sdk.Operator.Controller.{
  Platform, World, key_for_watcher_event, key_for_reconciler_event, handle_watcher, do_reconcile,
  dequeue_if_required,
}
use grafana_app_sdk.Operator.Controller.Stores.{Alike, dequeue-Alike}
use grafana_app_sdk.Operator.Controller.Stores.Steps.{handle_watcher-Alike, do_reconcile-Alike}
use grafana_app_sdk.Operator.Controller.Handlers.{
  watch_all, reconcile_all, handle_reconciler, informer_add_func, informer_update_func,
  informer_delete_func, update_action,
}

module _ (platform : Platform) (m : platform.retries.Map) where
  -- Two worlds that are alike have the same objects and the same handlers.
  same_view :
      (u v : World platform)
      → Alike platform m u v
      → (v.objects ≡ u.objects)
        × (v.controller.watchers ≡ u.controller.watchers)
        × (v.controller.reconcilers ≡ u.controller.reconcilers)
        × (v.history ≡ u.history)
  same_view u v (p, e, same, valid, holds) = (
    ap (λ (w : World platform). w.objects) same,
    ap (λ (w : World platform). w.controller.watchers) same,
    ap (λ (w : World platform). w.controller.reconcilers) same,
    ap (λ (w : World platform). w.history) same,
  )

  watch_all-Alike :
      (kind : String) (func : ℕ → EventCall) (action : ResourceAction) (ref : Pointer) (i : ℕ)
      (hs : List ℕ) (u v : World platform)
      → Alike platform m u v
      → Alike platform m
          (watch_all platform kind func action ref i hs u)
          (watch_all platform kind func action ref i hs v)
  unfolding watch_all
  watch_all-Alike kind func action ref i [] u v a = a
  watch_all-Alike kind func action ref i (h ∷ hs) u v a =
      watch_all-Alike kind func action ref (i + 1) hs _ _ (
        subst
          (λ (o : Objects).
            Alike platform m
              (handle_watcher platform
                (key_for_watcher_event platform.itoa kind i (some (u.objects ref))) (func h) action
                ref u)
              (handle_watcher platform (key_for_watcher_event platform.itoa kind i (some (o ref)))
                (func h) action ref v))
          (sym ((same_view u v a).0))
          (handle_watcher-Alike platform m
            (key_for_watcher_event platform.itoa kind i (some (u.objects ref))) (func h) action ref
            u v a))

  handle_reconciler-Alike :
      (kind : String) (action : ResourceAction) (ref : Pointer) (i h : ℕ) (u v : World platform)
      → Alike platform m u v
      → Alike platform m
          (handle_reconciler platform kind action ref i h u)
          (handle_reconciler platform kind action ref i h v)
  unfolding handle_reconciler
  handle_reconciler-Alike kind action ref i h u v a =
      let req : EventRequest = record {
        action = reconcile_action_from_resource_action action;
        object = ref;
        state = none;
      } in
      let step = λ (k : String) (w : World platform).
        do_reconcile platform h req k (dequeue_if_required platform k ref action w) in
      let key = λ (o : Objects). key_for_reconciler_event platform.itoa kind i (some (o ref)) in
      subst (λ (o : Objects). Alike platform m (step (key u.objects) u) (step (key o) v))
        (sym ((same_view u v a).0))
        (do_reconcile-Alike platform m h req (key u.objects)
          (dequeue_if_required platform (key u.objects) ref action u)
          (dequeue_if_required platform (key u.objects) ref action v)
          (dequeue-Alike platform m (key u.objects) ref action u v a))

  reconcile_all-Alike :
      (kind : String) (action : Objects → ResourceAction) (ref : Pointer) (i : ℕ) (hs : List ℕ)
      (u v : World platform)
      → Alike platform m u v
      → Alike platform m
          (reconcile_all platform kind action ref i hs u)
          (reconcile_all platform kind action ref i hs v)
  unfolding reconcile_all
  reconcile_all-Alike kind action ref i [] u v a = a
  reconcile_all-Alike kind action ref i (h ∷ hs) u v a =
      reconcile_all-Alike kind action ref (i + 1) hs _ _ (
        subst
          (λ (o : Objects).
            Alike platform m (handle_reconciler platform kind (action u.objects) ref i h u)
              (handle_reconciler platform kind (action o) ref i h v))
          (sym ((same_view u v a).0))
          (handle_reconciler-Alike kind (action u.objects) ref i h u v a))

  -- The two phases of an event.
  abbrev phases :
      String
      → (ℕ → EventCall)
      → ResourceAction
      → (Objects → ResourceAction)
      → Pointer
      → World platform
      → World platform
  phases kind func action reconciled ref w =
      let watched =
        watch_all platform kind func action ref 0
          (range platform.handlers w.controller.watchers kind) w in
      reconcile_all platform kind reconciled ref 0
        (range platform.handlers watched.controller.reconcilers kind) watched

  phases-Alike :
      (kind : String) (func : ℕ → EventCall) (action : ResourceAction)
      (reconciled : Objects → ResourceAction) (ref : Pointer) (u v : World platform)
      → Alike platform m u v
      → Alike platform m
          (phases kind func action reconciled ref u)
          (phases kind func action reconciled ref v)
  phases-Alike kind func action reconciled ref u v a =
      let ws = λ (w : World platform). range platform.handlers w.controller.watchers kind in
      let rs = λ (w : World platform). range platform.handlers w.controller.reconcilers kind in
      let watch = watch_all platform kind func action ref 0 in
      let watched =
        subst (λ hs. Alike platform m (watch (ws u) u) (watch hs v))
          (sym (ap (λ c. range platform.handlers c kind) ((same_view u v a).1)))
          (watch_all-Alike kind func action ref 0 (ws u) u v a) in
      let u' = watch (ws u) u in
      let v' = watch (ws v) v in
      let reconciled_all = reconcile_all platform kind reconciled ref 0 in
      subst (λ hs. Alike platform m (reconciled_all (rs u') u') (reconciled_all hs v'))
        (sym (ap (λ c. range platform.handlers c kind) ((same_view u' v' watched).2)))
        (reconcile_all-Alike kind reconciled ref 0 (rs u') u' v' watched)

  -- Where retries wait makes no difference to an event. Take two controllers that are alike but
  -- for this: one keeps its retries in the legacy map, and the other at a retry processor, with the
  -- same retries under each key. Then each of the three event functions gives the same error in
  -- both, makes the same calls in both, and leaves them alike again.
  pub events-Alike :
      (kind : String) (old new : Option Pointer) (u v : World platform)
      → Alike platform m u v
      → ((informer_add_func platform kind new v).0 ≡ (informer_add_func platform kind new u).0)
        × Alike platform m
            (informer_add_func platform kind new u).1
            (informer_add_func platform kind new v).1
        × ((informer_update_func platform kind old new v).0
            ≡ (informer_update_func platform kind old new u).0)
        × Alike platform m
            (informer_update_func platform kind old new u).1
            (informer_update_func platform kind old new v).1
        × ((informer_delete_func platform kind new v).0
            ≡ (informer_delete_func platform kind new u).0)
        × Alike platform m
            (informer_delete_func platform kind new u).1
            (informer_delete_func platform kind new v).1
  unfolding informer_add_func informer_update_func informer_delete_func
  events-Alike kind old none u v a = (refl, a, refl, a, refl, a)
  events-Alike kind old (some ref) u v a = (
    refl,
    phases-Alike kind (λ h. watcher_add h ref) create (λ o. create) ref u v a,
    refl,
    phases-Alike kind (λ h. watcher_update h old ref) update (update_action platform old ref) ref u
        v a,
    refl,
    phases-Alike kind (λ h. watcher_delete h ref) delete (λ o. delete) ref u v a,
  )
