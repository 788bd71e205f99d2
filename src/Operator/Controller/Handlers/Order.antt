-- ===== src/Operator/Controller/Handlers/Order.antt =====
-- Each event reaches every handler of its kind once, in the order of registration.
use grafana_app_sdk.Base.{
  ℕ, ◌+◌, String, List, [], ◌∷◌, ◌++◌, ◌≡◌, refl, subst, false, Option, none, some, if◌then◌else◌,
  map, ◌==◌,
}
use grafana_app_sdk.Operator.Action.{
  ResourceAction, create, update, delete, resync, reconcile_action_from_resource_action,
}
use grafana_app_sdk.Operator.Events.{
  Pointer, EventRequest, EventCall, watcher_add, watcher_update, watcher_delete, Objects,
}
use grafana_app_sdk.Operator.ListMap.{range}
use grafana_app_sdk.Operator.Controller.{
  Platform, World, dequeue_if_required, handle_watcher, do_reconcile, key_for_watcher_event,
  key_for_reconciler_event,
}
use grafana_app_sdk.Operator.Controller.Delivery.{
  is_report, Delivers, Delivers-trans, Silent-Delivers, dequeue-Silent, handle_watcher-Delivers,
  do_reconcile-Delivers,
}
use grafana_app_sdk.Operator.Controller.Handlers.{
  watch_all, handle_reconciler, reconcile_all, informer_add_func, informer_update_func,
  informer_delete_func, update_action,
}

-- The calls of reconcilers for an action on an object.
abbrev pub reconcile_calls : ResourceAction → Pointer → List ℕ → List EventCall
reconcile_calls action ref = map (λ h.
    EventCall.reconcile h (record {
      action = reconcile_action_from_resource_action action;
      object = ref;
      state = none;
    }))

-- What an update is for a reconciler: a resync if the old and the new object have the same resource
-- version at the time, and an update if not or if there is no old object.
abbrev pub resync_or_update : Option Pointer → Pointer → Objects → ResourceAction
resync_or_update none ref o = update
resync_or_update (some old) ref o =
    if (o old).resource_version == (o ref).resource_version then resync else update

module _ (platform : Platform) where
  watch_all-Delivers :
      (kind : String) (func : ℕ → EventCall) (action : ResourceAction) (ref : Pointer) (i : ℕ)
      (hs : List ℕ) (w : World platform)
      → ((h : ℕ) → is_report (func h) ≡ false)
      → Delivers platform (map func hs) w (watch_all platform kind func action ref i hs w)
  unfolding watch_all
  watch_all-Delivers kind func action ref i [] w calls = (([], refl, refl, refl), refl)
  watch_all-Delivers kind func action ref i (h ∷ hs) w calls =
      let key = key_for_watcher_event platform.itoa kind i (some (w.objects ref)) in
      let next = handle_watcher platform key (func h) action ref w in
      Delivers-trans platform (func h ∷ []) (map func hs) w next
        (watch_all platform kind func action ref (i + 1) hs next)
        (handle_watcher-Delivers platform key (func h) action ref w (calls h))
        (watch_all-Delivers kind func action ref (i + 1) hs next calls)

  handle_reconciler-Delivers :
      (kind : String) (a : ResourceAction) (ref : Pointer) (i h : ℕ) (w : World platform)
      → Delivers platform
          (reconcile_calls a ref (h ∷ []))
          w
          (handle_reconciler platform kind a ref i h w)
  unfolding handle_reconciler
  handle_reconciler-Delivers kind a ref i h w =
      let key = key_for_reconciler_event platform.itoa kind i (some (w.objects ref)) in
      let ready = dequeue_if_required platform key ref a w in
      let req : EventRequest = record {
        action = reconcile_action_from_resource_action a;
        object = ref;
        state = none;
      } in
      Delivers-trans platform [] (EventCall.reconcile h req ∷ []) w ready
        (do_reconcile platform h req key ready)
        (Silent-Delivers platform w ready (dequeue-Silent platform key ref a w))
        (do_reconcile-Delivers platform h req key ready)

  -- One turn for each reconciler, in order: it gets one call, with the action for the objects as
  -- the calls before have left them.
  pub data Turns (action : Objects → ResourceAction) (ref : Pointer)
      : List ℕ → World platform → World platform → Type 0 where
    no_more : {w : World platform} → Turns action ref [] w w
    turn :
        {w u : World platform} {hs : List ℕ} (h : ℕ) (v : World platform)
        → Delivers platform (reconcile_calls (action w.objects) ref (h ∷ [])) w v
        → Turns action ref hs v u
        → Turns action ref (h ∷ hs) w u

  reconcile_all-Turns :
      (kind : String) (action : Objects → ResourceAction) (ref : Pointer) (i : ℕ) (hs : List ℕ)
      (w : World platform)
      → Turns action ref hs w (reconcile_all platform kind action ref i hs w)
  unfolding reconcile_all
  reconcile_all-Turns kind action ref i [] w = no_more
  reconcile_all-Turns kind action ref i (h ∷ hs) w =
      let next = handle_reconciler platform kind (action w.objects) ref i h w in
      turn h next (handle_reconciler-Delivers kind (action w.objects) ref i h w)
        (reconcile_all-Turns kind action ref (i + 1) hs next)

  -- Where all turns have one action, all calls are alike.
  Turns-Delivers :
      (a : ResourceAction) (ref : Pointer) (hs : List ℕ) (w u : World platform)
      → Turns (λ o. a) ref hs w u
      → Delivers platform (reconcile_calls a ref hs) w u
  Turns-Delivers a ref _ w _ no_more = (([], refl, refl, refl), refl)
  Turns-Delivers a ref (h ∷ hs) w u (turn _ v d rest) =
      Delivers-trans platform (reconcile_calls a ref (h ∷ [])) (reconcile_calls a ref hs) w v u d
        (Turns-Delivers a ref hs v u rest)

  -- The two phases of a handler: the watchers, then the reconcilers that are registered.
  phases-Turns :
      (kind : String) (func : ℕ → EventCall) (a : ResourceAction)
      (action : Objects → ResourceAction) (ref : Pointer) (ws : List ℕ) (w : World platform)
      → ((h : ℕ) → is_report (func h) ≡ false)
      → let watched = watch_all platform kind func a ref 0 ws w in
        Delivers platform (map func ws) w watched
        × Turns action ref (range platform.handlers w.controller.reconcilers kind) watched (
            reconcile_all platform kind action ref 0
              (range platform.handlers watched.controller.reconcilers kind)
              watched)
  phases-Turns kind func a action ref ws w calls =
      let watched = watch_all platform kind func a ref 0 ws w in
      let first = watch_all-Delivers kind func a ref 0 ws w calls in
      let rs = range platform.handlers watched.controller.reconcilers kind in
      (
        first,
        subst
            (λ m.
              Turns action ref (range platform.handlers m kind) watched
                (reconcile_all platform kind action ref 0 rs watched))
            (first.1) (reconcile_all-Turns kind action ref 0 rs watched),
      )

  phases-Delivers :
      (kind : String) (func : ℕ → EventCall) (a : ResourceAction) (ref : Pointer) (ws : List ℕ)
      (w : World platform)
      → ((h : ℕ) → is_report (func h) ≡ false)
      → let watched = watch_all platform kind func a ref 0 ws w in
        Delivers platform
          (map func ws
            ++ reconcile_calls a ref (range platform.handlers w.controller.reconcilers kind))
          w
          (reconcile_all platform kind
            (λ o. a)
            ref
            0
            (range platform.handlers watched.controller.reconcilers kind)
            watched)
  phases-Delivers kind func a ref ws w calls =
      let watched = watch_all platform kind func a ref 0 ws w in
      let rs = range platform.handlers w.controller.reconcilers kind in
      let after =
        reconcile_all platform kind (λ o. a) ref 0
          (range platform.handlers watched.controller.reconcilers kind) watched in
      let (d, t) = phases-Turns kind func a (λ o. a) ref ws w calls in
      Delivers-trans platform (map func ws) (reconcile_calls a ref rs) w watched after d
        (Turns-Delivers a ref rs watched after t)

  module _ (kind : String) (ref : Pointer) (w : World platform) where
    abbrev watchers_of : List ℕ
    watchers_of = range platform.handlers w.controller.watchers kind

    abbrev reconcilers_of : List ℕ
    reconcilers_of = range platform.handlers w.controller.reconcilers kind

    -- An add event and a delete event of an object call every watcher of the kind once, in the
    -- order of registration, and then every reconciler of the kind once, in the same way, whatever
    -- any of them answers. A handler that failed hides the event from no other one.
    pub informer_add_func-Delivers :
        Delivers platform
          (map (λ h. watcher_add h ref) watchers_of ++ reconcile_calls create ref reconcilers_of)
          w
          (informer_add_func platform kind (some ref) w).1
        × Delivers platform
            (map (λ h. watcher_delete h ref) watchers_of
              ++ reconcile_calls delete ref reconcilers_of)
            w
            (informer_delete_func platform kind (some ref) w).1
    unfolding informer_add_func informer_delete_func
    informer_add_func-Delivers = (
      phases-Delivers kind (λ h. watcher_add h ref) create ref watchers_of w (λ h. refl),
      phases-Delivers kind (λ h. watcher_delete h ref) delete ref watchers_of w (λ h. refl),
    )

    -- An update event calls every watcher of the kind once, in the order of registration, and then
    -- every reconciler of the kind once, in the same way, whatever any of them answers and does to
    -- the objects. A reconciler gets a resync if the two objects have the same resource version when
    -- its turn comes, after the calls before it, and an update if not.
    pub informer_update_func-Turns :
        (old : Option Pointer)
        → (v : World platform) × Delivers platform
            (map (λ h. watcher_update h old ref) watchers_of)
            w
            v
          × Turns
              (resync_or_update old ref)
              ref
              reconcilers_of
              v
              (informer_update_func platform kind old (some ref) w).1
    unfolding informer_update_func
    informer_update_func-Turns none =
        let watched =
          watch_all platform kind (λ h. watcher_update h none ref) update ref 0 watchers_of w in
        let (d, t) =
          phases-Turns kind (λ h. watcher_update h none ref) update (λ o. update) ref watchers_of w
            (λ h. refl) in
        (watched, d, t)
    informer_update_func-Turns (some old) =
        let func : ℕ → EventCall = λ h. watcher_update h (some old) ref in
        let watched = watch_all platform kind func update ref 0 watchers_of w in
        let (d, t) =
          phases-Turns kind func update (update_action platform (some old) ref) ref watchers_of w
            (λ h. refl) in
        (watched, d, t)
