-- ===== src/Operator/Reconciler/Calls.antt =====
-- Which requests `OpinionatedReconciler` hands to the reconciler that it wraps.
use grafana_app_sdk.Base.{
  String, ◌∷◌, ◌≡◌, refl, Bool, true, false, not, ◌&&◌, Option, none, some, inl, inr, contains,
  if◌then◌else◌, Bool-cases, Option-cases,
}
use grafana_app_sdk.Resource.Object.{Object}
use grafana_app_sdk.Operator.Io.{
  Err, ReconcileAction, deleted, resynced, ReconcileRequest, Call, patch_into, get_into, Env, Log,
  Io, Outcome,
}
use grafana_app_sdk.Operator.Trace.{Grows, stay, Grows-trans, AllowsClient}
use grafana_app_sdk.Operator.Finalizers.{add_finalizer, remove_finalizer}
use grafana_app_sdk.Operator.Finalizers.Calls.{add_finalizer-Grows, remove_finalizer-Grows}
use grafana_app_sdk.Operator.Reconciler.{
  OpinionatedReconciler, Reconciled, state_has, patch_add_state_key, patch_remove_state_key, is_set,
  is_created, is_updated, is_deleted, wrapped_reconcile, patch_if_done, reconcile_deleted,
  reconcile_created, reconcile_unguarded, reconcile_live, reconcile,
}

-- The action that the wrapped reconciler is given for a request, if it is called at all.
abbrev pub delegated_action : OpinionatedReconciler → ReconcileRequest → Option ReconcileAction
delegated_action o request =
    let guarded = contains request.object.finalizers o.finalizer in
    if is_deleted request.action
    then none
    else (if is_set request.object.deletion_timestamp && guarded
        then (if state_has request.state patch_remove_state_key then none else some deleted)
        else (if is_set request.object.deletion_timestamp
            then none
            else (if is_created request.action && guarded
                then some resynced
                else (if is_created request.action
                    then (if state_has request.state patch_add_state_key
                        then none
                        else some request.action)
                    else (if is_updated request.action && not guarded
                        then none
                        else some request.action)))))

-- The history with the call for this action, if there is one.
abbrev pub delegation :
    Env → OpinionatedReconciler → ReconcileRequest → Log → Option ReconcileAction → Log
delegation env o request w none = w
delegation env o request w (some a) =
    let c = Call.reconcile (record request { action = a }) in
    if o.reconciler then (c, env w c) ∷ w else w

abbrev pub IsClientCall : Call → Type 0
IsClientCall (patch_into o req) = Unit
IsClientCall (get_into o) = Unit
IsClientCall _ = ⊥

client : AllowsClient IsClientCall
client = (λ o req. tt, λ o. tt)

module _ (is_conflict : Err → Bool) (env : Env) where
  patch_if_done-Grows :
      (key : String) (patch : Object → Io Outcome) (x : Reconciled × Log)
      → ((o : Object) (w : Log) → Grows IsClientCall w (patch o w).1)
      → Grows IsClientCall x.1 (patch_if_done is_conflict env key patch x).1
  unfolding patch_if_done
  patch_if_done-Grows key patch (done, w) g = elim (Option-cases done.error) [
    | inr (e, h) ↦ rw (h, patch_if_done) stay
    | inl h ↦ elim (Option-cases done.result.requeue_after) [
      | inr (t, k) ↦ rw (h, patch_if_done) (rw k stay)
      | inl k ↦ rw (h, patch_if_done) (rw k (g done.object w))
    ]
  ]

  module _ (o : OpinionatedReconciler) (request : ReconcileRequest) (w : Log) where
    -- The result `x` comes from the history with the call for `a`, by calls of the client.
    Delegates : Option ReconcileAction → Reconciled × Log → Type 0
    Delegates a x = Grows IsClientCall (delegation env o request w a) x.1

    either :
        (a b : Option ReconcileAction) (x y : Reconciled × Log) (t : Bool)
        → (t ≡ true → Delegates a x)
        → (t ≡ false → Delegates b y)
        → Delegates (if t then a else b) (if t then x else y)
    either a b x y true f g = f refl
    either a b x y false f g = g refl

    delegated :
        (a : ReconcileAction)
        → Delegates (some a) (wrapped_reconcile is_conflict env o (record request { action = a }) w)
    unfolding wrapped_reconcile Delegates
    delegated a = elim (Bool-cases o.reconciler) [ inl e ↦ rw e stay | inr e ↦ rw e stay ]

    undelegated : (r : Reconciled) → Delegates none (r, w)
    unfolding Delegates
    undelegated r = stay

    patched :
        (key : String) (patch : Object → Io Outcome) (a : Option ReconcileAction)
        (x : Reconciled × Log)
        → ((v : Object) (u : Log) → Grows IsClientCall u (patch v u).1)
        → Delegates a x
        → Delegates a (patch_if_done is_conflict env key patch x)
    unfolding Delegates
    patched key patch a x g d = Grows-trans d (patch_if_done-Grows key patch x g)

    adds :
        (v : Object) (u : Log)
        → Grows IsClientCall u (add_finalizer is_conflict env v o.finalizer u).1
    adds v u = add_finalizer-Grows is_conflict env client v o.finalizer u

    removes :
        (v : Object) (u : Log)
        → Grows IsClientCall u (remove_finalizer is_conflict env v o.finalizer u).1
    removes v u = remove_finalizer-Grows is_conflict env client v o.finalizer u

    unguarded : Delegates none (reconcile_unguarded is_conflict env o request w)
    unfolding Delegates reconcile_unguarded
    unguarded = adds request.object w

  reconcile-Delegates :
      (o : OpinionatedReconciler) (request : ReconcileRequest) (w : Log)
      → Delegates o request w (delegated_action o request) (reconcile is_conflict env o request w)
  unfolding reconcile reconcile_live reconcile_deleted reconcile_created
  reconcile-Delegates o request w =
      either o request w _ _ _ _ (is_deleted request.action) (λ _. undelegated o request w _)
        (λ _.
          either o request w _ _ _ _
            (is_set request.object.deletion_timestamp
              && contains request.object.finalizers o.finalizer)
            (λ _. patched o request w _ _ _ _ (removes o request w) (
              either o request w _ _ _ _ (state_has request.state patch_remove_state_key)
                (λ _. undelegated o request w _) (λ _. delegated o request w deleted)))
            (λ _.
              either o request w _ _ _ _ (is_set request.object.deletion_timestamp)
                (λ _. undelegated o request w _)
                (λ _.
                  either o request w _ _ _ _
                    (is_created request.action && contains request.object.finalizers o.finalizer)
                    (λ _. delegated o request w resynced)
                    (λ _.
                      either o request w _ _ _ _ (is_created request.action)
                        (λ _. patched o request w _ _ _ _ (adds o request w) (
                          either o request w _ _ _ _ (state_has request.state patch_add_state_key)
                            (λ _. undelegated o request w _)
                            (λ _. delegated o request w request.action)))
                        (λ _.
                          either o request w _ _ _ _
                            (is_updated request.action
                              && not (contains request.object.finalizers o.finalizer))
                            (λ _. unguarded o request w)
                            (λ _. delegated o request w request.action))))))

  -- The wrapped reconciler is called at most once, before anything else, with the action that
  -- `delegated_action` gives and the rest of the request as it was; every other call is one of the
  -- client.
  pub reconcile-delegates :
      (o : OpinionatedReconciler) (request : ReconcileRequest) (w : Log)
      → Grows IsClientCall
          (delegation env o request w (delegated_action o request))
          (reconcile is_conflict env o request w).1
  unfolding Delegates
  reconcile-delegates o request w = reconcile-Delegates o request w
