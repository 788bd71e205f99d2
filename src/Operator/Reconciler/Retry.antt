-- ===== src/Operator/Reconciler/Retry.antt =====
-- Failures, retries and successes of `OpinionatedReconciler`.
use grafana_app_sdk.Base.{
  String, [], ◌∷◌, ◌≡◌, Bool, true, false, ◌||◌, none, some, inl, inr, contains, if◌then◌else◌,
  Bool-cases, arith, eq_refl,
}
use grafana_app_sdk.Resource.Object.{Object}
use grafana_app_sdk.Operator.Io.{
  Err, Any, State, ReconcileAction, deleted, ReconcileRequest, Call, Response, Env, Log, Io,
  Outcome,
}
use grafana_app_sdk.Operator.Trace.{Grows}
use grafana_app_sdk.Operator.Finalizers.{add_finalizer, remove_finalizer}
use grafana_app_sdk.Operator.Finalizers.Patches.{IsPatchServer}
use grafana_app_sdk.Operator.Finalizers.Retries.{contains-add_finalizer, contains-remove_finalizer}
use grafana_app_sdk.Operator.Reconciler.Calls.{delegated_action, IsClientCall, reconcile-delegates}
use grafana_app_sdk.Operator.Reconciler.{
  OpinionatedReconciler, ReconcileResult, Reconciled, has_key, state_has, insert, set_state,
  patch_add_state_key, patch_remove_state_key, is_set, is_created, is_updated, is_deleted,
  wrapped_reconcile, patch_if_done, reconcile_deleted, reconcile_created, reconcile_unguarded,
  reconcile_live, reconcile,
}

has_key-insert : (k : String) (v : Any) (s : State) → has_key k (insert k v s) ≡ true
unfolding has_key insert
has_key-insert k v [] = ground (arith, eq_refl k)
has_key-insert k v ((j, x) ∷ s) = ground (arith, eq_refl k, has_key-insert k v s)

state_has-set_state :
    (res : ReconcileResult) (k : String) (e : Err) → state_has (set_state res k e).state k ≡ true
unfolding state_has set_state
state_has-set_state res k e = has_key-insert k _ _

-- The answer of the wrapped reconciler is neither an error nor a wish to be called again.
abbrev pub IsDone : Response → Type 0
IsDone r = (r.error ≡ none) × (r.requeue_after ≡ none)

-- What the reconciler hands back when it hands back the answer of the wrapped one.
abbrev pub answered : Response → Reconciled
answered r = record {
  result = record { requeue_after = r.requeue_after; state = r.state };
  error = r.error;
  object = r.object;
}

module _ (is_conflict : Err → Bool) (env : Env) (o : OpinionatedReconciler) where
  -- Where the wrapped reconciler is called and fails or asks to be called again, its answer is
  -- handed back as it is, and no other call is made: the finalizers stay.
  pub reconcile_incomplete :
      (request : ReconcileRequest) (w : Log) (a : ReconcileAction)
      → o.reconciler ≡ true
      → delegated_action o request ≡ some a
      → ¬ IsDone (env w (Call.reconcile (record request { action = a })))
      → reconcile is_conflict env o request w ≡ (
        answered (env w (Call.reconcile (record request { action = a }))),
        (
          Call.reconcile (record request { action = a }),
          env w (Call.reconcile (record request { action = a })),
        )
            ∷ w,
      )
  unfolding reconcile reconcile_live reconcile_deleted reconcile_created wrapped_reconcile
      patch_if_done
  reconcile_incomplete request w a s d n = ground arith

  patch_failure_noted :
      (key : String) (patch : Object → Io Outcome) (x : Reconciled × Log) (e : Err)
      → x.0.error ≡ none
      → x.0.result.requeue_after ≡ none
      → (patch_if_done is_conflict env key patch x).0.error ≡ some e
      → state_has (patch_if_done is_conflict env key patch x).0.result.state key ≡ true
  unfolding patch_if_done
  patch_failure_noted key patch (done, w) e a b h =
      ground (arith, state_has-set_state done.result key e)

  wrapped_done :
      (request : ReconcileRequest) (w : Log)
      → IsDone (env w (Call.reconcile request))
      → ((wrapped_reconcile is_conflict env o request w).0.error ≡ none)
        × ((wrapped_reconcile is_conflict env o request w).0.result.requeue_after ≡ none)
  unfolding wrapped_reconcile
  wrapped_done request w h = ground arith

  -- The call of the wrapped reconciler, left out where the state has the key.
  abbrev attempt : String → ReconcileRequest → ReconcileRequest → Log → Reconciled × Log
  attempt key request delegated w =
      if state_has request.state key
      then (
        record {
          result = record { requeue_after = none; state = none };
          error = none;
          object = request.object;
        },
        w,
      )
      else wrapped_reconcile is_conflict env o delegated w

  no_delegation :
      (request : ReconcileRequest) (v : Log)
      → delegated_action o request ≡ none
      → Grows IsClientCall v (reconcile is_conflict env o request v).1
  no_delegation request v h = rw h at (reconcile-delegates is_conflict env o request v)

  -- A finalizer that could not be removed after a successful delete: the next attempt with the
  -- state that was handed back makes calls of the client only, so the wrapped reconciler does not
  -- see the deletion twice.
  pub delete_delegated_once :
      (request : ReconcileRequest) (w : Log) (e : Err) (x : Object) (v : Log)
      → is_deleted request.action ≡ false
      → is_set request.object.deletion_timestamp ≡ true
      → contains request.object.finalizers o.finalizer ≡ true
      → IsDone (env w (Call.reconcile (record request { action = deleted })))
      → (reconcile is_conflict env o request w).0.error ≡ some e
      → is_set x.deletion_timestamp ≡ true
      → Grows IsClientCall v
          (reconcile is_conflict env o
            (record request {
              object = x;
              state = (reconcile is_conflict env o request w).0.result.state;
            })
            v).1
  delete_delegated_once request w e x v a d c done h xd = no_delegation _ v (ground (arith, noted))
    where
      same : reconcile is_conflict env o request w ≡ reconcile_deleted is_conflict env o request w
      same = unfold reconcile in ground arith

      noted :
          state_has (reconcile is_conflict env o request w).0.result.state patch_remove_state_key
          ≡ true
      noted = rw same (
          unfold reconcile_deleted in
          patch_failure_noted patch_remove_state_key
            (λ y. remove_finalizer is_conflict env y o.finalizer)
            (attempt patch_remove_state_key request (record request { action = deleted }) w) e
            (ground (arith, wrapped_done (record request { action = deleted }) w))
            (ground (arith, wrapped_done (record request { action = deleted }) w)) (rw same at h))

  -- A finalizer that could not be added after a successful create: the next attempt with the
  -- state that was handed back makes calls of the client only, so the wrapped reconciler does not
  -- see the creation twice. The object may not have got the finalizer in another way meanwhile.
  pub create_delegated_once :
      (request : ReconcileRequest) (w : Log) (e : Err) (x : Object) (v : Log)
      → is_created request.action ≡ true
      → is_set request.object.deletion_timestamp ≡ false
      → contains request.object.finalizers o.finalizer ≡ false
      → IsDone (env w (Call.reconcile request))
      → (reconcile is_conflict env o request w).0.error ≡ some e
      → is_set x.deletion_timestamp ≡ false
      → contains x.finalizers o.finalizer ≡ false
      → Grows IsClientCall v
          (reconcile is_conflict env o
            (record request {
              object = x;
              state = (reconcile is_conflict env o request w).0.result.state;
            })
            v).1
  create_delegated_once request w e x v a d c done h xd xc =
      no_delegation _ v (ground (arith, noted))
    where
      same : reconcile is_conflict env o request w ≡ reconcile_created is_conflict env o request w
      same = unfold reconcile reconcile_live in ground arith

      noted :
          state_has (reconcile is_conflict env o request w).0.result.state patch_add_state_key
          ≡ true
      noted = rw same (
          unfold reconcile_created in
          patch_failure_noted patch_add_state_key (λ y. add_finalizer is_conflict env y o.finalizer)
            (attempt patch_add_state_key request request w) e
            (ground (arith, wrapped_done request w)) (ground (arith, wrapped_done request w))
            (rw same at h))

  patched_success :
      (key : String) (patch : Object → Io Outcome) (x : Reconciled × Log)
      → (patch_if_done is_conflict env key patch x).0.error ≡ none
      → (patch_if_done is_conflict env key patch x).0.result.requeue_after ≡ none
      → ((patch x.0.object x.1).0.1 ≡ none)
        × ((patch_if_done is_conflict env key patch x).0.object ≡ (patch x.0.object x.1).0.0)
  unfolding patch_if_done set_state
  patched_success key patch (done, w) h r = (ground arith, ground arith)

  module _ (server : IsPatchServer env) where
    -- A request for the creation or an update of an object without the finalizer that ends with
    -- neither an error nor a wish to be called again leaves an object that has the finalizer, on
    -- an API server that applies JSON patches.
    pub reconcile_guards :
        (request : ReconcileRequest) (w : Log)
        → (is_created request.action || is_updated request.action) ≡ true
        → is_set request.object.deletion_timestamp ≡ false
        → contains request.object.finalizers o.finalizer ≡ false
        → (reconcile is_conflict env o request w).0.error ≡ none
        → (reconcile is_conflict env o request w).0.result.requeue_after ≡ none
        → contains (reconcile is_conflict env o request w).0.object.finalizers o.finalizer ≡ true
    reconcile_guards request w a d c h r = elim (Bool-cases (is_created request.action)) [
      | inl new ↦ created_guards new
      | inr old ↦ updated_guards old
    ]
      where
        Guarded : Type 0
        Guarded =
            contains (reconcile is_conflict env o request w).0.object.finalizers o.finalizer ≡ true

        created_guards : is_created request.action ≡ true → Guarded
        created_guards new =
            let done = attempt patch_add_state_key request request w in
            unfold reconcile reconcile_live reconcile_created in
            ground (
              arith,
              contains-add_finalizer is_conflict env server done.0.object o.finalizer done.1,
              patched_success patch_add_state_key (λ y. add_finalizer is_conflict env y o.finalizer)
                  done,
            )

        updated_guards : is_created request.action ≡ false → Guarded
        updated_guards old =
            unfold reconcile reconcile_live reconcile_unguarded in
            ground
              (arith, contains-add_finalizer is_conflict env server request.object o.finalizer w)

    -- A request for an object that is being deleted and has the finalizer, unless its action is
    -- the deletion itself, leaves an object without the finalizer if it ends with neither an error
    -- nor a wish to be called again, on an API server that applies JSON patches.
    pub reconcile_releases :
        (request : ReconcileRequest) (w : Log)
        → is_deleted request.action ≡ false
        → is_set request.object.deletion_timestamp ≡ true
        → contains request.object.finalizers o.finalizer ≡ true
        → (reconcile is_conflict env o request w).0.error ≡ none
        → (reconcile is_conflict env o request w).0.result.requeue_after ≡ none
        → contains (reconcile is_conflict env o request w).0.object.finalizers o.finalizer ≡ false
    unfolding reconcile reconcile_deleted
    reconcile_releases request w a d c h r =
        let done = attempt patch_remove_state_key request (record request { action = deleted }) w in
        ground (
          arith,
          contains-remove_finalizer is_conflict env server done.0.object o.finalizer done.1,
          patched_success patch_remove_state_key
              (λ y. remove_finalizer is_conflict env y o.finalizer) done,
        )
