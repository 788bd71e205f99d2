-- ===== src/Operator/Reconciler.antt =====
-- operator/reconciler.go: the reconciler that guards each object by a finalizer. The wrapped
-- reconciler is outside code, reached by a call. Logging and spans are left out.
use Prim.Native.String
use grafana_app_sdk.Base.{
  ℕ, String, List, [], ◌∷◌, Bool, true, false, not, ◌&&◌, ◌||◌, Option, none, some, ltb, contains,
  if◌then◌else◌, ◌==◌,
}
use grafana_app_sdk.Resource.Object.{Object}
use grafana_app_sdk.Operator.Io.{
  Err, Any, State, ReconcileAction, created, updated, deleted, resynced, unknown, ReconcileRequest,
  Call, Env, Log, Io, Outcome,
}
use grafana_app_sdk.Operator.Finalizers.{add_finalizer, remove_finalizer}
pub mod Calls
pub mod Retry
mod Tests

pub record ReconcileResult : Type 0 where
  pub requeue_after : Option ℕ
  pub state : Option State

-- The result and the error of `Reconcile`, with the request's object after it.
pub record Reconciled : Type 0 where
  pub result : ReconcileResult
  pub error : Option Err
  pub object : Object

pub record OpinionatedReconciler : Type 0 where
  pub reconciler : Bool  -- whether `Reconciler` is set
  pub finalizer : String

pub data NewReconciler : Type 0 where
  made : OpinionatedReconciler → NewReconciler
  refused : String → NewReconciler

-- `client` says that the client is not nil.
pub new_opinionated_reconciler : Bool → String → NewReconciler
new_opinionated_reconciler client finalizer =
    if not client
    then refused "client cannot be nil"
    else (if finalizer == ""
        then refused "finalizer cannot be empty"
        else (if ltb 63 (String.len finalizer)
            then refused "finalizer length cannot exceed 63 chars"
            else made (record { reconciler = false; finalizer = finalizer })))

abbrev pub patch_add_state_key : String
patch_add_state_key = "grafana-app-sdk-opinionated-reconciler-create-patch-status"

abbrev pub patch_remove_state_key : String
patch_remove_state_key = "grafana-app-sdk-opinionated-reconciler-delete-patch-status"

has_key : String → State → Bool
has_key k [] = false
has_key k ((j, v) ∷ s) = j == k || has_key k s

-- `request.State != nil && request.State[key] != nil`.
pub state_has : Option State → String → Bool
unfolding has_key
state_has none k = false
state_has (some s) k = has_key k s

insert : String → Any → State → State
insert k v [] = (k, v) ∷ []
insert k v ((j, x) ∷ s) = if j == k then (k, v) ∷ s else (j, x) ∷ insert k v s

-- `res.State[key] = err`, on a new map if there is none.
set_state : ReconcileResult → String → Err → ReconcileResult
unfolding insert
set_state res k e = record res {
  state = some (insert k (Any.error e) (elim res.state [ none ↦ [] | some s ↦ s ]));
}

abbrev pub is_set : Option ℕ → Bool
is_set none = false
is_set (some t) = true

abbrev pub is_created : ReconcileAction → Bool
is_created created = true
is_created _ = false

abbrev pub is_updated : ReconcileAction → Bool
is_updated updated = true
is_updated _ = false

abbrev pub is_deleted : ReconcileAction → Bool
is_deleted deleted = true
is_deleted _ = false

abbrev empty_result : ReconcileResult
empty_result = record { requeue_after = none; state = none }

abbrev returns : ReconcileResult → Option Err → Object → Reconciled
returns res e object = record { result = res; error = e; object = object }

-- The state key, and the error of the finalizer patch, added to the result.
abbrev with_patch_error : String → ReconcileResult → Outcome → Reconciled
with_patch_error key res (object, none) = returns res none object
with_patch_error key res (object, some e) = returns (set_state res key e) (some e) object

module _ (is_conflict : Err → Bool) (env : Env) where
  pub wrapped_reconcile : OpinionatedReconciler → ReconcileRequest → Io Reconciled
  wrapped_reconcile o request w =
      if o.reconciler
      then (
        (let r = env w (Call.reconcile request) in
            returns (record { requeue_after = r.requeue_after; state = r.state }) r.error r.object),
        (Call.reconcile request, env w (Call.reconcile request)) ∷ w,
      )
      else (returns empty_result none request.object, w)

  -- `if err != nil || res.RequeueAfter != nil { return res, err }`, and the patch otherwise.
  patch_if_done : String → (Object → Io Outcome) → Reconciled × Log → Reconciled × Log
  patch_if_done key patch (done, w) = elim done.error [
    | some e ↦ (done, w)
    | none ↦ elim done.result.requeue_after [
      | some t ↦ (done, w)
      | none ↦ (with_patch_error key done.result (patch done.object w).0, (patch done.object w).1)
    ]
  ]

  -- The object is being deleted and waits for the finalizer.
  reconcile_deleted : OpinionatedReconciler → ReconcileRequest → Io Reconciled
  reconcile_deleted o request w =
      let remove = λ (x : Object). remove_finalizer is_conflict env x o.finalizer in
      patch_if_done patch_remove_state_key remove (
        if state_has request.state patch_remove_state_key
        then (returns empty_result none request.object, w)
        else wrapped_reconcile o (record request { action = deleted }) w)

  -- A new object, without the finalizer.
  reconcile_created : OpinionatedReconciler → ReconcileRequest → Io Reconciled
  reconcile_created o request w =
      let add = λ (x : Object). add_finalizer is_conflict env x o.finalizer in
      patch_if_done patch_add_state_key add (
        if state_has request.state patch_add_state_key
        then (returns empty_result none request.object, w)
        else wrapped_reconcile o request w)

  -- An update of an object without the finalizer.
  reconcile_unguarded : OpinionatedReconciler → ReconcileRequest → Io Reconciled
  reconcile_unguarded o request w =
      let out = add_finalizer is_conflict env request.object o.finalizer w in
      (returns empty_result out.0.1 out.0.0, out.1)

  reconcile_live : OpinionatedReconciler → ReconcileRequest → Io Reconciled
  reconcile_live o request w =
      let guarded = contains request.object.finalizers o.finalizer in
      if is_created request.action && guarded
      then wrapped_reconcile o (record request { action = resynced }) w
      else (if is_created request.action
          then reconcile_created o request w
          else (if is_updated request.action && not guarded
              then reconcile_unguarded o request w
              else wrapped_reconcile o request w))

  pub reconcile : OpinionatedReconciler → ReconcileRequest → Io Reconciled
  reconcile o request w =
      if is_deleted request.action
      then (returns empty_result none request.object, w)
      else (if is_set request.object.deletion_timestamp
            && contains request.object.finalizers o.finalizer
          then reconcile_deleted o request w
          else (if is_set request.object.deletion_timestamp
              then (returns empty_result none request.object, w)
              else reconcile_live o request w))
