-- ===== src/Operator/Reconciler/Tests.antt =====
-- The theorems about `OpinionatedReconciler` at concrete inputs.
use grafana_app_sdk.Base.{[], ◌∷◌, ◌≡◌, refl, true, none, some, arith}
use grafana_app_sdk.Operator.Io.{
  outside, finalizer_operation, reconcile, ReconcileAction, created, updated, deleted,
  ReconcileRequest,
}
use grafana_app_sdk.Resource.Object.{Object}
use grafana_app_sdk.Operator.Trace.{Grows}
use grafana_app_sdk.Operator.Finalizers.{remove_finalizer}
use grafana_app_sdk.Operator.Samples.{object_with, is_409, racing, broken, failing}
use grafana_app_sdk.Operator.Reconciler.Calls.{delegation, IsClientCall, reconcile-delegates}
use grafana_app_sdk.Operator.Reconciler.Retry.{
  answered, reconcile_incomplete, delete_delegated_once,
}
use grafana_app_sdk.Operator.Reconciler

abbrev guard : Reconciler.OpinionatedReconciler
guard = record { reconciler = true; finalizer = "f" }

abbrev asked : ReconcileAction → Object → ReconcileRequest
asked a o = record { action = a; object = o; state = none }

abbrev fresh : Object
fresh = object_with ("x" ∷ []) none

abbrev doomed : Object
doomed = object_with ("f" ∷ []) (some 3)

reconcile-delegates_example :
    Grows IsClientCall
      (delegation racing guard (asked updated doomed) [] (some deleted))
      (Reconciler.reconcile is_409 racing guard (asked updated doomed) []).1
unfolding Reconciler.state_has
reconcile-delegates_example = reconcile-delegates is_409 racing guard (asked updated doomed) []

reconcile_incomplete_example :
    Reconciler.reconcile is_409 failing guard (asked created fresh) [] ≡ (
      answered (failing [] (reconcile (asked created fresh))),
      (reconcile (asked created fresh), failing [] (reconcile (asked created fresh))) ∷ [],
    )
unfolding Reconciler.state_has
reconcile_incomplete_example =
    reconcile_incomplete is_409 failing guard (asked created fresh) [] created refl refl
      (λ d. ground arith)

delete_delegated_once_example :
    Grows IsClientCall []
      (Reconciler.reconcile is_409 broken guard
        (record {
          action = updated;
          object = doomed;
          state =
              (Reconciler.reconcile is_409 broken guard (asked updated doomed) []).0.result.state;
        })
        []).1
unfolding Reconciler.reconcile Reconciler.reconcile_deleted Reconciler.wrapped_reconcile
    Reconciler.patch_if_done Reconciler.state_has remove_finalizer
delete_delegated_once_example =
    delete_delegated_once is_409 broken guard (asked updated doomed) []
      (finalizer_operation (outside 500) _) doomed [] refl refl refl (refl, refl) refl refl
