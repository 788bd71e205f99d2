-- ===== src/Operator/Finalizers.antt =====
-- operator/finalizers.go: adding, replacing and removing a finalizer by JSON patches, with a few
-- more attempts on a conflict. The waits between attempts are left out.
-- `is_conflict` is `apierrors.IsConflict`, which this package imports.
use grafana_app_sdk.Base.{
  ℕ, zero, suc, String, List, [], ◌∷◌, Bool, true, false, not, Option, none, some, ltb, length,
  contains, filter, if◌then◌else◌, ◌==◌,
}
use grafana_app_sdk.Resource.Object.{Object}
use grafana_app_sdk.Resource.Patch.{PatchOp, PatchPath, PatchValue, PatchOperation, PatchRequest}
use grafana_app_sdk.Operator.Io.{
  Err, errorf, finalizer_operation, Call, Response, Env, Io, pure, ◌>>=◌, perform, Outcome,
}
pub mod Patches
pub mod Retries
pub mod Calls
pub mod Quiet
mod Tests

-- Go's `slices.Index`, which returns -1 for an absent text. It is called on a list that holds the
-- text; for an absent one this returns the length.
pub index : List String → String → ℕ
index [] s = 0
index (x ∷ xs) s = if x == s then 0 else suc (index xs s)

replace_version : Object → PatchOperation
replace_version o = record {
  operation = PatchOp.replace;
  path = PatchPath.resource_version;
  value = PatchValue.text o.resource_version;
}

patch : PatchOperation → Object → PatchRequest
unfolding replace_version
patch op o = record { operations = op ∷ replace_version o ∷ [] }

add_request : Object → String → PatchRequest
unfolding patch
add_request o finalizer =
    if ltb 0 (length o.finalizers)
    then patch
        (record {
          operation = PatchOp.add;
          path = PatchPath.finalizers_end;
          value = PatchValue.text finalizer;
        })
        o
    else patch
        (record {
          operation = PatchOp.add;
          path = PatchPath.finalizers;
          value = PatchValue.texts (finalizer ∷ []);
        })
        o

replace_request : Object → String → String → PatchRequest
unfolding patch index
replace_request o to_replace replace_with =
    patch
      (record {
        operation = PatchOp.replace;
        path = PatchPath.finalizer_at (index o.finalizers to_replace);
        value = PatchValue.text replace_with;
      })
      o

abbrev pub without : List String → String → List String
without fs f = filter (λ g. not (g == f)) fs

remove_request : Object → String → PatchRequest
unfolding patch
remove_request o finalizer =
    patch
      (record {
        operation = PatchOp.replace;
        path = PatchPath.finalizers;
        value = PatchValue.texts (without o.finalizers finalizer);
      })
      o

abbrev wrap_patch_error : PatchRequest → Option Err → Option Err
wrap_patch_error req none = none
wrap_patch_error req (some e) = some (finalizer_operation e req)

-- `client.PatchInto`, with its error wrapped by `NewFinalizerOperationError`.
patch_into : Env → Object → PatchRequest → Io Outcome
patch_into env o req = do
  r ← perform env (Call.patch_into o req)
  pure (r.object, wrap_patch_error req r.error)

unfoldable pub do_add_finalizer : Env → Object → String → Io Outcome
unfolding patch_into add_request
do_add_finalizer env o finalizer w =
    if contains o.finalizers finalizer
    then ((o, none), w)
    else patch_into env o (add_request o finalizer) w

unfoldable pub do_remove_finalizer : Env → Object → String → Io Outcome
unfolding patch_into remove_request
do_remove_finalizer env o finalizer w =
    if contains o.finalizers finalizer
    then patch_into env o (remove_request o finalizer) w
    else ((o, none), w)

-- The branch for an absent `to_replace` adds `to_replace`, as the code does.
unfoldable pub do_replace_finalizer : Env → Object → String → String → Io Outcome
unfolding patch_into replace_request do_add_finalizer do_remove_finalizer
do_replace_finalizer env o to_replace replace_with w =
    if contains o.finalizers replace_with
    then (if contains o.finalizers to_replace
        then do_remove_finalizer env o to_replace w
        else ((o, none), w))
    else (if contains o.finalizers to_replace
        then patch_into env o (replace_request o to_replace replace_with) w
        else do_add_finalizer env o to_replace w)

module _ (is_conflict : Err → Bool) (env : Env) where
  -- The loop of the three operations, over the attempts that are left: an object that is out of
  -- date is read again before the next attempt.
  unfoldable pub retry_on_conflict : (Object → Io Outcome) → ℕ → Outcome → Io Outcome
  retry_on_conflict attempt zero out w = (out, w)
  retry_on_conflict attempt (suc n) (o, none) w = ((o, none), w)
  retry_on_conflict attempt (suc n) (o, some e) w = elim (is_conflict e) [
    | false ↦ ((o, some e), w)
    | true ↦
        let got = perform env (Call.get_into o) w in
        elim got.0.error [
          | some e' ↦ (
            (got.0.object, some (errorf "unable to get updated object to add finalizer: %w" e')),
            got.1,
          )
          | none ↦
              let next = attempt got.0.object got.1 in retry_on_conflict attempt n next.0 next.1
        ]
  ]

  unfoldable pub add_finalizer : Object → String → Io Outcome
  unfolding retry_on_conflict do_add_finalizer
  add_finalizer o finalizer w =
      let first = do_add_finalizer env o finalizer w in
      retry_on_conflict (λ o'. do_add_finalizer env o' finalizer) 3 first.0 first.1

  unfoldable pub replace_finalizer : Object → String → String → Io Outcome
  unfolding retry_on_conflict do_replace_finalizer
  replace_finalizer o to_replace replace_with w =
      let first = do_replace_finalizer env o to_replace replace_with w in
      retry_on_conflict (λ o'. do_replace_finalizer env o' to_replace replace_with) 3 first.0
        first.1

  unfoldable pub remove_finalizer : Object → String → Io Outcome
  unfolding retry_on_conflict do_remove_finalizer
  remove_finalizer o finalizer w =
      let first = do_remove_finalizer env o finalizer w in
      retry_on_conflict (λ o'. do_remove_finalizer env o' finalizer) 3 first.0 first.1
