-- ===== src/Operator/Watcher/Tests.antt =====
-- The theorems about `OpinionatedWatcher` at concrete inputs.
use grafana_app_sdk.Base.{[], ◌∷◌, ◌≡◌, refl, true, ◌||◌, none, some, contains, length, arith}
use grafana_app_sdk.Resource.Object.{Object}
use grafana_app_sdk.Operator.Io.{outside, delete_func, Log}
use grafana_app_sdk.Operator.Trace.{Grows}
use grafana_app_sdk.Operator.Finalizers.{add_finalizer, replace_finalizer}
use grafana_app_sdk.Operator.Finalizers.Quiet.{NoConflicts}
use grafana_app_sdk.Operator.Samples.{
  object_with, is_409, server, racing, broken, server-IsPatchServer, racing-IsPatchServer,
}
use grafana_app_sdk.Operator.Watcher.Calls.{
  AllowedOnAdd, AllowedOnUpdate, add-Allowed, update-Allowed,
}
use grafana_app_sdk.Operator.Watcher.Success.{KeepsFinalizers, delete_handler_failed, add_protects}
use grafana_app_sdk.Operator.Watcher.Quiet.{finalizers-add}
use grafana_app_sdk.Operator.Watcher.{
  OpinionatedWatcher, Schema, add, update, handle_new, call_add_and_replace, call_handler, fail_or,
  update_rest,
}

abbrev watcher : OpinionatedWatcher
watcher = record {
  add_func = true;
  update_func = true;
  delete_func = true;
  sync_func = true;
  finalizer = "f";
  add_pending_finalizer = "wip";
}

abbrev schema : Schema
schema = record { group = "g"; version = "v1"; kind = "Issue" }

add-Allowed_example :
    Grows
      (AllowedOnAdd watcher (object_with ("x" ∷ []) none))
      []
      (add is_409 racing watcher (object_with ("x" ∷ []) none) []).1
add-Allowed_example =
    add-Allowed is_409 racing watcher (object_with ("x" ∷ []) none) [] racing-IsPatchServer

-- An object of an earlier generation.
abbrev older : Object
older = record (object_with [] none) { generation = 1 }

-- The add handler, the attempt to place the finalizer and the update handler.
abbrev updated_log : Log
updated_log = (update is_409 racing watcher older (object_with ("x" ∷ []) none) []).1

updated_calls : length updated_log ≡ 3
unfolding update call_add_and_replace call_handler fail_or update_rest replace_finalizer
updated_calls = refl

update-Allowed_example :
    Grows
      (AllowedOnUpdate watcher older (object_with ("x" ∷ []) none))
      []
      (update is_409 racing watcher older (object_with ("x" ∷ []) none) []).1
update-Allowed_example = update-Allowed is_409 racing watcher older (object_with ("x" ∷ []) none) []

delete_handler_failed_example :
    (add is_409 broken watcher (object_with ("f" ∷ []) (some 3)) [] ≡ (
      (object_with ("f" ∷ []) (some 3), some (outside 500)),
      (
        delete_func (object_with ("f" ∷ []) (some 3)),
        broken [] (delete_func (object_with ("f" ∷ []) (some 3))),
      )
          ∷ [],
    ))
    × (update is_409 broken watcher
          (record (object_with ("f" ∷ []) none) { generation = 1 })
          (object_with ("f" ∷ []) (some 3))
          []
        ≡ (
          (object_with ("f" ∷ []) (some 3), some (outside 500)),
          (
            delete_func (object_with ("f" ∷ []) (some 3)),
            broken [] (delete_func (object_with ("f" ∷ []) (some 3))),
          )
              ∷ [],
        ))
delete_handler_failed_example =
    delete_handler_failed is_409 broken watcher
      (record (object_with ("f" ∷ []) none) { generation = 1 }) (object_with ("f" ∷ []) (some 3)) []
      (outside 500) refl refl refl refl refl

add_protects_example :
    (contains (add is_409 racing watcher (object_with ("x" ∷ []) none) []).0.0.finalizers "wip"
      || contains (add is_409 racing watcher (object_with ("x" ∷ []) none) []).0.0.finalizers "f")
    ≡ true
unfolding add handle_new call_add_and_replace call_handler fail_or add_finalizer replace_finalizer
add_protects_example =
    add_protects is_409 racing watcher (object_with ("x" ∷ []) none) [] racing-IsPatchServer refl
      refl refl refl

quiet : NoConflicts is_409 server
quiet w o req e h = ground arith

server-KeepsFinalizers : KeepsFinalizers server
server-KeepsFinalizers w o = (refl, refl, refl)

finalizers-add_example :
    (add is_409 server watcher (object_with ("x" ∷ []) none) []).0.0.finalizers ≡ "x" ∷ "f" ∷ []
unfolding add handle_new call_add_and_replace call_handler fail_or add_finalizer replace_finalizer
finalizers-add_example =
    finalizers-add is_409 server quiet server-IsPatchServer server-KeepsFinalizers watcher
      (object_with ("x" ∷ []) none) [] refl refl
