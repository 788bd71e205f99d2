-- ===== src/Operator/Watcher/Success.antt =====
-- What `OpinionatedWatcher` leaves on an object, and what it does when a handler fails.
use Prim.Native.String
use grafana_app_sdk.Base.{
  ◌≤◌, String, List, ◌∷◌, ◌≡◌, Bool, true, false, ◌||◌, Option, none, some, contains, if◌then◌else◌,
  arith, ◌==◌,
}
use grafana_app_sdk.Resource.Object.{Object}
use grafana_app_sdk.Operator.Io.{Err, Call, add_func, delete_func, sync_func, Env, Log}
use grafana_app_sdk.Operator.Finalizers.{without, add_finalizer}
use grafana_app_sdk.Operator.Finalizers.Patches.{IsPatchServer, added, swap_first}
use grafana_app_sdk.Operator.Finalizers.Retries.{contains-replace_finalizer}
use grafana_app_sdk.Operator.Watcher.Calls.{IsChange}
use grafana_app_sdk.Operator.Watcher.{
  OpinionatedWatcher, OpinionatedWatcherConfig, Schema, created, new_opinionated_watcher, is_set,
  fail_or, call_handler, handle_deleted, call_add_and_replace, handle_new, add, update_rest, update,
}

-- A watcher that is created has finalizers of at most 63 bytes.
pub new_opinionated_watcher_bounds :
    (sch : Option Schema) (client : Bool) (config : OpinionatedWatcherConfig)
    (o : OpinionatedWatcher)
    → new_opinionated_watcher sch client config ≡ created o
    → (String.len o.finalizer ≤ 63) × (String.len o.add_pending_finalizer ≤ 63)
unfolding new_opinionated_watcher
new_opinionated_watcher_bounds none client config o h = absurd (ground arith)
new_opinionated_watcher_bounds (some sch) false config o h = absurd (ground arith)
new_opinionated_watcher_bounds (some sch) true config o h = ground arith

-- The handlers leave the finalizers of the object that they are given alone.
abbrev pub KeepsFinalizers : Env → Type 0
KeepsFinalizers env =
    (w : Log) (o : Object)
    → ((env w (add_func o)).object.finalizers ≡ o.finalizers)
      × ((env w (delete_func o)).object.finalizers ≡ o.finalizers)
      × ((env w (sync_func o)).object.finalizers ≡ o.finalizers)

-- The finalizers of an object after an add event that succeeds.
abbrev pub finalizers_after_add : OpinionatedWatcher → Object → List String
finalizers_after_add o object =
    if is_set object.deletion_timestamp
    then without (without object.finalizers o.finalizer) o.add_pending_finalizer
    else (if contains object.finalizers o.finalizer
        then without object.finalizers o.add_pending_finalizer
        else swap_first (added object.finalizers o.add_pending_finalizer) o.add_pending_finalizer
            o.finalizer)

module _ (is_conflict : Err → Bool) (env : Env) where
  -- A failing delete handler is the only call that an add or update event for an object that is
  -- being deleted makes: the finalizers stay, and the error is handed back.
  pub delete_handler_failed :
      (o : OpinionatedWatcher) (src object : Object) (w : Log) (e : Err)
      → IsChange src object
      → o.delete_func ≡ true
      → is_set object.deletion_timestamp ≡ true
      → (contains object.finalizers o.finalizer
          || contains object.finalizers o.add_pending_finalizer)
        ≡ true
      → (env w (delete_func object)).error ≡ some e
      → (add is_conflict env o object w ≡ (
        ((env w (delete_func object)).object, some e),
        (delete_func object, env w (delete_func object)) ∷ w,
      ))
        × (update is_conflict env o src object w ≡ (
          ((env w (delete_func object)).object, some e),
          (delete_func object, env w (delete_func object)) ∷ w,
        ))
  unfolding add update handle_deleted update_rest call_handler fail_or
  delete_handler_failed o src object w e c s d f h = (ground arith, ground arith)

  -- Where another writer may cause conflicts, too: an object without the finalizer that is not
  -- being deleted has the finalizer or the in-progress one when an add event for it succeeds, so
  -- no later deletion is missed. The two finalizers are different texts, and the API server
  -- applies JSON patches.
  pub add_protects :
      (o : OpinionatedWatcher) (object : Object) (w : Log)
      → IsPatchServer env
      → (o.add_pending_finalizer == o.finalizer) ≡ false
      → is_set object.deletion_timestamp ≡ false
      → contains object.finalizers o.finalizer ≡ false
      → (add is_conflict env o object w).0.1 ≡ none
      → (contains (add is_conflict env o object w).0.0.finalizers o.add_pending_finalizer
          || contains (add is_conflict env o object w).0.0.finalizers o.finalizer)
        ≡ true
  unfolding add handle_new call_add_and_replace fail_or
  add_protects o object w server ne d a h =
      let pending = add_finalizer is_conflict env object o.add_pending_finalizer w in
      let handled =
        call_handler is_conflict env o.add_func (Call.add_func pending.0.0) pending.0.0 pending.1 in
      ground (
        arith,
        contains-replace_finalizer is_conflict env server handled.0.0 o.add_pending_finalizer
            o.finalizer handled.1 ne,
      )
