-- ===== src/Operator/Watcher.antt =====
-- operator/opinionatedwatcher.go: the watcher that guards each object by a finalizer. Its handlers
-- are outside code, reached by calls; a watcher says which of them are set. Logging, spans and
-- metrics are left out.
use Prim.Native.String
use grafana_app_sdk.Base.{
  ℕ, String, List, Bool, true, false, not, ◌&&◌, Option, none, some, ltb, nat_eq, contains,
  if◌then◌else◌,
}
use grafana_app_sdk.Resource.Object.{Object}
use grafana_app_sdk.Operator.Io.{Err, message, errorf, Call, Env, Log, Io, perform, Outcome}
use grafana_app_sdk.Operator.Finalizers.{add_finalizer, replace_finalizer, remove_finalizer}
pub mod Calls
pub mod Success
pub mod Quiet
mod Tests

pub record OpinionatedWatcher : Type 0 where
  pub add_func : Bool
  pub update_func : Bool
  pub delete_func : Bool
  pub sync_func : Bool
  pub finalizer : String
  pub add_pending_finalizer : String

pub record Schema : Type 0 where
  pub group : String
  pub version : String
  pub kind : String

abbrev pub FinalizerSupplier : Type 0
FinalizerSupplier = Schema → String

dotted : String → Schema → String
dotted prefix s =
    String.◌++◌ prefix
      (String.◌++◌ s.version (String.◌++◌ "." (String.◌++◌ s.kind (String.◌++◌ "." s.group))))

pub default_finalizer_supplier : FinalizerSupplier
unfolding dotted
default_finalizer_supplier s = dotted "operator." s

pub in_progress_finalizer_supplier : FinalizerSupplier
unfolding dotted
in_progress_finalizer_supplier s = dotted "wip." s

pub record OpinionatedWatcherConfig : Type 0 where
  pub finalizer : Option FinalizerSupplier
  pub in_progress_finalizer : Option FinalizerSupplier

pub data NewWatcher : Type 0 where
  created : OpinionatedWatcher → NewWatcher
  refused : String → NewWatcher

abbrev supplier_or : Option FinalizerSupplier → FinalizerSupplier → FinalizerSupplier
supplier_or none d = d
supplier_or (some s) d = s

new_for : Schema → OpinionatedWatcherConfig → NewWatcher
new_for sch config =
    let finalizer = supplier_or config.finalizer default_finalizer_supplier sch in
    let pending = supplier_or config.in_progress_finalizer in_progress_finalizer_supplier sch in
    if ltb 63 (String.len finalizer)
    then refused "finalizer length cannot exceed 63 chars"
    else (if ltb 63 (String.len pending)
        then refused "in-progress finalizer length cannot exceed 63 chars"
        else created (record {
          add_func = false;
          update_func = false;
          delete_func = false;
          sync_func = false;
          finalizer = finalizer;
          add_pending_finalizer = pending;
        }))

-- A nil schema is `none`; `client` says that the client is not nil.
pub new_opinionated_watcher : Option Schema → Bool → OpinionatedWatcherConfig → NewWatcher
unfolding new_for
new_opinionated_watcher none client config = refused "schema cannot be nil"
new_opinionated_watcher (some sch) false config = refused "client cannot be nil"
new_opinionated_watcher (some sch) true config = new_for sch config

-- `Wrap` with a watcher that is not nil.
pub wrap : OpinionatedWatcher → Bool → OpinionatedWatcher
wrap o sync_to_add = record o {
  add_func = true;
  update_func = true;
  delete_func = true;
  sync_func = if sync_to_add then true else o.sync_func;
}

abbrev pub is_set : Option ℕ → Bool
is_set none = false
is_set (some t) = true

-- `if err != nil { return err }` after a step, with the wrapping of the error.
fail_or : (Err → Err) → Outcome × Log → (Object → Io Outcome) → Outcome × Log
fail_or wrap_error step rest = elim step.0.1 [
  | some e ↦ ((step.0.0, some (wrap_error e)), step.1)
  | none ↦ rest step.0.0 step.1
]

abbrev as_is : Err → Err
as_is e = e

module _ (is_conflict : Err → Bool) (env : Env) where
  -- `addFunc`, `updateFunc`, `deleteFunc` and `syncFunc`: a handler that is not set does nothing.
  call_handler : Bool → Call → Object → Io Outcome
  call_handler handler c object w =
      if handler
      then (((env w c).object, (env w c).error), (perform env c w).1)
      else ((object, none), w)

  -- The removal of one of the watcher's finalizers, if it was in the list at the start.
  remove_listed : List String → String → Object → Io Outcome
  remove_listed finalizers f object w =
      if contains finalizers f
      then remove_finalizer is_conflict env object f w
      else ((object, none), w)

  -- What `Add` and `Update` share: an object that is being deleted.
  handle_deleted : OpinionatedWatcher → List String → Object → Io Outcome
  handle_deleted o finalizers object w =
      if not (contains finalizers o.finalizer) && not (contains finalizers o.add_pending_finalizer)
      then ((object, none), w)
      else fail_or as_is (call_handler o.delete_func (Call.delete_func object) object w)
          (λ deleted w'.
            fail_or as_is (remove_listed finalizers o.finalizer deleted w')
              (λ released. remove_listed finalizers o.add_pending_finalizer released))

  -- An object that has the finalizer from an earlier run.
  handle_known : OpinionatedWatcher → Object → Io Outcome
  handle_known o object w =
      fail_or as_is (call_handler o.sync_func (Call.sync_func object) object w)
        (λ synced. remove_listed object.finalizers o.add_pending_finalizer synced)

  call_add_and_replace : OpinionatedWatcher → Object → Io Outcome
  call_add_and_replace o object w =
      fail_or as_is (call_handler o.add_func (Call.add_func object) object w) (λ handled w'.
        fail_or (errorf "error adding finalizer: %w")
          (replace_finalizer is_conflict env handled o.add_pending_finalizer o.finalizer w')
          (λ replaced w''. ((replaced, none), w'')))

  handle_new : OpinionatedWatcher → Object → Io Outcome
  handle_new o object w =
      fail_or (errorf "error adding in-progress finalizer: %w")
        (add_finalizer is_conflict env object o.add_pending_finalizer w)
        (λ pending. call_add_and_replace o pending)

  pub add : OpinionatedWatcher → Object → Io Outcome
  add o object w =
      if is_set object.deletion_timestamp
      then handle_deleted o object.finalizers object w
      else (if contains object.finalizers o.finalizer
          then handle_known o object w
          else handle_new o object w)

  -- The rest of `Update`, from the second look at the deletion timestamp on. The finalizer list
  -- is the one that was read at the start.
  update_rest : OpinionatedWatcher → List String → Object → Object → Io Outcome
  update_rest o new_finalizers src tgt w =
      if is_set tgt.deletion_timestamp
      then handle_deleted o new_finalizers tgt w
      else (if not (contains src.finalizers o.finalizer) && contains new_finalizers o.finalizer
          then ((tgt, none), w)
          else call_handler o.update_func (Call.update_func src tgt) tgt w)

  pub update : OpinionatedWatcher → Object → Object → Io Outcome
  update o src tgt w =
      if ltb 0 tgt.generation && nat_eq src.generation tgt.generation
      then ((tgt, none), w)
      else (if not (contains tgt.finalizers o.finalizer) && not (is_set tgt.deletion_timestamp)
          then fail_or as_is (call_add_and_replace o tgt w)
              (λ added. update_rest o tgt.finalizers src added)
          else update_rest o tgt.finalizers src tgt w)

  -- The three methods of `ResourceWatcher`; a nil object is `none`.
  pub on_add : OpinionatedWatcher → Option Object → Io (Option Err)
  on_add o none w = (some (message "object cannot be nil"), w)
  on_add o (some object) w = ((add o object w).0.1, (add o object w).1)

  pub on_update : OpinionatedWatcher → Option Object → Option Object → Io (Option Err)
  on_update o none tgt w = (some (message "old cannot be nil"), w)
  on_update o (some src) none w = (some (message "new cannot be nil"), w)
  on_update o (some src) (some tgt) w = ((update o src tgt w).0.1, (update o src tgt w).1)

  pub on_delete : OpinionatedWatcher → Option Object → Io (Option Err)
  on_delete o object w = (none, w)
