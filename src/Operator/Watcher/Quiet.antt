-- ===== src/Operator/Watcher/Quiet.antt =====
-- What an add event that succeeds leaves on the object, where nobody else writes to it.
use grafana_app_sdk.Base.{
  String, List, [], ◌∷◌, ◌≡◌, refl, ◌∙◌, ap, Bool, false, not, ◌&&◌, none, inl, inr, contains,
  Bool-cases, arith, ◌==◌, contains-append,
}
use grafana_app_sdk.Resource.Object.{Object}
use grafana_app_sdk.Operator.Io.{Err, Call, Env, Log, Outcome, Io}
use grafana_app_sdk.Operator.Finalizers.{without, add_finalizer}
use grafana_app_sdk.Operator.Finalizers.Patches.{
  IsPatchServer, added, swap_first, replaced, without_absent, contains-added,
}
use grafana_app_sdk.Operator.Finalizers.Quiet.{
  NoConflicts, finalizers-add_finalizer, finalizers-remove_finalizer, finalizers-replace_finalizer,
}
use grafana_app_sdk.Operator.Watcher.{
  OpinionatedWatcher, fail_or, as_is, call_handler, remove_listed, handle_deleted, handle_known,
  call_add_and_replace, handle_new, add,
}
use grafana_app_sdk.Operator.Watcher.Success.{KeepsFinalizers, finalizers_after_add}

contains-without_absent :
    (xs : List String) (f g : String) → contains xs g ≡ false → contains (without xs f) g ≡ false
contains-without_absent [] f g h = refl
contains-without_absent (x ∷ xs) f g h = ground (arith, contains-without_absent xs f g)

-- A step that succeeds leaves the object with these finalizers.
abbrev Leaves : Outcome × Log → List String → Type 0
Leaves step fs = step.0.1 ≡ none → step.0.0.finalizers ≡ fs

fail_or-Leaves :
    {fs : List String} (wrap_error : Err → Err) (step : Outcome × Log) (rest : Object → Io Outcome)
    → (step.0.1 ≡ none → Leaves (rest step.0.0 step.1) fs)
    → Leaves (fail_or wrap_error step rest) fs
unfolding fail_or
fail_or-Leaves wrap_error step rest next = ground arith

module _ (is_conflict : Err → Bool) (env : Env) (quiet : NoConflicts is_conflict env)
    (server : IsPatchServer env) (keeps : KeepsFinalizers env) where
  finalizers-remove_listed :
      (fs : List String) (f : String) (object : Object) (w : Log)
      → (contains fs f ≡ false → contains object.finalizers f ≡ false)
      → (remove_listed is_conflict env fs f object w).0.1 ≡ none
      → (remove_listed is_conflict env fs f object w).0.0.finalizers ≡ without object.finalizers f
  unfolding remove_listed
  finalizers-remove_listed fs f object w a h = ground (
    arith,
    a,
    without_absent object.finalizers f,
    finalizers-remove_finalizer is_conflict env quiet server object f w,
  )

  finalizers-call_handler :
      (handler : Bool) (c : Call) (object : Object) (w : Log)
      → (env w c).object.finalizers ≡ object.finalizers
      → (call_handler is_conflict env handler c object w).0.0.finalizers ≡ object.finalizers
  unfolding call_handler
  finalizers-call_handler handler c object w k = ground arith

  finalizers-handle_deleted :
      (o : OpinionatedWatcher) (object : Object) (w : Log)
      → Leaves
          (handle_deleted is_conflict env o object.finalizers object w)
          (without (without object.finalizers o.finalizer) o.add_pending_finalizer)
  unfolding handle_deleted
  finalizers-handle_deleted o object w = elim (Bool-cases neither) [
    | inl e ↦ rw e (λ _. ground (
      arith,
      without_absent object.finalizers o.finalizer,
      without_absent object.finalizers o.add_pending_finalizer,
    ))
    | inr e ↦ rw e (
        fail_or-Leaves as_is _ _ (λ _. fail_or-Leaves as_is _ _ (λ first second.
          finalizers-remove_listed object.finalizers o.add_pending_finalizer removed.0.0 removed.1
            (λ a. rw (released first) (contains-without_absent object.finalizers _ _ a)) second
          ∙ ap (λ xs. without xs o.add_pending_finalizer) (released first))))
  ]
    where
      neither : Bool
      neither =
          not (contains object.finalizers o.finalizer)
          && not (contains object.finalizers o.add_pending_finalizer)

      deleted : Outcome × Log
      deleted = call_handler is_conflict env o.delete_func (Call.delete_func object) object w

      kept : deleted.0.0.finalizers ≡ object.finalizers
      kept =
          finalizers-call_handler o.delete_func (Call.delete_func object) object w
            (keeps w object).1

      removed : Outcome × Log
      removed = remove_listed is_conflict env object.finalizers o.finalizer deleted.0.0 deleted.1

      released : Leaves removed (without object.finalizers o.finalizer)
      released e =
          finalizers-remove_listed object.finalizers o.finalizer _ _ (λ a. rw kept a) e
          ∙ ap (λ xs. without xs o.finalizer) kept

  finalizers-handle_known :
      (o : OpinionatedWatcher) (object : Object) (w : Log)
      → Leaves
          (handle_known is_conflict env o object w)
          (without object.finalizers o.add_pending_finalizer)
  unfolding handle_known
  finalizers-handle_known o object w = fail_or-Leaves as_is _ _ (λ _ e.
      finalizers-remove_listed object.finalizers o.add_pending_finalizer _ _ (λ a. rw kept a) e
      ∙ ap (λ xs. without xs o.add_pending_finalizer) kept)
    where
      kept :
          (call_handler is_conflict env o.sync_func (Call.sync_func object) object w).0.0.finalizers
          ≡ object.finalizers
      kept = finalizers-call_handler o.sync_func (Call.sync_func object) object w (keeps w object).2

  finalizers-handle_new :
      (o : OpinionatedWatcher) (object : Object) (w : Log)
      → (o.add_pending_finalizer == o.finalizer) ≡ false
      → contains object.finalizers o.finalizer ≡ false
      → Leaves (handle_new is_conflict env o object w) (
          swap_first
            (added object.finalizers o.add_pending_finalizer)
            o.add_pending_finalizer
            o.finalizer)
  unfolding handle_new call_add_and_replace
  finalizers-handle_new o object w ne absent = fail_or-Leaves _ _ _ (λ first.
      fail_or-Leaves as_is _ _ (λ _. fail_or-Leaves _ _ _ (λ second _.
        finalizers-replace_finalizer is_conflict env quiet server _ o.add_pending_finalizer
          o.finalizer _ second
        ∙ (ap (λ xs. replaced xs o.add_pending_finalizer o.finalizer) (kept first) ∙ swaps))))
    where
      pending : Outcome × Log
      pending = add_finalizer is_conflict env object o.add_pending_finalizer w

      kept :
          pending.0.1 ≡ none
          → (call_handler is_conflict env o.add_func
              (Call.add_func pending.0.0)
              pending.0.0
              pending.1).0.0.finalizers
            ≡ added object.finalizers o.add_pending_finalizer
      kept e =
          finalizers-call_handler o.add_func (Call.add_func pending.0.0) pending.0.0 pending.1
            (keeps pending.1 pending.0.0).0
          ∙ finalizers-add_finalizer is_conflict env quiet server object o.add_pending_finalizer w e

      swaps :
          replaced
            (added object.finalizers o.add_pending_finalizer)
            o.add_pending_finalizer
            o.finalizer
          ≡ swap_first
              (added object.finalizers o.add_pending_finalizer)
              o.add_pending_finalizer
              o.finalizer
      swaps = ground (
        arith,
        contains-added object.finalizers o.add_pending_finalizer,
        contains-append object.finalizers (o.add_pending_finalizer ∷ []) o.finalizer,
      )

  -- Where the API server answers no patch by a conflict and applies JSON patches, and the handlers
  -- leave the finalizers alone, an add event that succeeds leaves exactly these finalizers: both
  -- of the watcher's are gone from an object that is being deleted, an object that had the
  -- finalizer loses the in-progress one, and any other object has the finalizer in the place of
  -- the in-progress one, its other finalizers untouched. The two finalizers are different texts.
  pub finalizers-add :
      (o : OpinionatedWatcher) (object : Object) (w : Log)
      → (o.add_pending_finalizer == o.finalizer) ≡ false
      → (add is_conflict env o object w).0.1 ≡ none
      → (add is_conflict env o object w).0.0.finalizers ≡ finalizers_after_add o object
  unfolding add
  finalizers-add o object w ne h = ground (
    arith,
    finalizers-handle_deleted o object w,
    finalizers-handle_known o object w,
    finalizers-handle_new o object w ne,
  )
