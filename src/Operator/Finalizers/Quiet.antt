-- ===== src/Operator/Finalizers/Quiet.antt =====
-- The finalizer operations where nobody else writes to the object: no patch meets a conflict.
use grafana_app_sdk.Base.{
  ℕ, zero, suc, ◌≡◌, refl, subst, String, Bool, true, false, Option, none, some, if◌then◌else◌,
  contains,
}
use grafana_app_sdk.Resource.Patch.{PatchRequest}
use grafana_app_sdk.Resource.Object.{Object}
use grafana_app_sdk.Operator.Io.{Err, finalizer_operation, Call, Env, Log, Outcome, Io}
use grafana_app_sdk.Operator.Finalizers.{
  patch_into, wrap_patch_error, add_request, remove_request, replace_request, do_add_finalizer,
  do_remove_finalizer, do_replace_finalizer, retry_on_conflict, add_finalizer, replace_finalizer,
  remove_finalizer, without,
}
use grafana_app_sdk.Operator.Finalizers.Patches.{
  IsPatchServer, added, replaced, finalizers-do_add_finalizer, finalizers-do_remove_finalizer,
  finalizers-do_replace_finalizer,
}

some_same : {A : Type 0} (x y : A) → some x ≡ some y → x ≡ y
some_same x y h = cc h

-- The API server answers no patch by a conflict. The test is made on the error with its wrapping.
abbrev pub NoConflicts : (Err → Bool) → Env → Type 0
NoConflicts is_conflict env =
    (w : Log) (o : Object) (req : PatchRequest) (e : Err)
    → (env w (Call.patch_into o req)).error ≡ some e
    → is_conflict (finalizer_operation e req) ≡ false

module _ (is_conflict : Err → Bool) (env : Env) (quiet : NoConflicts is_conflict env) where
  abbrev IsUnconflicted : Option Err → Type 0
  IsUnconflicted e = (x : Err) → e ≡ some x → is_conflict x ≡ false

  none-IsUnconflicted : IsUnconflicted none
  none-IsUnconflicted x h = cc

  wrap_patch_error-IsUnconflicted :
      (req : PatchRequest) (e : Option Err)
      → ((x : Err) → e ≡ some x → is_conflict (finalizer_operation x req) ≡ false)
      → IsUnconflicted (wrap_patch_error req e)
  wrap_patch_error-IsUnconflicted req none q x h = cc
  wrap_patch_error-IsUnconflicted req (some e) q x h = subst IsFalse (some_same _ _ h) (q e refl)
    where
      IsFalse : Err → Type 0
      IsFalse y = is_conflict y ≡ false

  patch_into-IsUnconflicted :
      (o : Object) (req : PatchRequest) (w : Log) → IsUnconflicted (patch_into env o req w).0.1
  unfolding patch_into
  patch_into-IsUnconflicted o req w =
      wrap_patch_error-IsUnconflicted req (env w (Call.patch_into o req)).error (quiet w o req)

  unless :
      (b : Bool) (m n : Outcome × Log)
      → IsUnconflicted m.0.1
      → IsUnconflicted n.0.1
      → IsUnconflicted (if b then m else n).0.1
  unless true m n p q = p
  unless false m n p q = q

  do_add_finalizer-IsUnconflicted :
      (o : Object) (f : String) (w : Log) → IsUnconflicted (do_add_finalizer env o f w).0.1
  unfolding do_add_finalizer
  do_add_finalizer-IsUnconflicted o f w =
      unless (contains o.finalizers f) ((o, none), w) (patch_into env o (add_request o f) w)
        none-IsUnconflicted (patch_into-IsUnconflicted o (add_request o f) w)

  do_remove_finalizer-IsUnconflicted :
      (o : Object) (f : String) (w : Log) → IsUnconflicted (do_remove_finalizer env o f w).0.1
  unfolding do_remove_finalizer
  do_remove_finalizer-IsUnconflicted o f w =
      unless (contains o.finalizers f) (patch_into env o (remove_request o f) w) ((o, none), w)
        (patch_into-IsUnconflicted o (remove_request o f) w) none-IsUnconflicted

  do_replace_finalizer-IsUnconflicted :
      (o : Object) (a b : String) (w : Log) → IsUnconflicted (do_replace_finalizer env o a b w).0.1
  unfolding do_replace_finalizer
  do_replace_finalizer-IsUnconflicted o a b w =
      unless (contains o.finalizers b) _ _
        (unless (contains o.finalizers a) (do_remove_finalizer env o a w) ((o, none), w)
          (do_remove_finalizer-IsUnconflicted o a w) none-IsUnconflicted)
        (unless (contains o.finalizers a) (patch_into env o (replace_request o a b) w)
          (do_add_finalizer env o a w) (patch_into-IsUnconflicted o (replace_request o a b) w)
          (do_add_finalizer-IsUnconflicted o a w))

  retry_on_conflict_quiet :
      (attempt : Object → Io Outcome) (n : ℕ) (out : Outcome) (w : Log)
      → IsUnconflicted out.1
      → retry_on_conflict is_conflict env attempt n out w ≡ (out, w)
  unfolding retry_on_conflict
  retry_on_conflict_quiet attempt zero out w q = refl
  retry_on_conflict_quiet attempt (suc n) (o, none) w q = refl
  retry_on_conflict_quiet attempt (suc n) (o, some e) w q = rw (q e refl, retry_on_conflict)

  module _ (server : IsPatchServer env) where
    pub finalizers-add_finalizer :
        (o : Object) (f : String) (w : Log)
        → (add_finalizer is_conflict env o f w).0.1 ≡ none
        → (add_finalizer is_conflict env o f w).0.0.finalizers ≡ added o.finalizers f
    unfolding add_finalizer
    finalizers-add_finalizer o f w =
        rw
          (retry_on_conflict_quiet (λ o'. do_add_finalizer env o' f) 3
            (do_add_finalizer env o f w).0 (do_add_finalizer env o f w).1
            (do_add_finalizer-IsUnconflicted o f w))
          (finalizers-do_add_finalizer env server o f w)

    pub finalizers-remove_finalizer :
        (o : Object) (f : String) (w : Log)
        → (remove_finalizer is_conflict env o f w).0.1 ≡ none
        → (remove_finalizer is_conflict env o f w).0.0.finalizers ≡ without o.finalizers f
    unfolding remove_finalizer
    finalizers-remove_finalizer o f w =
        rw
          (retry_on_conflict_quiet (λ o'. do_remove_finalizer env o' f) 3
            (do_remove_finalizer env o f w).0 (do_remove_finalizer env o f w).1
            (do_remove_finalizer-IsUnconflicted o f w))
          (finalizers-do_remove_finalizer env server o f w)

    pub finalizers-replace_finalizer :
        (o : Object) (a b : String) (w : Log)
        → (replace_finalizer is_conflict env o a b w).0.1 ≡ none
        → (replace_finalizer is_conflict env o a b w).0.0.finalizers ≡ replaced o.finalizers a b
    unfolding replace_finalizer
    finalizers-replace_finalizer o a b w =
        rw
          (retry_on_conflict_quiet (λ o'. do_replace_finalizer env o' a b) 3
            (do_replace_finalizer env o a b w).0 (do_replace_finalizer env o a b w).1
            (do_replace_finalizer-IsUnconflicted o a b w))
          (finalizers-do_replace_finalizer env server o a b w)
