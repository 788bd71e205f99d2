-- ===== src/Operator/Watcher/Calls.antt =====
-- Which handlers `OpinionatedWatcher` calls on which objects.
use grafana_app_sdk.Base.{
  String, List, ◌≡◌, refl, Bool, true, false, not, ◌&&◌, ◌||◌, none, inl, inr, contains, nat_eq,
  ltb, Option-cases, arith,
}
use grafana_app_sdk.Resource.Object.{Object}
use grafana_app_sdk.Operator.Io.{
  Err, Call, add_func, update_func, delete_func, sync_func, patch_into, get_into, Env, Log, Outcome,
  Io,
}
use grafana_app_sdk.Operator.Trace.{Grows, stay, more, Grows-trans, Grows-if, AllowsClient}
use grafana_app_sdk.Operator.Finalizers.Patches.{IsPatchServer}
use grafana_app_sdk.Operator.Finalizers.Retries.{contains-add_finalizer}
use grafana_app_sdk.Operator.Finalizers.Calls.{
  add_finalizer-Grows, remove_finalizer-Grows, replace_finalizer-Grows,
}
use grafana_app_sdk.Operator.Watcher.{
  OpinionatedWatcher, is_set, fail_or, as_is, call_handler, remove_listed, handle_deleted,
  handle_known, call_add_and_replace, handle_new, add, update_rest, update,
}

fail_or-Grows :
    {P : Call → Type 0} {w : Log} (wrap_error : Err → Err) (step : Outcome × Log)
    (rest : Object → Io Outcome)
    → Grows P w step.1
    → (step.0.1 ≡ none → Grows P step.1 (rest step.0.0 step.1).1)
    → Grows P w (fail_or wrap_error step rest).1
unfolding fail_or
fail_or-Grows wrap_error step rest g h = elim (Option-cases step.0.1) [
  | inl e ↦ rw (e, fail_or) (Grows-trans g (h e))
  | inr (x, e) ↦ rw (e, fail_or) g
]

module _ (is_conflict : Err → Bool) (env : Env) where
  module _ {P : Call → Type 0} (client : AllowsClient P) where
    call_handler-Grows :
        (handler : Bool) (c : Call) (o : Object) (w : Log)
        → P c
        → Grows P w (call_handler is_conflict env handler c o w).1
    unfolding call_handler
    call_handler-Grows handler c o w p = Grows-if handler _ _ (λ _. more stay p) (λ _. stay)

    remove_listed-Grows :
        (fs : List String) (f : String) (o : Object) (w : Log)
        → Grows P w (remove_listed is_conflict env fs f o w).1
    unfolding remove_listed
    remove_listed-Grows fs f o w =
        Grows-if (contains fs f) _ _ (λ _. remove_finalizer-Grows is_conflict env client o f w)
          (λ _. stay)

    handle_deleted-Grows :
        (o : OpinionatedWatcher) (fs : List String) (object : Object) (w : Log)
        → ((contains fs o.finalizer || contains fs o.add_pending_finalizer) ≡ true
            → P (Call.delete_func object))
        → Grows P w (handle_deleted is_conflict env o fs object w).1
    unfolding handle_deleted
    handle_deleted-Grows o fs object w p =
        Grows-if (not (contains fs o.finalizer) && not (contains fs o.add_pending_finalizer)) _ _
          (λ _. stay)
          (λ e.
            fail_or-Grows as_is _ _ (call_handler-Grows o.delete_func _ object w (p (ground arith)))
              (λ _.
                fail_or-Grows as_is _ _ (remove_listed-Grows fs o.finalizer _ _)
                  (λ _. remove_listed-Grows fs o.add_pending_finalizer _ _)))

    remaining-Grows :
        (o : OpinionatedWatcher) (fs : List String) (src tgt : Object) (w : Log)
        → ((contains fs o.finalizer || contains fs o.add_pending_finalizer) ≡ true
            → is_set tgt.deletion_timestamp ≡ true
            → P (Call.delete_func tgt))
        → (is_set tgt.deletion_timestamp ≡ false
            → (not (contains src.finalizers o.finalizer) && contains fs o.finalizer) ≡ false
            → P (Call.update_func src tgt))
        → Grows P w (update_rest is_conflict env o fs src tgt w).1
    unfolding update_rest
    remaining-Grows o fs src tgt w p q =
        Grows-if (is_set tgt.deletion_timestamp) _ _
          (λ e. handle_deleted-Grows o fs tgt w (λ h. p h e))
          (λ e. Grows-if _ _ _ (λ _. stay) (λ n. call_handler-Grows o.update_func _ tgt w (q e n)))

    call_add_and_replace-Grows :
        (o : OpinionatedWatcher) (object : Object) (w : Log)
        → P (Call.add_func object)
        → Grows P w (call_add_and_replace is_conflict env o object w).1
    unfolding call_add_and_replace
    call_add_and_replace-Grows o object w p =
        fail_or-Grows as_is _ _ (call_handler-Grows o.add_func _ object w p) (λ _.
          fail_or-Grows _ _ _
            (replace_finalizer-Grows is_conflict env client _ o.add_pending_finalizer o.finalizer _)
            (λ _. stay))

    handle_known-Grows :
        (o : OpinionatedWatcher) (object : Object) (w : Log)
        → P (Call.sync_func object)
        → Grows P w (handle_known is_conflict env o object w).1
    unfolding handle_known
    handle_known-Grows o object w p =
        fail_or-Grows as_is _ _ (call_handler-Grows o.sync_func _ object w p)
          (λ _. remove_listed-Grows object.finalizers o.add_pending_finalizer _ _)

-- The calls that an add event for `object` allows: the delete handler for an object that is being
-- deleted and has one of the watcher's finalizers, the sync handler for one that has the
-- finalizer, and the add handler for one that has not, once it has the in-progress finalizer.
abbrev pub AllowedOnAdd : OpinionatedWatcher → Object → Call → Type 0
AllowedOnAdd o object (add_func x) =
    (is_set object.deletion_timestamp ≡ false)
    × (contains object.finalizers o.finalizer ≡ false)
    × (contains x.finalizers o.add_pending_finalizer ≡ true)
AllowedOnAdd o object (sync_func x) =
    (x ≡ object)
    × (is_set object.deletion_timestamp ≡ false)
    × (contains object.finalizers o.finalizer ≡ true)
AllowedOnAdd o object (delete_func x) =
    (x ≡ object)
    × (is_set object.deletion_timestamp ≡ true)
    × ((contains object.finalizers o.finalizer
          || contains object.finalizers o.add_pending_finalizer)
        ≡ true)
AllowedOnAdd o object (patch_into x req) = Unit
AllowedOnAdd o object (get_into x) = Unit
AllowedOnAdd o object _ = ⊥

-- `src` to `tgt` is more than a change of a subresource or of metadata.
abbrev pub IsChange : Object → Object → Type 0
IsChange src tgt = (ltb 0 tgt.generation && nat_eq src.generation tgt.generation) ≡ false

-- The calls that an update event allows, all for a change of generation only: the add handler for
-- a live object that lacks the finalizer, the delete handler for an object that is being deleted,
-- if the event's object has one of the watcher's finalizers, and the update handler for an object
-- that is not being deleted, unless the event adds the watcher's finalizer to the object.
abbrev pub AllowedOnUpdate : OpinionatedWatcher → Object → Object → Call → Type 0
AllowedOnUpdate o src tgt (add_func x) =
    (x ≡ tgt)
    × IsChange src tgt
    × (is_set tgt.deletion_timestamp ≡ false)
    × (contains tgt.finalizers o.finalizer ≡ false)
AllowedOnUpdate o src tgt (delete_func x) =
    IsChange src tgt
    × (is_set x.deletion_timestamp ≡ true)
    × ((contains tgt.finalizers o.finalizer || contains tgt.finalizers o.add_pending_finalizer)
        ≡ true)
AllowedOnUpdate o src tgt (update_func s t) =
    (s ≡ src)
    × IsChange src tgt
    × (is_set t.deletion_timestamp ≡ false)
    × ((not (contains src.finalizers o.finalizer) && contains tgt.finalizers o.finalizer) ≡ false)
AllowedOnUpdate o src tgt (patch_into x req) = Unit
AllowedOnUpdate o src tgt (get_into x) = Unit
AllowedOnUpdate o src tgt _ = ⊥

module _ (is_conflict : Err → Bool) (env : Env) where
  -- On an API server that applies JSON patches, an add event makes only the calls that
  -- `AllowedOnAdd` lists; so the add handler never runs on an object that a deletion could remove.
  pub add-Allowed :
      (o : OpinionatedWatcher) (object : Object) (w : Log)
      → IsPatchServer env
      → Grows (AllowedOnAdd o object) w (add is_conflict env o object w).1
  unfolding add handle_new
  add-Allowed o object w server =
      Grows-if (is_set object.deletion_timestamp) _ _
        (λ d.
          handle_deleted-Grows is_conflict env client o object.finalizers object w
            (λ h. (refl, d, h)))
        (λ d.
          Grows-if (contains object.finalizers o.finalizer) _ _
            (λ h. handle_known-Grows is_conflict env client o object w (refl, d, h))
            (λ h.
              fail_or-Grows _ _ _
                (add_finalizer-Grows is_conflict env client object o.add_pending_finalizer w)
                (λ e. call_add_and_replace-Grows is_conflict env client o _ _ (
                  d,
                  h,
                  contains-add_finalizer is_conflict env server object o.add_pending_finalizer w e,
                ))))
    where
      client : AllowsClient (AllowedOnAdd o object)
      client = (λ x req. tt, λ x. tt)

  -- An update event makes only the calls that `AllowedOnUpdate` lists, whatever the API server and
  -- the handlers answer.
  pub update-Allowed :
      (o : OpinionatedWatcher) (src tgt : Object) (w : Log)
      → Grows (AllowedOnUpdate o src tgt) w (update is_conflict env o src tgt w).1
  unfolding update
  update-Allowed o src tgt w =
      Grows-if (ltb 0 tgt.generation && nat_eq src.generation tgt.generation) _ _ (λ _. stay)
        (λ c.
          Grows-if
            (not (contains tgt.finalizers o.finalizer) && not (is_set tgt.deletion_timestamp)) _ _
            (λ n.
              fail_or-Grows as_is _ _
                (call_add_and_replace-Grows is_conflict env client o tgt w
                  (refl, c, ground arith, ground arith))
                (λ _. rest c _ _))
            (λ _. rest c tgt w))
    where
      client : AllowsClient (AllowedOnUpdate o src tgt)
      client = (λ x req. tt, λ x. tt)

      rest :
          IsChange src tgt
          → (x : Object) (v : Log)
          → Grows
              (AllowedOnUpdate o src tgt)
              v
              (update_rest is_conflict env o tgt.finalizers src x v).1
      rest c x v =
          remaining-Grows is_conflict env client o tgt.finalizers src x v (λ h d. (c, d, h))
            (λ d n. (refl, c, d, n))
