-- ===== src/Operator/Finalizers/Patches.antt =====
-- What the patches of operator/finalizers.go do to a finalizer list, on an API server that
-- applies JSON patches as RFC 6902 says.
use grafana_app_sdk.Base.{
  ◌≡◌, refl, String, List, [], ◌∷◌, ◌++◌, true, false, none, some, length_zero, contains,
  if◌then◌else◌, ◌==◌, eq_iff, eq_refl, contains-append, arith,
}
use grafana_app_sdk.Resource.Object.{Object}
use grafana_app_sdk.Resource.Patch.{PatchRequest, set_finalizer, apply_operations}
use grafana_app_sdk.Operator.Io.{Call, Env, Log}
use grafana_app_sdk.Operator.Finalizers.{
  index, without, do_add_finalizer, do_remove_finalizer, do_replace_finalizer, add_request,
  remove_request, replace_request,
}

-- A patch that succeeds was applied to the object as the caller has it: every request replaces
-- the resource version by the caller's, and a server refuses it as a conflict if that is not the
-- current one.
abbrev pub IsPatchServer : Env → Type 0
IsPatchServer env =
    (w : Log) (o : Object) (req : PatchRequest)
    → (env w (Call.patch_into o req)).error ≡ none
    → apply_operations req.operations o.finalizers
      ≡ some (env w (Call.patch_into o req)).object.finalizers

-- The list with one more entry at its end, unless it has that entry.
abbrev pub added : List String → String → List String
added xs f = if contains xs f then xs else xs ++ f ∷ []

-- The list with the first entry `a` turned into `b`.
abbrev pub swap_first : List String → String → String → List String
swap_first [] a b = []
swap_first (x ∷ xs) a b = if x == a then b ∷ xs else x ∷ swap_first xs a b

-- What a replacement makes of a list: the branch without either entry adds the old one.
abbrev pub replaced : List String → String → String → List String
replaced xs a b =
    if contains xs b
    then (if contains xs a then without xs a else xs)
    else (if contains xs a then swap_first xs a b else added xs a)

pub set_finalizer-index :
    (xs : List String) (a b : String)
    → contains xs a ≡ true
    → set_finalizer xs (index xs a) b ≡ some (swap_first xs a b)
unfolding index
set_finalizer-index [] a b h = cc
set_finalizer-index (x ∷ xs) a b h = ground (arith, set_finalizer-index xs a b)

pub without_absent : (xs : List String) (f : String) → contains xs f ≡ false → without xs f ≡ xs
without_absent [] f h = refl
without_absent (x ∷ xs) f h = ground (arith, without_absent xs f)

pub contains-without_self : (xs : List String) (f : String) → contains (without xs f) f ≡ false
contains-without_self [] f = refl
contains-without_self (x ∷ xs) f = ground (arith, contains-without_self xs f)

pub contains-without :
    (xs : List String) (f g : String) → (g == f) ≡ false → contains (without xs f) g ≡ contains xs g
contains-without [] f g h = refl
contains-without (x ∷ xs) f g h =
    ground (arith, contains-without xs f g h, eq_iff x f, eq_iff x g, eq_refl f)

pub contains-added : (xs : List String) (f : String) → contains (added xs f) f ≡ true
contains-added xs f = ground (arith, contains-append xs (f ∷ []) f, eq_refl f)

pub contains-swap_first :
    (xs : List String) (a b : String) → contains xs a ≡ true → contains (swap_first xs a b) b ≡ true
contains-swap_first [] a b h = cc
contains-swap_first (x ∷ xs) a b h = ground (arith, contains-swap_first xs a b, eq_refl b)

module _ (env : Env) (server : IsPatchServer env) where
  pub finalizers-do_add_finalizer :
      (o : Object) (f : String) (w : Log)
      → (do_add_finalizer env o f w).0.1 ≡ none
      → (do_add_finalizer env o f w).0.0.finalizers ≡ added o.finalizers f
  unfolding do_add_finalizer add_request
  finalizers-do_add_finalizer o f w h =
      ground (arith, server w o (add_request o f), length_zero o.finalizers)

  pub finalizers-do_remove_finalizer :
      (o : Object) (f : String) (w : Log)
      → (do_remove_finalizer env o f w).0.1 ≡ none
      → (do_remove_finalizer env o f w).0.0.finalizers ≡ without o.finalizers f
  unfolding do_remove_finalizer remove_request
  finalizers-do_remove_finalizer o f w h =
      ground (arith, server w o (remove_request o f), without_absent o.finalizers f)

  pub finalizers-do_replace_finalizer :
      (o : Object) (a b : String) (w : Log)
      → (do_replace_finalizer env o a b w).0.1 ≡ none
      → (do_replace_finalizer env o a b w).0.0.finalizers ≡ replaced o.finalizers a b
  unfolding do_replace_finalizer replace_request
  finalizers-do_replace_finalizer o a b w h = ground (
    arith,
    finalizers-do_add_finalizer o a w,
    finalizers-do_remove_finalizer o a w,
    server w o (replace_request o a b),
    set_finalizer-index o.finalizers a b,
  )
