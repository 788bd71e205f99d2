-- ===== src/Operator/Finalizers/Tests.antt =====
-- The theorems about finalizers at concrete inputs.
use grafana_app_sdk.Base.{[], ◌∷◌, ◌≡◌, refl, true, false, none, contains}
use grafana_app_sdk.Operator.Finalizers.{add_finalizer, do_replace_finalizer}
use grafana_app_sdk.Operator.Finalizers.Retries.{
  contains-add_finalizer, do_replace_finalizer_absent,
}
use grafana_app_sdk.Operator.Samples.{
  object_with, is_409, server, racing, server-IsPatchServer, racing-IsPatchServer,
}

contains-add_finalizer_example :
    contains (add_finalizer is_409 racing (object_with ("x" ∷ []) none) "f" []).0.0.finalizers "f"
    ≡ true
unfolding add_finalizer
contains-add_finalizer_example =
    contains-add_finalizer is_409 racing racing-IsPatchServer (object_with ("x" ∷ []) none) "f" []
      refl

do_replace_finalizer_absent_example :
    ((do_replace_finalizer server (object_with ("x" ∷ []) none) "wip" "f" []).0.0.finalizers
      ≡ "x" ∷ "wip" ∷ [])
    × (contains
          (do_replace_finalizer server (object_with ("x" ∷ []) none) "wip" "f" []).0.0.finalizers
          "f"
        ≡ false)
unfolding do_replace_finalizer
do_replace_finalizer_absent_example =
    do_replace_finalizer_absent is_409 server server-IsPatchServer (object_with ("x" ∷ []) none)
      "wip" "f" [] refl refl refl refl
