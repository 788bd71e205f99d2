-- ===== src/App/DynamicRunner/Tests.antt =====
-- Runs of the dynamic runner.
use grafana_app_sdk.Base.{[], ◌∷◌, ◌≡◌, refl, true, false, some, map}
use grafana_app_sdk.App.Runner.{plain}
use grafana_app_sdk.App.DynamicRunner.{
  State, exited, finished, sending, new_dynamic_multi_runner, add_runnable, remove_runnable,
  elements, Reachable,
}
use grafana_app_sdk.App.DynamicRunner.Panics.{two_errors_panic}

two_errors_panic_example :
    (s : State) × Reachable (λ e. true) false s
    × (map (λ t. t.runner) s.tuples ≡ 1 ∷ 2 ∷ [])
    × (s.main ≡ exited (plain (some 7)))
    × (s.goroutines ≡ finished ∷ sending 8 ∷ [])
    × (s.channel_closed ≡ true)
    × (s.panicked ≡ true)
two_errors_panic_example = two_errors_panic (λ e. true) false 1 2 7 8 refl

-- Runners that are there once are removed, and one that is there twice is left once.
removed :
    elements
      (remove_runnable 2
        (add_runnable 3 (add_runnable 2 (add_runnable 1 new_dynamic_multi_runner)))).runners
    ≡ 0 ∷ 2 ∷ []
unfolding remove_runnable add_runnable
removed = refl

removed_twice :
    elements
      (remove_runnable 1
        (add_runnable 1 (add_runnable 2 (add_runnable 1 new_dynamic_multi_runner)))).runners
    ≡ 1 ∷ 2 ∷ []
unfolding remove_runnable add_runnable
removed_twice = refl
