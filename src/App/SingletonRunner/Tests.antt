-- ===== src/App/SingletonRunner/Tests.antt =====
-- A runner whose only call returns when its context is done, while the wrapped runnable goes on.
use grafana_app_sdk.Base.{suc, ◌+◌, ◌≤◌, [], ◌∷◌, ◌≡◌, refl, true, false, none, some, length, sum}
use grafana_app_sdk.App.SingletonRunner.{
  canceled, cancel, cause_of, selecting, returned, runs, ended, State, new_singleton_runner, call,
  enters_first, selects, sees_context, sees_done, instance_ends, Reachable, start, then_step, Later,
}
use grafana_app_sdk.App.SingletonRunner.Restarts.{bit, live, instances_counted, restarts_alongside}

abbrev selected : State
selected = record new_singleton_runner {
  running = true;
  calls = selecting 0 ∷ [];
  contexts = none ∷ [];
  instances = runs ∷ [];
  waiting = 1;
}

reach_selected : Reachable false selected
reach_selected =
    then_step (then_step (then_step start call) (enters_first 0 refl refl)) (selects 0 refl)

abbrev left : State
left = record selected { calls = returned none ∷ [] }

reach_left : Reachable false left
reach_left = then_step reach_selected (sees_done 0 0 refl)

-- The wrapped runnable ends without an error, and the call returns one.
completed : Reachable false (record selected {
  calls = returned (some canceled) ∷ [];
  contexts = some canceled ∷ [];
  instances = ended ∷ [];
})
unfolding cancel cause_of
completed =
    then_step (then_step reach_selected (instance_ends 0 none refl))
      (sees_context 0 0 canceled (some canceled) refl refl refl)

instances_counted_example :
    (length left.instances ≡ left.resets + bit left.running)
    × (sum live left.instances ≤ suc left.resets)
instances_counted_example = instances_counted false left reach_left

restarts_alongside_example :
    (t : State) × Later false left t × (sum live t.instances ≡ suc (sum live left.instances))
restarts_alongside_example = restarts_alongside false left reach_left refl refl
