-- ===== src/Health/Observer/Tests.antt =====
-- An observer whose second check fails.
use grafana_app_sdk.Base.{List, [], ◌∷◌, ◌≡◌, refl, false, none, some, if◌then◌else◌, nat_eq}
use grafana_app_sdk.Health.Observer.{
  Check, CheckStatus, Observer, new_observer, add_checks, Round, observe, collect_checks, running,
  status, adds, run, Reachable, start, then_step,
}
use grafana_app_sdk.Health.Observer.Rounds.{checks_added, last_round, status-last_round}

abbrev checks : List Check
checks = record { name = "informer"; check = 1 } ∷ record { name = "webhook"; check = 2 } ∷ []

abbrev health : Round
health c = if nat_eq c.check 2 then some 7 else none

abbrev seen : CheckStatus
seen = record {
  successful = false;
  results =
      record { name = "informer"; error = none } ∷ record { name = "webhook"; error = some 7 } ∷ [];
}

abbrev third : Check
third = record { name = "late"; check = 3 }

-- A check that is added after the round is not in the status.
abbrev observer : Observer
observer =
    add_checks (third ∷ [])
      (record (observe health (add_checks checks new_observer)) { phase = running })

reached : Reachable observer
reached = then_step (then_step (then_step start (adds checks)) (run health)) (adds (third ∷ []))

is_seen : status observer ≡ some seen
unfolding status observe collect_checks add_checks
is_seen = refl

status-last_round_example : status observer ≡ some seen
unfolding last_round checks_added reached
status-last_round_example = status-last_round observer reached
