-- ===== src/Health/Observer.antt =====
-- health/observer.go: the observer that runs health checks. `AddChecks`, `Run` and the ticks of its
-- ticker come in any order; a round of checks has the read lock, so no check is added meanwhile.
-- What a check says of its health is outside code, which may say another thing in each round.
use grafana_app_sdk.Base.{
  ℕ, String, List, [], ◌∷◌, ◌++◌, ◌≡◌, Bool, true, false, ◌&&◌, Option, none, some, if◌then◌else◌,
}
pub mod Rounds
mod Tests

-- A check, with the name that it tells and a number that stands for its implementation.
pub record Check : Type 0 where
  pub name : String
  pub check : ℕ

pub record CheckResult : Type 0 where
  pub name : String
  pub error : Option ℕ

pub record CheckStatus : Type 0 where
  pub successful : Bool
  pub results : List CheckResult

abbrev pub is_some : Option ℕ → Bool
is_some none = false
is_some (some e) = true

-- Where `Run` stands.
pub data Phase : Type 0 where
  idle running stopped : Phase

pub record Observer : Type 0 where
  pub checks : List Check
  pub run_status : Option CheckStatus
  pub phase : Phase

abbrev pub new_observer : Observer
new_observer = record { checks = []; run_status = none; phase = idle }

pub add_checks : List Check → Observer → Observer
add_checks cs c = record c { checks = c.checks ++ cs }

pub status : Observer → Option CheckStatus
status c = c.run_status

-- What the checks say in one round.
abbrev pub Round : Type 0
Round = Check → Option ℕ

-- The loop of `collectChecks`.
unfoldable pub collect_from : Round → List Check → CheckStatus → CheckStatus
collect_from health [] st = st
collect_from health (c ∷ cs) st = collect_from health cs (record {
  successful = if st.successful && is_some (health c) then false else st.successful;
  results = st.results ++ record { name = c.name; error = health c } ∷ [];
})

pub collect_checks : Round → Observer → CheckStatus
unfolding collect_from
collect_checks health c = collect_from health c.checks (record { successful = true; results = [] })

-- A round, and its status.
pub observe : Round → Observer → Observer
unfolding collect_checks
observe health c = record c { run_status = some (collect_checks health c) }

pub data Step : Observer → Observer → Type 0 where
  adds : {c : Observer} (cs : List Check) → Step c (add_checks cs c)
  -- `Run` with its first round, a tick, and the end of the context.
  run : {c : Observer} (health : Round) → Step c (record (observe health c) { phase = running })
  ticks : {c : Observer} (health : Round) → c.phase ≡ running → Step c (observe health c)
  stops : {c : Observer} → c.phase ≡ running → Step c (record c { phase = stopped })

pub data Reachable : Observer → Type 0 where
  start : Reachable new_observer
  then_step : {c d : Observer} → Reachable c → Step c d → Reachable d
