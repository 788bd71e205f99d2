-- ===== src/Health/Observer/Rounds.antt =====
-- The status of an observer, and the round of checks that it comes from.
use mathlib.Core.List.{append_assoc, append-nil}
use grafana_app_sdk.Base.{
  List, [], ◌∷◌, ◌++◌, ◌≡◌, refl, sym, ap, ◌∙◌, Bool, true, false, ◌&&◌, not, Option, none, some,
  map, if◌then◌else◌,
}
use grafana_app_sdk.Health.Observer.{
  Check, CheckResult, CheckStatus, is_some, Observer, add_checks, Round, collect_from,
  collect_checks, observe, status, adds, run, ticks, stops, Reachable, start, then_step,
}

abbrev pub result_of : Round → Check → CheckResult
result_of health c = record { name = c.name; error = health c }

-- No check of a round has said an error.
abbrev pub healthy : Round → List Check → Bool
healthy health [] = true
healthy health (c ∷ cs) = not (is_some (health c)) && healthy health cs

collect_from_lem :
    (health : Round) (cs : List Check) (st : CheckStatus)
    → ((collect_from health cs st).results ≡ st.results ++ map (result_of health) cs)
      × ((collect_from health cs st).successful ≡ (st.successful && healthy health cs))
unfolding collect_from
collect_from_lem health [] st = (sym (append-nil st.results), and_true st.successful)
  where
    and_true : (b : Bool) → b ≡ (b && true)
    and_true true = refl
    and_true false = refl
collect_from_lem health (c ∷ cs) st =
    let next : CheckStatus = record {
      successful = if st.successful && is_some (health c) then false else st.successful;
      results = st.results ++ result_of health c ∷ [];
    } in
    let (r, s) = collect_from_lem health cs next in
    (
      r ∙ append_assoc st.results (result_of health c ∷ []) (map (result_of health) cs),
      s ∙ one st.successful (is_some (health c)) (healthy health cs),
    )
  where
    one : (a b rest : Bool) → ((if a && b then false else a) && rest) ≡ (a && (not b && rest))
    one true true rest = refl
    one true false rest = refl
    one false b rest = refl

-- The status of one round of some checks, each of them with its name and the error that it told.
abbrev pub round_of : Round → List Check → CheckStatus
round_of health cs = record { successful = healthy health cs; results = map (result_of health) cs }

observed : (health : Round) (c : Observer) → collect_checks health c ≡ round_of health c.checks
unfolding collect_checks
observed health c =
    let begin : CheckStatus = record { successful = true; results = [] } in
    let (r, s) = collect_from_lem health c.checks begin in
    same (collect_from health c.checks begin) (round_of health c.checks) s r
  where
    same : (a b : CheckStatus) → a.successful ≡ b.successful → a.results ≡ b.results → a ≡ b
    same a b s r = cc (s, r)

-- The checks that were added on the way to a state, in the order in which they were added.
unfoldable pub checks_added : {c : Observer} → Reachable c → List Check
checks_added start = []
checks_added (then_step before (adds cs)) = checks_added before ++ cs
checks_added (then_step before (run health)) = checks_added before
checks_added (then_step before (ticks health p)) = checks_added before
checks_added (then_step before (stops p)) = checks_added before

-- The last round on the way to a state, of all checks that had been added before it.
unfoldable pub last_round : {c : Observer} → Reachable c → Option CheckStatus
unfolding checks_added
last_round start = none
last_round (then_step before (adds cs)) = last_round before
last_round (then_step before (run health)) = some (round_of health (checks_added before))
last_round (then_step before (ticks health p)) = some (round_of health (checks_added before))
last_round (then_step before (stops p)) = last_round before

checks-checks_added : (c : Observer) (reached : Reachable c) → c.checks ≡ checks_added reached
unfolding checks_added add_checks observe
checks-checks_added c start = refl
checks-checks_added c (then_step {c = d} before (adds cs)) =
    ap (λ l. l ++ cs) (checks-checks_added d before)
checks-checks_added c (then_step {c = d} before (run health)) = checks-checks_added d before
checks-checks_added c (then_step {c = d} before (ticks health p)) = checks-checks_added d before
checks-checks_added c (then_step {c = d} before (stops p)) = checks-checks_added d before

observed_then :
    (health : Round) (d : Observer) (before : Reachable d)
    → some (collect_checks health d) ≡ some (round_of health (checks_added before))
observed_then health d before =
    ap some (observed health d ∙ ap (round_of health) (checks-checks_added d before))

-- The status of an observer, whatever was done to it: it is that of the last round of checks, by
-- `Run` or by a tick, and none before the first one. The round has one result for each check that
-- had been added before it, in the order in which they were added, with the name and the error that
-- the check told, and it is successful exactly if none told an error.
pub status-last_round : (c : Observer) (reached : Reachable c) → status c ≡ last_round reached
unfolding status add_checks observe last_round
status-last_round c start = refl
status-last_round c (then_step {c = d} before (adds cs)) = status-last_round d before
status-last_round c (then_step {c = d} before (run health)) = observed_then health d before
status-last_round c (then_step {c = d} before (ticks health p)) = observed_then health d before
status-last_round c (then_step {c = d} before (stops p)) = status-last_round d before
