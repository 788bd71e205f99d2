-- ===== src/App/Runner/Exit.antt =====
-- What `MultiRunner.Run` returns, and when.
use grafana_app_sdk.Base.{
  ℕ, ◌≡◌, refl, ap, subst, Bool, true, false, Option, none, some, sum, arith,
}
use grafana_app_sdk.App.Runner.{
  Outcome, plain, timeout, Main, selecting, handling, waiting, deferring, closing, closing_channel,
  exited, State, active, Step, receive, goes_on, cancel, context_done, all_done, times_out,
  lock_to_close, set_closed, close, Reachable, start, then_step,
}
use grafana_app_sdk.App.Runner.Invariant.{bit, main_past, IsValid, Reachable-IsValid}

module _ (handler : ℕ → Bool) (exit_wait : Bool) where
  Accepted : Bool → Option ℕ → Type 0
  Accepted canceled none = canceled ≡ true
  Accepted canceled (some e) = (canceled ≡ true) × (handler e ≡ true)

  Told : Bool → Bool → Outcome → Type 0
  Told timed_out canceled (plain r) = (timed_out ≡ false) × Accepted canceled r
  Told timed_out canceled (timeout r) = (exit_wait ≡ true) × Accepted canceled r

  abbrev IsChosen : Bool → Bool → Main → Type 0
  IsChosen timed_out canceled selecting = timed_out ≡ false
  IsChosen timed_out canceled (handling e) = timed_out ≡ false
  IsChosen timed_out canceled (waiting r) = (timed_out ≡ false) × Accepted canceled r
  IsChosen timed_out canceled (deferring o) = Told timed_out canceled o
  IsChosen timed_out canceled (closing o) = Told timed_out canceled o
  IsChosen timed_out canceled (closing_channel o) = Told timed_out canceled o
  IsChosen timed_out canceled (exited o) = Told timed_out canceled o

  step-IsChosen :
      (s t : State)
      → Step handler exit_wait s t
      → IsChosen s.timed_out s.canceled s.main
      → IsChosen t.timed_out t.canceled t.main
  unfolding Accepted Told
  step-IsChosen s t (receive e es m h) c = subst (IsChosen s.timed_out s.canceled) m c
  step-IsChosen s t (goes_on e m h) c = subst (IsChosen s.timed_out s.canceled) m c
  step-IsChosen s t (cancel e m h) c = (subst (IsChosen s.timed_out s.canceled) m c, (refl, h))
  step-IsChosen s t (context_done m) c = (subst (IsChosen s.timed_out s.canceled) m c, refl)
  step-IsChosen s t (all_done e m h) c = subst (IsChosen s.timed_out s.canceled) m c
  step-IsChosen s t (times_out e m h) c = (h, (subst (IsChosen s.timed_out s.canceled) m c).1)
  step-IsChosen s t (lock_to_close o m h) c = subst (IsChosen s.timed_out s.canceled) m c
  step-IsChosen s t (set_closed o m) c = subst (IsChosen s.timed_out s.canceled) m c
  step-IsChosen s t (close o m) c = subst (IsChosen s.timed_out s.canceled) m c
  step-IsChosen s t _ c = c

  Reachable-IsChosen :
      (n : ℕ) (s : State) → Reachable handler exit_wait n s → IsChosen s.timed_out s.canceled s.main
  Reachable-IsChosen n s start = refl
  Reachable-IsChosen n s (then_step {s = r} before step) =
      step-IsChosen r s step (Reachable-IsChosen n r before)

  -- What the result of `Run` says of the state in which it returns.
  abbrev pub IsExit : State → Outcome → Type 0
  IsExit s (plain none) = (s.canceled ≡ true) × (sum active s.runners ≡ 0)
  IsExit s (plain (some e)) = (s.canceled ≡ true) × (handler e ≡ true) × (sum active s.runners ≡ 0)
  IsExit s (timeout none) = (s.canceled ≡ true) × (exit_wait ≡ true)
  IsExit s (timeout (some e)) = (s.canceled ≡ true) × (handler e ≡ true) × (exit_wait ≡ true)

  -- When `Run` has returned without the timeout error every runner has returned; with it there is
  -- an `ExitWait`. An error of a runner is returned only if the error handler said that it stops
  -- the run, and the context of the runners is canceled in any case.
  pub Reachable-IsExit :
      (n : ℕ) (s : State) (o : Outcome)
      → Reachable handler exit_wait n s
      → s.main ≡ exited o
      → IsExit s o
  unfolding Accepted Told
  Reachable-IsExit n s o r m =
      go o (Reachable-IsValid handler exit_wait n s r) (ap main_past m)
        (subst (IsChosen s.timed_out s.canceled) m (Reachable-IsChosen n s r))
    where
      go :
          (o : Outcome)
          → IsValid handler exit_wait s
          → main_past s.main ≡ 1
          → Told s.timed_out s.canceled o
          → IsExit s o
      go (plain none) v p (t, c) = let b = ap bit t in ground arith
      go (plain (some e)) v p (t, (c, h)) = let b = ap bit t in ground arith
      go (timeout none) v p (w, c) = (c, w)
      go (timeout (some e)) v p (w, (c, h)) = (c, h, w)
