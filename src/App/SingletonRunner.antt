-- ===== src/App/SingletonRunner.antt =====
-- app/runner.go: `SingletonRunner`, as a state machine. Calls of `Run`, the goroutines that they start
-- and the wrapped runnable take turns in any order that the mutex and the wait group allow. The
-- context of a call may be done at any moment.
use grafana_app_sdk.Base.{
  ℕ, zero, suc, ◌+◌, List, [], ◌∷◌, ◌++◌, ◌≡◌, Bool, true, false, Option, none, some, length,
  get_elem?, modify, sum,
}
pub mod Restarts
mod Tests

-- The cause of a context that is done: `context.Canceled`, `ErrOtherRunStopped`, and an error of the
-- wrapped runnable, by a number.
pub data Cause : Type 0 where
  canceled : Cause
  other_run_stopped : Cause
  failed : ℕ → Cause

-- `context.CancelCauseFunc` with the error of the runnable: nil stands for `context.Canceled`.
pub cause_of : Option ℕ → Cause
cause_of none = canceled
cause_of (some e) = failed e

-- Only the first cancellation of a context counts.
pub cancel : Cause → Option Cause → Option Cause
cancel c none = some c
cancel c (some d) = some d

-- A call of `Run`: after `wg.Add`, after its critical section, at its `select` with a context of the
-- runner, by its number, and returned with an error or nil.
pub data Caller : Type 0 where
  registered : Caller
  entered : Caller
  selecting : ℕ → Caller
  returned : Option Cause → Caller

-- A goroutine that runs the wrapped runnable.
pub data Instance : Type 0 where
  runs : Instance
  ended : Instance

-- The calls, the contexts that were made with their causes, the instances of the wrapped runnable,
-- and the goroutines that wait for the calls and those that have been woken. `ctx` and `cancel` are
-- those of the context with the number `current`; `resets` counts how often `running` became false.
pub record State : Type 0 where
  pub running : Bool
  pub calls : List Caller
  pub contexts : List (Option Cause)
  pub current : ℕ
  pub instances : List Instance
  pub waiting : ℕ
  pub woken : ℕ
  pub resets : ℕ

abbrev pub new_singleton_runner : State
new_singleton_runner = record {
  running = false;
  calls = [];
  contexts = [];
  current = 0;
  instances = [];
  waiting = 0;
  woken = 0;
  resets = 0;
}

abbrev pub active : Caller → ℕ
active (returned e) = 0
active _ = 1

abbrev pub moved : State → ℕ → Caller → State
moved s i c = record s { calls = modify i (λ old. c) s.calls }

-- `s.cancel`, of the context that is the current one when it is called.
abbrev pub cancelled : State → Cause → State
cancelled s c = record s { contexts = modify s.current (cancel c) s.contexts }

module _ (stop_on_any : Bool) where
  pub data Step : State → State → Type 0 where
    call : {s : State} → Step s (record s { calls = s.calls ++ registered ∷ [] })
    -- The critical section, with a new context and a new instance or without.
    enters_first :
        {s : State} (i : ℕ)
        → get_elem? s.calls i ≡ some registered
        → s.running ≡ false
        → Step s (record (moved s i entered) {
          running = true;
          contexts = s.contexts ++ none ∷ [];
          current = length s.contexts;
          instances = s.instances ++ runs ∷ [];
          waiting = suc s.waiting;
        })
    enters :
        {s : State} (i : ℕ)
        → get_elem? s.calls i ≡ some registered
        → s.running ≡ true
        → Step s (moved s i entered)
    selects :
        {s : State} (i : ℕ)
        → get_elem? s.calls i ≡ some entered
        → Step s (moved s i (selecting s.current))
    -- The context of the select is done, and the cause is that of the current one.
    sees_context :
        {s : State} (i g : ℕ) (c : Cause) (e : Option Cause)
        → get_elem? s.calls i ≡ some (selecting g)
        → get_elem? s.contexts g ≡ some (some c)
        → get_elem? s.contexts s.current ≡ some e
        → Step s (moved s i (returned e))
    -- The context of the call is done.
    sees_done :
        {s : State} (i g : ℕ)
        → get_elem? s.calls i ≡ some (selecting g)
        → Step s (moved s i (returned none))
    stops_others :
        {s : State} (i : ℕ) (c : Caller)
        → stop_on_any ≡ true
        → get_elem? s.calls i ≡ some c
        → Step s (cancelled s other_run_stopped)
    instance_ends :
        {s : State} (g : ℕ) (e : Option ℕ)
        → get_elem? s.instances g ≡ some runs
        → Step s
            (record (cancelled s (cause_of e)) { instances = modify g (λ old. ended) s.instances })
    -- `wg.Wait` returns when no call is left, and `running` is reset later.
    wakes :
        {s : State} (n : ℕ)
        → s.waiting ≡ suc n
        → sum active s.calls ≡ 0
        → Step s (record s { waiting = n; woken = suc s.woken })
    reset :
        {s : State} (n : ℕ)
        → s.woken ≡ suc n
        → Step s (record s { running = false; woken = n; resets = suc s.resets })

  pub data Reachable : State → Type 0 where
    start : Reachable new_singleton_runner
    then_step : {s t : State} → Reachable s → Step s t → Reachable t

  -- The states that a state may come to.
  pub data Later (s : State) : State → Type 0 where
    now : Later s s
    next : {t u : State} → Later s t → Step t u → Later s u
