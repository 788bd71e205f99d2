-- ===== src/App/Runner.antt =====
-- app/runner.go: `MultiRunner.Run` with its goroutines, as a state machine whose steps may come in
-- any order that the mutex, the wait group and the channel allow.
use grafana_app_sdk.Base.{
  ℕ, zero, suc, ◌+◌, ◌<◌, List, [], ◌∷◌, ◌++◌, ◌≡◌, Bool, true, false, Option, none, some, length,
  get_elem?, replicate, modify, sum,
}
pub mod Invariant
pub mod Exit
mod Tests

-- The goroutine of one runner, with the error that its runner has returned, by a number.
pub data Goroutine : Type 0 where
  running : Goroutine
  returned : Option ℕ → Goroutine
  done : Option ℕ → Goroutine
  locking : ℕ → Goroutine
  holding : ℕ → Goroutine
  sending : ℕ → Goroutine
  finished : Goroutine

-- What `Run` returns: the error of a runner or nil, or the timeout error joined with that.
pub data Outcome : Type 0 where
  plain : Option ℕ → Outcome
  timeout : Option ℕ → Outcome

-- Where the goroutine of `Run` stands: at its `select`, in the error handler, waiting for the
-- runners after it has canceled their context, in the deferred function before its lock, with the
-- lock, with `errsClosed` set, and returned.
pub data Main : Type 0 where
  selecting : Main
  handling : ℕ → Main
  waiting : Option ℕ → Main
  deferring : Outcome → Main
  closing : Outcome → Main
  closing_channel : Outcome → Main
  exited : Outcome → Main

pub record State : Type 0 where
  pub runners : List Goroutine
  pub capacity : ℕ
  pub errs : List ℕ
  pub locked : Bool
  pub errs_closed : Bool
  pub channel_closed : Bool
  pub timed_out : Bool
  pub canceled : Bool
  pub panicked : Bool
  pub main : Main

-- One goroutine for each of `n` runners has been started.
abbrev pub started : ℕ → State
started n = record {
  runners = replicate n running;
  capacity = n;
  errs = [];
  locked = false;
  errs_closed = false;
  channel_closed = false;
  timed_out = false;
  canceled = false;
  panicked = false;
  main = selecting;
}

abbrev pub moved : State → ℕ → Goroutine → State
moved s i g = record s { runners = modify i (λ old. g) s.runners }

-- The number of runners for which `wg.Done` has not been called.
abbrev pub active : Goroutine → ℕ
active running = 1
active (returned e) = 1
active _ = 0

-- `exit_wait` tells whether there is an `ExitWait`; the time for it may pass at any moment.
module _ (handler : ℕ → Bool) (exit_wait : Bool) where
  pub data Step : State → State → Type 0 where
    run_returns :
        {s : State} (i : ℕ) (e : Option ℕ)
        → get_elem? s.runners i ≡ some running
        → Step s (moved s i (returned e))
    wg_done :
        {s : State} (i : ℕ) (e : Option ℕ)
        → get_elem? s.runners i ≡ some (returned e)
        → Step s (moved s i (done e))
    without_error :
        {s : State} (i : ℕ) → get_elem? s.runners i ≡ some (done none) → Step s (moved s i finished)
    dropped :
        {s : State} (i e : ℕ)
        → get_elem? s.runners i ≡ some (done (some e))
        → s.timed_out ≡ true
        → Step s (moved s i finished)
    with_error :
        {s : State} (i e : ℕ)
        → get_elem? s.runners i ≡ some (done (some e))
        → s.timed_out ≡ false
        → Step s (moved s i (locking e))
    lock :
        {s : State} (i e : ℕ)
        → get_elem? s.runners i ≡ some (locking e)
        → s.locked ≡ false
        → Step s (record (moved s i (holding e)) { locked = true })
    finds_closed :
        {s : State} (i e : ℕ)
        → get_elem? s.runners i ≡ some (holding e)
        → s.errs_closed ≡ true
        → Step s (record (moved s i finished) { locked = false })
    finds_open :
        {s : State} (i e : ℕ)
        → get_elem? s.runners i ≡ some (holding e)
        → s.errs_closed ≡ false
        → Step s (moved s i (sending e))
    send :
        {s : State} (i e : ℕ)
        → get_elem? s.runners i ≡ some (sending e)
        → s.channel_closed ≡ false
        → length s.errs < s.capacity
        → Step s (record (moved s i finished) { errs = s.errs ++ e ∷ []; locked = false })
    send_closed :
        {s : State} (i e : ℕ)
        → get_elem? s.runners i ≡ some (sending e)
        → s.channel_closed ≡ true
        → Step s (record s { panicked = true })
    receive :
        {s : State} (e : ℕ) (es : List ℕ)
        → s.main ≡ selecting
        → s.errs ≡ e ∷ es
        → Step s (record s { errs = es; main = handling e })
    goes_on :
        {s : State} (e : ℕ)
        → s.main ≡ handling e
        → handler e ≡ false
        → Step s (record s { main = selecting })
    cancel :
        {s : State} (e : ℕ)
        → s.main ≡ handling e
        → handler e ≡ true
        → Step s (record s { canceled = true; main = waiting (some e) })
    context_done :
        {s : State}
        → s.main ≡ selecting
        → Step s (record s { canceled = true; main = waiting none })
    all_done :
        {s : State} (e : Option ℕ)
        → s.main ≡ waiting e
        → sum active s.runners ≡ 0
        → Step s (record s { main = deferring (plain e) })
    times_out :
        {s : State} (e : Option ℕ)
        → s.main ≡ waiting e
        → exit_wait ≡ true
        → Step s (record s { timed_out = true; main = deferring (timeout e) })
    lock_to_close :
        {s : State} (o : Outcome)
        → s.main ≡ deferring o
        → s.locked ≡ false
        → Step s (record s { locked = true; main = closing o })
    set_closed :
        {s : State} (o : Outcome)
        → s.main ≡ closing o
        → Step s (record s { errs_closed = true; main = closing_channel o })
    close :
        {s : State} (o : Outcome)
        → s.main ≡ closing_channel o
        → Step s (record s { channel_closed = true; locked = false; main = exited o })

  -- The states that a run of `n` runners comes through.
  pub data Reachable (n : ℕ) : State → Type 0 where
    start : Reachable n (started n)
    then_step : {s t : State} → Reachable n s → Step s t → Reachable n t
