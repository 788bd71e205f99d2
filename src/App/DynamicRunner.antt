-- ===== src/App/DynamicRunner.antt =====
-- app/runner.go: `DynamicMultiRunner`, whose runners come and go while it runs. A pointer to a tuple
-- is its place in `tuples`, where no tuple is ever freed; runnables and errors are numbers.
use grafana_app_sdk.Base.{
  ℕ, zero, suc, ◌+◌, ◌-◌, List, [], ◌∷◌, ◌++◌, ◌≡◌, Bool, true, false, Option, none, some,
  if◌then◌else◌, ltb, nat_eq, length, get_elem?, modify, map, sum,
}
use grafana_app_sdk.App.Runner.{Outcome, plain, timeout}
pub mod Panics
mod Tests

pub record Tuple : Type 0 where
  pub runner : ℕ
  pub canceled : Bool
  pub has_cancel : Bool
  pub main_timed_out : Bool

-- The goroutine that `runTuple` starts for the tuple at an address.
pub data Goroutine : Type 0 where
  running : ℕ → Goroutine
  returned : ℕ → Option ℕ → Goroutine
  done : ℕ → Option ℕ → Goroutine
  sending : ℕ → Goroutine
  finished : Goroutine

pub data Main : Type 0 where
  not_called : Main
  selecting : Main
  handling : ℕ → Main
  waiting : Option ℕ → Main
  deferring : Outcome → Main
  exited : Outcome → Main

-- A Go slice: the array below it, from its start, and its length.
pub record Slice : Type 0 where
  pub array : List ℕ
  pub len : ℕ

abbrev pub take : ℕ → List ℕ → List ℕ
take zero xs = []
take (suc n) [] = []
take (suc n) (x ∷ xs) = x ∷ take n xs

abbrev pub elements : Slice → List ℕ
elements s = take s.len s.array

pub record State : Type 0 where
  pub tuples : List Tuple
  pub runners : Slice
  pub is_running : Bool
  pub goroutines : List Goroutine
  pub channel_closed : Bool
  pub canceled : Bool
  pub panicked : Bool
  pub main : Main

-- `NewDynamicMultiRunner`.
abbrev pub new_dynamic_multi_runner : State
new_dynamic_multi_runner = record {
  tuples = [];
  runners = record { array = []; len = 0 };
  is_running = false;
  goroutines = [];
  channel_closed = false;
  canceled = false;
  panicked = false;
  main = not_called;
}

-- `runTuple`: a new cancel function for the tuple, and a goroutine.
pub run_tuple : ℕ → State → State
run_tuple a s = record s {
  tuples = modify a (λ t. record t { canceled = false; has_cancel = true }) s.tuples;
  goroutines = s.goroutines ++ running a ∷ [];
}

-- The loop of `Run` that starts the runners.
pub run_all : List ℕ → State → State
unfolding run_tuple
run_all [] s = s
run_all (a ∷ rest) s = run_all rest (
    run_tuple a
      (record s { tuples = modify a (λ t. record t { main_timed_out = false }) s.tuples }))

-- `Run` up to its loop.
pub run : State → State
unfolding run_all
run s =
    run_all (elements s.runners)
      (record s { is_running = true; channel_closed = false; canceled = false; main = selecting })

pub set_timed_out : Bool → List ℕ → List Tuple → List Tuple
set_timed_out val [] ts = ts
set_timed_out val (a ∷ rest) ts =
    set_timed_out val rest (modify a (λ t. record t { main_timed_out = val }) ts)

-- `append` puts the element after the last one of the slice.
abbrev pub appended : Slice → ℕ → Slice
appended s a = record { array = take s.len s.array ++ a ∷ []; len = suc s.len }

pub add_runnable : ℕ → State → State
unfolding run_tuple
add_runnable r s =
    let t : Tuple = record {
      runner = r;
      canceled = false;
      has_cancel = false;
      main_timed_out = false;
    } in
    let a = length s.tuples in
    let s' = record s { tuples = s.tuples ++ t ∷ [] } in
    let s'' = if s.is_running then run_tuple a s' else s' in
    record s'' { runners = appended s.runners a }

-- The elements of the first `n` places move down over the first of them, and the last one stays
-- where it is too.
pub move_down : ℕ → List ℕ → List ℕ
move_down (suc (suc n)) (x ∷ y ∷ ys) = y ∷ move_down (suc n) (y ∷ ys)
move_down n xs = xs

-- `append(s[:i], s[i+1:]...)` in the array of `s`, whose length is `n`.
pub remove_at : ℕ → ℕ → List ℕ → List ℕ
unfolding move_down
remove_at zero n xs = move_down n xs
remove_at (suc i) (suc n) (x ∷ xs) = x ∷ remove_at i n xs
remove_at (suc i) n xs = xs

-- The cancel function of the tuple at an address, where there is one.
abbrev pub cancel_at : ℕ → List Tuple → List Tuple
cancel_at a ts = modify a (λ t. if t.has_cancel then record t { canceled = true } else t) ts

-- Whether the tuple at an address has the runnable.
abbrev pub has_runner : List Tuple → ℕ → ℕ → Bool
has_runner ts r a = elim (get_elem? ts a) [ none ↦ false | some t ↦ nat_eq t.runner r ]

-- What the loop of `RemoveRunnable` does at place `i`.
pub remove_here : ℕ → ℕ → ℕ → State → State
unfolding remove_at
remove_here r i a s =
    if has_runner s.tuples r a
    then record s {
      tuples = if s.is_running then cancel_at a s.tuples else s.tuples;
      runners =
          if ltb (i + 1) s.runners.len
          then record { array = remove_at i s.runners.len s.runners.array; len = s.runners.len - 1 }
          else record { array = s.runners.array; len = i };
    }
    else s

-- The loop from place `i` on, with the number of places that are left: it goes over the places of
-- the slice that there was at first, and reads the array below it.
pub remove_loop : ℕ → ℕ → ℕ → State → State
unfolding remove_here
remove_loop r i zero s = s
remove_loop r i (suc left) s =
    remove_loop r (i + 1) left
      (elim (get_elem? s.runners.array i) [ none ↦ s | some a ↦ remove_here r i a s ])

pub remove_runnable : ℕ → State → State
unfolding remove_loop
remove_runnable r s = remove_loop r 0 s.runners.len s

-- The number of goroutines for which `wg.Done` has not been called.
abbrev pub active : Goroutine → ℕ
active (running a) = 1
active (returned a e) = 1
active _ = 0

abbrev pub moved : State → ℕ → Goroutine → State
moved s i g = record s { goroutines = modify i (λ old. g) s.goroutines }

module _ (handler : ℕ → Bool) (exit_wait : Bool) where
  pub data Step : State → State → Type 0 where
    add : {s : State} (r : ℕ) → Step s (add_runnable r s)
    remove : {s : State} (r : ℕ) → Step s (remove_runnable r s)
    call_run : {s : State} → s.is_running ≡ false → Step s (run s)
    run_returns :
        {s : State} (i a : ℕ) (e : Option ℕ)
        → get_elem? s.goroutines i ≡ some (running a)
        → Step s (moved s i (returned a e))
    wg_done :
        {s : State} (i a : ℕ) (e : Option ℕ)
        → get_elem? s.goroutines i ≡ some (returned a e)
        → Step s (moved s i (done a e))
    without_error :
        {s : State} (i a : ℕ)
        → get_elem? s.goroutines i ≡ some (done a none)
        → Step s (moved s i finished)
    dropped :
        {s : State} (i a e : ℕ) (t : Tuple)
        → get_elem? s.goroutines i ≡ some (done a (some e))
        → get_elem? s.tuples a ≡ some t
        → t.main_timed_out ≡ true
        → Step s (moved s i finished)
    with_error :
        {s : State} (i a e : ℕ) (t : Tuple)
        → get_elem? s.goroutines i ≡ some (done a (some e))
        → get_elem? s.tuples a ≡ some t
        → t.main_timed_out ≡ false
        → Step s (moved s i (sending e))
    -- The channel has no buffer: a send waits for the `select` of `Run`.
    hand_over :
        {s : State} (i e : ℕ)
        → get_elem? s.goroutines i ≡ some (sending e)
        → s.main ≡ selecting
        → s.channel_closed ≡ false
        → Step s (record (moved s i finished) { main = handling e })
    send_closed :
        {s : State} (i e : ℕ)
        → get_elem? s.goroutines i ≡ some (sending e)
        → s.channel_closed ≡ true
        → Step s (record s { panicked = true })
    goes_on :
        {s : State} (e : ℕ)
        → s.main ≡ handling e
        → handler e ≡ false
        → Step s (record s { main = selecting })
    cancel :
        {s : State} (e : ℕ)
        → s.main ≡ handling e
        → handler e ≡ true
        → Step s (record s { canceled = true; main = waiting (some e) })
    context_done :
        {s : State}
        → s.main ≡ selecting
        → Step s (record s { canceled = true; main = waiting none })
    all_done :
        {s : State} (e : Option ℕ)
        → s.main ≡ waiting e
        → sum active s.goroutines ≡ 0
        → Step s (record s { main = deferring (plain e) })
    times_out :
        {s : State} (e : Option ℕ)
        → s.main ≡ waiting e
        → exit_wait ≡ true
        → Step s (record s {
          tuples = set_timed_out true (elements s.runners) s.tuples;
          main = deferring (timeout e);
        })
    close :
        {s : State} (o : Outcome)
        → s.main ≡ deferring o
        → Step s (record s { channel_closed = true; main = exited o })

  -- The states that a new runner comes through.
  pub data Reachable : State → Type 0 where
    start : Reachable new_dynamic_multi_runner
    then_step : {s t : State} → Reachable s → Step s t → Reachable t
