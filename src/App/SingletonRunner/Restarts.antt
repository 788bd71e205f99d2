-- ===== src/App/SingletonRunner/Restarts.antt =====
-- How often a `SingletonRunner` starts the wrapped runnable.
use grafana_app_sdk.Base.{
  ℕ, zero, suc, ◌+◌, ◌≤◌, List, [], ◌∷◌, ◌++◌, ◌≡◌, refl, ap, Bool, true, false, none, some, length,
  get_elem?, sum, arith, length-append, length-modify,
}
use grafana_app_sdk.App.SingletonRunner.{
  Cause, cancel, cause_of, Caller, registered, entered, Instance, runs, ended, State, active, moved,
  Step, call, enters_first, enters, selects, sees_context, sees_done, stops_others, instance_ends,
  wakes, reset, Reachable, start, then_step, Later, now, next,
}

abbrev pub bit : Bool → ℕ
bit true = 1
bit false = 0

-- An instance that has not ended.
abbrev pub live : Instance → ℕ
live runs = 1
live ended = 0

module _ (stop_on_any : Bool) where
  -- One goroutine that will reset `running` while it is set, and one instance for each time that it
  -- was set.
  abbrev pub IsCounted : State → Type 0
  IsCounted s =
      (bit s.running ≡ s.waiting + s.woken)
      × (length s.instances ≡ s.resets + bit s.running)
      × (length s.contexts ≡ length s.instances)

  bit_le_one : (b : Bool) → bit b ≤ 1
  bit_le_one true = omega arith
  bit_le_one false = omega arith

  step-IsCounted : (s t : State) → IsCounted s → Step stop_on_any s t → IsCounted t
  step-IsCounted s t v call = v
  step-IsCounted s t v (enters_first i at h) =
      let a = length-append s.instances (runs ∷ []) in
      let b = length-append s.contexts (none ∷ []) in let c = ap bit h in ground arith
  step-IsCounted s t v (enters i at h) = v
  step-IsCounted s t v (selects i at) = v
  step-IsCounted s t v (sees_context i g c e at d f) = v
  step-IsCounted s t v (sees_done i g at) = v
  step-IsCounted s t v (stops_others i c h at) =
      let a = length-modify s.current (cancel Cause.other_run_stopped) s.contexts in ground arith
  step-IsCounted s t v (instance_ends g e at) =
      let a = length-modify s.current (cancel (cause_of e)) s.contexts in
      let b = length-modify g (λ (old : Instance). ended) s.instances in ground arith
  step-IsCounted s t v (wakes n h z) = ground arith
  step-IsCounted s t v (reset n h) = let b = bit_le_one s.running in ground arith

  pub Reachable-IsCounted : (s : State) → Reachable stop_on_any s → IsCounted s
  Reachable-IsCounted s start = (refl, refl, refl)
  Reachable-IsCounted s (then_step {s = r} before step) =
      step-IsCounted r s (Reachable-IsCounted r before) step

  live_le : (is : List Instance) → sum live is ≤ length is
  live_le [] = omega arith
  live_le (runs ∷ is) = let rest = live_le is in omega arith
  live_le (ended ∷ is) = let rest = live_le is in omega arith

  sum-append : (is : List Instance) → sum live (is ++ runs ∷ []) ≡ suc (sum live is)
  sum-append [] = refl
  sum-append (i ∷ is) = let rest = sum-append is in omega arith

  last_of : (cs : List Caller) (c : Caller) → get_elem? (cs ++ c ∷ []) (length cs) ≡ some c
  last_of [] c = refl
  last_of (x ∷ cs) c = last_of cs c

  -- The wrapped runnable has been started once for each time that `running` was set, so as long as
  -- it has not been reset at most one instance runs.
  pub instances_counted :
      (s : State)
      → Reachable stop_on_any s
      → (length s.instances ≡ s.resets + bit s.running) × (sum live s.instances ≤ suc s.resets)
  instances_counted s r =
      let v = Reachable-IsCounted s r in
      let l = live_le s.instances in let b = bit_le_one s.running in (v.1, omega arith)

  -- After a new call that starts the wrapped runnable.
  abbrev restarted : State → State
  restarted s =
      record (moved (record s { calls = s.calls ++ registered ∷ [] }) (length s.calls) entered) {
        running = true;
        contexts = s.contexts ++ none ∷ [];
        current = length s.contexts;
        instances = s.instances ++ runs ∷ [];
        waiting = suc s.waiting;
      }

  restart :
      (s t : State) → Later stop_on_any s t → t.running ≡ false → Later stop_on_any s (restarted t)
  restart s t l h =
      next (next l call) (enters_first (length t.calls) (last_of t.calls registered) h)

  -- Once every call has returned, another call starts a new instance of the wrapped runnable beside
  -- those that have not ended: nothing waits for them, or tells them to end.
  pub restarts_alongside :
      (s : State)
      → Reachable stop_on_any s
      → s.running ≡ true
      → sum active s.calls ≡ 0
      → (t : State) × Later stop_on_any s t × (sum live t.instances ≡ suc (sum live s.instances))
  restarts_alongside s r h z =
      let v = Reachable-IsCounted s r in
      let b : s.waiting + s.woken ≡ 1 = (let c = ap bit h in omega arith) in
      by_goroutine s.waiting s.woken refl refl b
    where
      by_goroutine :
          (m n : ℕ)
          → s.waiting ≡ m
          → s.woken ≡ n
          → m + n ≡ 1
          → (t : State) × Later stop_on_any s t
            × (sum live t.instances ≡ suc (sum live s.instances))
      by_goroutine zero zero e f one = absurd (omega arith)
      by_goroutine zero (suc n) e f one =
          (_, restart s _ (next now (reset n f)) refl, sum-append s.instances)
      by_goroutine (suc m) n e f one = (
        _,
        restart s _ (next (next now (wakes m e z)) (reset s.woken refl)) refl,
        sum-append s.instances,
      )
