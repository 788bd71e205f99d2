-- ===== src/App/Runner/Invariant.antt =====
-- What holds in every state that `MultiRunner.Run` comes through.
use grafana_app_sdk.Base.{
  ℕ, zero, suc, ◌+◌, ◌≤◌, ◌<◌, List, [], ◌∷◌, ◌≡◌, refl, ap, Bool, true, false, none, some, ◌⊎◌,
  modify, sum, get_elem?, replicate, length, arith, length-append, sum-modify, sum-le,
}
use grafana_app_sdk.App.Runner.{
  Goroutine, running, returned, done, locking, holding, sending, finished, Main, deferring, closing,
  closing_channel, exited, State, moved, active, Step, run_returns, wg_done, without_error, dropped,
  with_error, lock, finds_closed, finds_open, send, send_closed, receive, goes_on, cancel,
  context_done, all_done, times_out, lock_to_close, set_closed, close, Reachable, start, then_step,
}

-- Whether a goroutine may still send, has the lock, and is about to send.
abbrev pub pending : Goroutine → ℕ
pending finished = 0
pending _ = 1

abbrev pub holds : Goroutine → ℕ
holds (holding e) = 1
holds (sending e) = 1
holds _ = 0

abbrev pub sends : Goroutine → ℕ
sends (sending e) = 1
sends _ = 0

abbrev pub bit : Bool → ℕ
bit true = 1
bit false = 0

-- Whether `Run` has the lock, has set `errsClosed`, and has left its loop.
abbrev pub main_holds : Main → ℕ
main_holds (closing o) = 1
main_holds (closing_channel o) = 1
main_holds _ = 0

abbrev pub main_marks : Main → ℕ
main_marks (closing_channel o) = 1
main_marks (exited o) = 1
main_marks _ = 0

abbrev pub main_past : Main → ℕ
main_past (deferring o) = 1
main_past (closing o) = 1
main_past (closing_channel o) = 1
main_past (exited o) = 1
main_past _ = 0

module _ (handler : ℕ → Bool) (exit_wait : Bool) where
  -- One holder of the lock at most, nobody about to send once `errsClosed` is set, room in the
  -- channel for all that may still send, and a wait for the runners or a timeout behind it.
  abbrev pub IsValid : State → Type 0
  IsValid s =
      (length s.errs + sum pending s.runners ≤ s.capacity)
      × (sum holds s.runners + main_holds s.main ≡ bit s.locked)
      × (sum sends s.runners + bit s.errs_closed ≤ 1)
      × (main_marks s.main ≤ bit s.errs_closed)
      × (bit s.channel_closed ≤ bit s.errs_closed)
      × (bit s.panicked ≡ 0)
      × ((main_past s.main ≡ 0) ⊎ (bit s.timed_out ≡ 1) ⊎ (sum active s.runners ≡ 0))

  sends_le_holds : (rs : List Goroutine) → sum sends rs ≤ sum holds rs
  sends_le_holds rs = sum-le sends holds rs at_one
    where
      at_one : (g : Goroutine) → sends g ≤ holds g
      at_one (holding e) = omega arith
      at_one (sending e) = omega arith
      at_one _ = omega arith

  bit_le_one : (b : Bool) → bit b ≤ 1
  bit_le_one true = omega arith
  bit_le_one false = omega arith

  counts-modify :
      (rs : List Goroutine) (i : ℕ) (g g' : Goroutine)
      → get_elem? rs i ≡ some g
      → let rs' = modify i (λ old. g') rs in
        (sum pending rs' + pending g ≡ sum pending rs + pending g')
        × (sum holds rs' + holds g ≡ sum holds rs + holds g')
        × (sum sends rs' + sends g ≡ sum sends rs + sends g')
        × (sum active rs' + active g ≡ sum active rs + active g')
        × (sum sends rs' ≤ sum holds rs')
  counts-modify rs i g g' at = (
    sum-modify pending i g g' rs at,
    sum-modify holds i g g' rs at,
    sum-modify sends i g g' rs at,
    sum-modify active i g g' rs at,
    sends_le_holds (modify i (λ old. g') rs),
  )

  runner-IsValid :
      (s : State) (i : ℕ) (g g' : Goroutine)
      → get_elem? s.runners i ≡ some g
      → pending g' ≤ pending g
      → holds g' ≡ holds g
      → sends g' ≡ sends g
      → active g' ≤ active g
      → IsValid s
      → IsValid (moved s i g')
  runner-IsValid s i g g' at p h z a v =
      let counted = counts-modify s.runners i g g' at in ground arith

  step-IsValid : (s t : State) → IsValid s → Step handler exit_wait s t → IsValid t
  step-IsValid s t v (run_returns i e at) =
      runner-IsValid s i running (returned e) at (omega arith) refl refl (omega arith) v
  step-IsValid s t v (wg_done i e at) =
      runner-IsValid s i (returned e) (done e) at (omega arith) refl refl (omega arith) v
  step-IsValid s t v (without_error i at) =
      runner-IsValid s i (done none) finished at (omega arith) refl refl (omega arith) v
  step-IsValid s t v (dropped i e at h) =
      runner-IsValid s i (done (some e)) finished at (omega arith) refl refl (omega arith) v
  step-IsValid s t v (with_error i e at h) =
      runner-IsValid s i (done (some e)) (locking e) at (omega arith) refl refl (omega arith) v
  step-IsValid s t v (lock i e at h) =
      let counted = counts-modify s.runners i (locking e) (holding e) at in
      let le' = bit_le_one s.errs_closed in let l = ap bit h in ground arith
  step-IsValid s t v (finds_closed i e at h) =
      let counted = counts-modify s.runners i (holding e) finished at in
      let le' = bit_le_one s.errs_closed in
      let l = ap bit h in let b = bit_le_one s.locked in ground arith
  step-IsValid s t v (finds_open i e at h) =
      let counted = counts-modify s.runners i (holding e) (sending e) at in
      let le' = bit_le_one s.errs_closed in
      let l = ap bit h in let b = bit_le_one s.locked in ground arith
  step-IsValid s t v (send i e at h lt) =
      let counted = counts-modify s.runners i (sending e) finished at in
      let le' = bit_le_one s.errs_closed in
      let l = ap bit h in
      let b = bit_le_one s.locked in let n = length-append s.errs (e ∷ []) in ground arith
  step-IsValid s t v (send_closed i e at h) =
      let counted = counts-modify s.runners i (sending e) finished at in
      let le' = bit_le_one s.errs_closed in let l = ap bit h in ground arith
  step-IsValid s t v (receive e es m h) =
      let m1 = ap main_holds m in
      let m2 = ap main_marks m in let m3 = ap main_past m in let n = ap length h in ground arith
  step-IsValid s t v (goes_on e m h) =
      let m1 = ap main_holds m in
      let m2 = ap main_marks m in let m3 = ap main_past m in ground arith
  step-IsValid s t v (cancel e m h) =
      let m1 = ap main_holds m in
      let m2 = ap main_marks m in let m3 = ap main_past m in ground arith
  step-IsValid s t v (context_done m) =
      let m1 = ap main_holds m in
      let m2 = ap main_marks m in let m3 = ap main_past m in ground arith
  step-IsValid s t v (all_done e m h) =
      let m1 = ap main_holds m in
      let m2 = ap main_marks m in let m3 = ap main_past m in ground arith
  step-IsValid s t v (times_out e m h) =
      let m1 = ap main_holds m in
      let m2 = ap main_marks m in let m3 = ap main_past m in ground arith
  step-IsValid s t v (lock_to_close o m h) =
      let m1 = ap main_holds m in
      let m2 = ap main_marks m in let m3 = ap main_past m in let l = ap bit h in ground arith
  step-IsValid s t v (set_closed o m) =
      let m1 = ap main_holds m in
      let m2 = ap main_marks m in
      let m3 = ap main_past m in
      let b = bit_le_one s.locked in let le = sends_le_holds s.runners in ground arith
  step-IsValid s t v (close o m) =
      let m1 = ap main_holds m in
      let m2 = ap main_marks m in
      let m3 = ap main_past m in
      let b = bit_le_one s.locked in let b' = bit_le_one s.errs_closed in ground arith

  started-sums :
      (n : ℕ)
      → (sum pending (replicate n running) ≡ n)
        × (sum holds (replicate n running) ≡ 0)
        × (sum sends (replicate n running) ≡ 0)
  started-sums zero = (refl, refl, refl)
  started-sums (suc n) = let rest = started-sums n in (omega arith, omega arith, omega arith)

  pub Reachable-IsValid : (n : ℕ) (s : State) → Reachable handler exit_wait n s → IsValid s
  Reachable-IsValid n s start = let counted = started-sums n in ground arith
  Reachable-IsValid n s (then_step {s = r} before step) =
      step-IsValid r s (Reachable-IsValid n r before) step

  -- In every state that a run comes through, a goroutine that is about to send its error finds the
  -- channel open and with room for it, so it never blocks while it has the lock, and no goroutine
  -- has sent on the closed channel.
  pub send_never_blocks :
      (n : ℕ) (s : State) (i e : ℕ)
      → Reachable handler exit_wait n s
      → get_elem? s.runners i ≡ some (sending e)
      → (length s.errs < s.capacity) × (s.channel_closed ≡ false) × (s.panicked ≡ false)
  send_never_blocks n s i e r at =
      let v = Reachable-IsValid n s r in
      let counted = counts-modify s.runners i (sending e) finished at in ground arith
