-- ===== src/App/DynamicRunner/Panics.antt =====
-- Two runners that fail together.
use grafana_app_sdk.Base.{ℕ, [], ◌∷◌, ◌≡◌, refl, Bool, true, some, map}
use grafana_app_sdk.App.Runner.{plain}
use grafana_app_sdk.App.DynamicRunner.{
  State, exited, finished, sending, add_runnable, run, add, call_run, run_returns, wg_done,
  with_error, hand_over, cancel, all_done, close, send_closed, Reachable, start, then_step,
}

module _ (handler : ℕ → Bool) (exit_wait : Bool) where
  -- For any two runners and any errors that they return, of which the handler stops the run for the
  -- first: there is a run with just these two runners that ends with a send on the closed channel.
  -- `Run` has returned the first error, and the goroutine of the second runner is at the send of the
  -- second error; it had called `wg.Done` before, and `Run` waits for no more than that.
  pub two_errors_panic :
      (r r' e e' : ℕ)
      → handler e ≡ true
      → (s : State) × Reachable handler exit_wait s
        × (map (λ t. t.runner) s.tuples ≡ r ∷ r' ∷ [])
        × (s.main ≡ exited (plain (some e)))
        × (s.goroutines ≡ finished ∷ sending e' ∷ [])
        × (s.channel_closed ≡ true)
        × (s.panicked ≡ true)
  unfolding add_runnable run
  two_errors_panic r r' e e' stops =
      let s1 = then_step start (add r) in
      let s2 = then_step s1 (add r') in
      let s3 = then_step s2 (call_run refl) in
      let s4 = then_step s3 (run_returns 0 0 (some e) refl) in
      let s5 = then_step s4 (wg_done 0 0 (some e) refl) in
      let s6 = then_step s5 (with_error 0 0 e _ refl refl refl) in
      let s7 = then_step s6 (hand_over 0 e refl refl refl) in
      let s8 = then_step s7 (run_returns 1 1 (some e') refl) in
      let s9 = then_step s8 (wg_done 1 1 (some e') refl) in
      let s10 = then_step s9 (cancel e refl stops) in
      let s11 = then_step s10 (all_done (some e) refl refl) in
      let s12 = then_step s11 (close (plain (some e)) refl) in
      let s13 = then_step s12 (with_error 1 1 e' _ refl refl refl) in
      (_, then_step s13 (send_closed 1 e' refl refl), refl, refl, refl, refl, refl)
