-- ===== src/App/Runner/Tests.antt =====
-- Two runners that fail together.
use grafana_app_sdk.Base.{ℕ, ◌<◌, [], ◌≡◌, refl, Bool, true, false, some, length, arith}
use grafana_app_sdk.App.Runner.{
  State, plain, run_returns, wg_done, with_error, lock, finds_open, finds_closed, send, receive,
  cancel, all_done, lock_to_close, set_closed, close, Reachable, start, then_step,
}
use grafana_app_sdk.App.Runner.Invariant.{send_never_blocks}
use grafana_app_sdk.App.Runner.Exit.{IsExit, Reachable-IsExit}

abbrev stops : ℕ → Bool
stops e = true

abbrev Run : State → Type 0
Run s = Reachable stops false 2 s

-- Both have failed, and the first is about to send its error.
abbrev sends_first : (s : State) × Run s
sends_first =
    let s1 = then_step start (run_returns 0 (some 7) refl) in
    let s2 = then_step s1 (run_returns 1 (some 8) refl) in
    let s3 = then_step s2 (wg_done 0 (some 7) refl) in
    let s4 = then_step s3 (wg_done 1 (some 8) refl) in
    let s5 = then_step s4 (with_error 0 7 refl refl) in
    let s6 = then_step s5 (with_error 1 8 refl refl) in
    let s7 = then_step s6 (lock 0 7 refl refl) in (_, then_step s7 (finds_open 0 7 refl refl))

-- `Run` returns the first error, and the second one finds the channel closed.
abbrev drops_second : (s : State) × Run s
drops_second =
    let s1 = then_step (sends_first.1) (send 0 7 refl refl (omega arith)) in
    let s2 = then_step s1 (receive 7 [] refl refl) in
    let s3 = then_step s2 (cancel 7 refl refl) in
    let s4 = then_step s3 (all_done (some 7) refl refl) in
    let s5 = then_step s4 (lock_to_close (plain (some 7)) refl refl) in
    let s6 = then_step s5 (set_closed (plain (some 7)) refl) in
    let s7 = then_step s6 (close (plain (some 7)) refl) in
    let s8 = then_step s7 (lock 1 8 refl refl) in (_, then_step s8 (finds_closed 1 8 refl refl))

send_never_blocks_example :
    (length sends_first.0.errs < 2)
    × (sends_first.0.channel_closed ≡ false)
    × (sends_first.0.panicked ≡ false)
send_never_blocks_example = send_never_blocks stops false 2 (sends_first.0) 0 7 (sends_first.1) refl

Reachable-IsExit_example : IsExit stops false (drops_second.0) (plain (some 7))
Reachable-IsExit_example =
    Reachable-IsExit stops false 2 (drops_second.0) (plain (some 7)) (drops_second.1) refl
