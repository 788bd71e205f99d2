-- ===== src/K8s/Watch/Blocked.antt =====
-- `Stop` of a watch whose channel nobody has asked for.
use grafana_app_sdk.Base.{
  ℕ, List, [], ◌∷◌, ◌++◌, ◌≡◌, ◌≢◌, refl, suc, sym, ap, ◌∙◌, some, get_elem?,
}
use mathlib.Core.List.{append_assoc}
use grafana_app_sdk.K8s.Watch.{
  WatchEvent, Loop, selecting, free, stopping, State, Step, watch_events, watch_events_again, stop,
  kubernetes_watch, kubernetes_watch_idle, stop_received, release_received, stop_panics,
  release_panics, close_channel, close_panics, takes, leaves_out, sends, send_panics,
  selects_closed, closes_stop, close_stop_panics, consumes,
}

-- The states that a state may come to.
pub data Later (s : State) : State → Type 0 where
  now : Later s s
  next : {t u : State} → Later s t → Step t u → Later s u

-- `Stop` waits at its send, there is no goroutine, and these events have come to the channel.
abbrev pub IsStuck : List WatchEvent → State → Type 0
IsStuck ws s = (s.holder ≡ stopping) × (s.loops ≡ []) × (s.delivered ++ s.buffer ≡ ws)

nobody : (ls : List Loop) (i : ℕ) (l : Loop) → ls ≡ [] → get_elem? ls i ≢ some l
nobody ls i l e at = cc (sym (ap (λ x. get_elem? x i) e) ∙ at)

step-IsStuck : (ws : List WatchEvent) (s t : State) → IsStuck ws s → Step s t → IsStuck ws t
step-IsStuck ws s t (h, e, d) (watch_events f n) = cc (h, f)
step-IsStuck ws s t (h, e, d) (watch_events_again f n) = (h, e, d)
step-IsStuck ws s t (h, e, d) (stop f) = cc (h, f)
step-IsStuck ws s t (h, e, d) (kubernetes_watch f n) = cc (h, f)
step-IsStuck ws s t (h, e, d) (kubernetes_watch_idle f n) = (h, e, d)
step-IsStuck ws s t (h, e, d) (stop_received i f o at) = absurd (nobody s.loops i selecting e at)
step-IsStuck ws s t (h, e, d) (release_received i f o at) = absurd (nobody s.loops i selecting e at)
step-IsStuck ws s t (h, e, d) (stop_panics f o) = (h, e, d)
step-IsStuck ws s t (h, e, d) (release_panics f o) = (h, e, d)
step-IsStuck ws s t (h, e, d) (close_channel f o) = cc (h, f)
step-IsStuck ws s t (h, e, d) (close_panics f o) = (h, e, d)
step-IsStuck ws s t (h, e, d) (takes i x w at n) = absurd (nobody s.loops i selecting e at)
step-IsStuck ws s t (h, e, d) (leaves_out i x at n) = absurd (nobody s.loops i selecting e at)
step-IsStuck ws s t (h, e, d) (sends i w at o lt) = absurd (nobody s.loops i _ e at)
step-IsStuck ws s t (h, e, d) (send_panics i w at o) = (h, e, d)
step-IsStuck ws s t (h, e, d) (selects_closed i at o) = absurd (nobody s.loops i selecting e at)
step-IsStuck ws s t (h, e, d) (closes_stop i at o) = absurd (nobody s.loops i _ e at)
step-IsStuck ws s t (h, e, d) (close_stop_panics i at o) = (h, e, d)
step-IsStuck ws s t (h, e, d) (consumes w rest n) =
    (h, e, append_assoc s.delivered (w ∷ []) rest ∙ ap (λ b. s.delivered ++ b) (sym n) ∙ d)

-- If `Stop` is called when the mutex is free and no goroutine has been started, it never returns:
-- in every state that is reached from there it still waits with the mutex, no goroutine has been
-- started, and no event has come to the channel.
pub stop_blocks :
    (s t : State)
    → s.holder ≡ free
    → s.loops ≡ []
    → Later (record s { holder = stopping; stops = suc s.stops }) t
    → (t.holder ≡ stopping) × (t.loops ≡ []) × (t.delivered ++ t.buffer ≡ s.delivered ++ s.buffer)
stop_blocks s t f e now = (refl, e, refl)
stop_blocks s t f e (next {t = r} before step) =
    step-IsStuck (s.delivered ++ s.buffer) r t (stop_blocks s r f e before) step
