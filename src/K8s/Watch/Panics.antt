-- ===== src/K8s/Watch/Panics.antt =====
-- Sends to closed channels, and channels that are closed twice.
use grafana_app_sdk.Base.{
  ℕ, ◌+◌, ◌≤◌, List, [], ◌∷◌, ◌++◌, ◌≡◌, refl, ap, Bool, true, false, some, modify, sum, get_elem?,
  length, arith, length-append, length-modify, sum-modify, sum-le,
}
use grafana_app_sdk.K8s.Watch.{
  Loop, selecting, sending, closing_stop, returned, Holder, stopping, releasing, closing, State,
  Step, watch_events, watch_events_again, stop, kubernetes_watch, kubernetes_watch_idle,
  stop_received, release_received, stop_panics, release_panics, close_channel, close_panics, takes,
  leaves_out, sends, send_panics, selects_closed, closes_stop, close_stop_panics, consumes,
  Reachable, start, then_step,
}

abbrev pub bit : Bool → ℕ
bit true = 1
bit false = 0

-- A goroutine that has left its loop, and one that has closed `stopCh` and returned.
abbrev pub left : Loop → ℕ
left closing_stop = 1
left returned = 1
left _ = 0

abbrev pub ended : Loop → ℕ
ended returned = 1
ended _ = 0

-- A call that waits at its send, and one that is about to close the channel.
abbrev pub waits : Holder → ℕ
waits stopping = 1
waits releasing = 1
waits _ = 0

abbrev pub closes : Holder → ℕ
closes closing = 1
closes _ = 0

-- The uses of the channels after which nothing can panic.
abbrev pub IsCalm : State → Type 0
IsCalm s =
    (bit s.panicked ≡ 0)
    × (bit s.stop_closed ≡ sum ended s.loops)
    × (waits s.holder + sum left s.loops ≤ s.stops)
    × (closes s.holder + bit s.channel_closed ≤ sum left s.loops)
    × (waits s.holder + closes s.holder + bit s.channel_closed ≤ s.stops)
    × (sum ended s.loops ≤ sum left s.loops)

-- At most one goroutine and one call that stops it.
abbrev pub IsSingle : State → Type 0
IsSingle s = (length s.loops ≤ 1) × (s.stops ≤ 1)

abbrev pub staying : Loop → ℕ
staying selecting = 1
staying (sending w) = 1
staying _ = 0

pub staying-left : (ls : List Loop) → sum staying ls + sum left ls ≡ length ls
staying-left [] = refl
staying-left (selecting ∷ ls) = let rest = staying-left ls in omega arith
staying-left (sending w ∷ ls) = let rest = staying-left ls in omega arith
staying-left (closing_stop ∷ ls) = let rest = staying-left ls in omega arith
staying-left (returned ∷ ls) = let rest = staying-left ls in omega arith

sum-append : (f : Loop → ℕ) (ls ms : List Loop) → sum f (ls ++ ms) ≡ sum f ls + sum f ms
sum-append f [] ms = omega arith
sum-append f (l ∷ ls) ms = let rest = sum-append f ls ms in omega arith

ended_le_left : (ls : List Loop) → sum ended ls ≤ sum left ls
ended_le_left ls = sum-le ended left ls at_one
  where
    at_one : (l : Loop) → ended l ≤ left l
    at_one returned = omega arith
    at_one closing_stop = omega arith
    at_one selecting = omega arith
    at_one (sending w) = omega arith

bit_le_one : (b : Bool) → bit b ≤ 1
bit_le_one true = omega arith
bit_le_one false = omega arith

counts-modify :
    (ls : List Loop) (i : ℕ) (l l' : Loop)
    → get_elem? ls i ≡ some l
    → let ls' = modify i (λ old. l') ls in
      (sum left ls' + left l ≡ sum left ls + left l')
      × (sum ended ls' + ended l ≡ sum ended ls + ended l')
      × (sum staying ls' + staying l ≡ sum staying ls + staying l')
      × (sum staying ls + sum left ls ≡ length ls)
      × (length ls' ≡ length ls)
      × (sum ended ls' ≤ sum left ls')
counts-modify ls i l l' at = (
  sum-modify left i l l' ls at,
  sum-modify ended i l l' ls at,
  sum-modify staying i l l' ls at,
  staying-left ls,
  length-modify i (λ old. l') ls,
  ended_le_left (modify i (λ old. l') ls),
)

step-IsCalm : (s t : State) → (IsSingle s → IsCalm s) → Step s t → IsSingle t → IsCalm t
step-IsCalm s t v (watch_events f n) one =
    let a = length-append s.loops (selecting ∷ []) in
    let b = sum-append left s.loops (selecting ∷ []) in
    let c = sum-append ended s.loops (selecting ∷ []) in
    let d = ap waits f in let e = ap closes f in let k = v (omega arith, one.1) in ground arith
step-IsCalm s t v (watch_events_again f n) one = v one
step-IsCalm s t v (stop f) one =
    let d = ap waits f in let e = ap closes f in let k = v (one.0, omega arith) in ground arith
step-IsCalm s t v (kubernetes_watch f n) one =
    let d = ap waits f in let e = ap closes f in let k = v (one.0, omega arith) in ground arith
step-IsCalm s t v (kubernetes_watch_idle f n) one = v one
step-IsCalm s t v (stop_received i h o at) one =
    let c = counts-modify s.loops i selecting closing_stop at in
    let d = ap waits h in let e = ap closes h in let k = v (omega arith, one.1) in ground arith
step-IsCalm s t v (release_received i h o at) one =
    let c = counts-modify s.loops i selecting closing_stop at in
    let d = ap waits h in let e = ap closes h in let k = v (omega arith, one.1) in ground arith
step-IsCalm s t v (stop_panics h o) one =
    let d = ap waits h in let e = ap bit o in let k = v one in absurd (omega arith)
step-IsCalm s t v (release_panics h o) one =
    let d = ap waits h in let e = ap bit o in let k = v one in absurd (omega arith)
step-IsCalm s t v (close_channel h o) one =
    let d = ap waits h in let e = ap closes h in let b = ap bit o in let k = v one in ground arith
step-IsCalm s t v (close_panics h o) one =
    let e = ap closes h in let b = ap bit o in let k = v one in absurd (omega arith)
step-IsCalm s t v (takes i e w at h) one =
    let c = counts-modify s.loops i selecting (sending w) at in
    let k = v (omega arith, one.1) in ground arith
step-IsCalm s t v (leaves_out i e at h) one = v one
step-IsCalm s t v (sends i w at o lt) one =
    let c = counts-modify s.loops i (sending w) selecting at in
    let k = v (omega arith, one.1) in ground arith
step-IsCalm s t v (send_panics i w at o) one =
    let c = counts-modify s.loops i (sending w) returned at in
    let b = ap bit o in let k = v one in absurd (omega arith)
step-IsCalm s t v (selects_closed i at o) one =
    let c = counts-modify s.loops i selecting closing_stop at in
    let b = ap bit o in let k = v (omega arith, one.1) in absurd (omega arith)
step-IsCalm s t v (closes_stop i at o) one =
    let c = counts-modify s.loops i closing_stop returned at in
    let b = ap bit o in let k = v (omega arith, one.1) in ground arith
step-IsCalm s t v (close_stop_panics i at o) one =
    let c = counts-modify s.loops i closing_stop returned at in
    let b = ap bit o in let k = v one in absurd (omega arith)
step-IsCalm s t v (consumes w rest h) one = v one

pub Reachable-IsCalm : (n : ℕ) (s : State) → Reachable n s → IsSingle s → IsCalm s
Reachable-IsCalm n s start one = (refl, refl, omega arith, omega arith, omega arith, omega arith)
Reachable-IsCalm n s (then_step {s = r} before step) one =
    step-IsCalm r s (Reachable-IsCalm n r before) step one

-- As long as a watch has been started at most once, and at most one call of `Stop` or
-- `KubernetesWatch` has come to its send, however the goroutines take turns: nothing has been sent
-- to a closed channel and no channel has been closed twice, and the channel is not closed while a
-- goroutine is in its loop.
pub watch_never_panics :
    (n : ℕ) (s : State)
    → Reachable n s
    → length s.loops ≤ 1
    → s.stops ≤ 1
    → (s.panicked ≡ false) × (bit s.channel_closed + sum staying s.loops ≤ 1)
watch_never_panics n s r one two =
    let k = Reachable-IsCalm n s r (one, two) in let c = staying-left s.loops in ground arith
