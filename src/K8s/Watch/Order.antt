-- ===== src/K8s/Watch/Order.antt =====
-- The events that come out of the channel of a watch.
use grafana_app_sdk.Base.{
  ℕ, zero, suc, ◌≤◌, List, [], ◌∷◌, ◌++◌, ◌≡◌, refl, sym, ap, ◌∙◌, Option, none, some, modify,
  get_elem?, length, arith, length-append, length-modify,
}
use mathlib.Core.List.{append_assoc, append-nil}
use grafana_app_sdk.K8s.Watch.{
  RawEvent, WatchEvent, translate, Loop, selecting, sending, closing_stop, returned, State, Step,
  watch_events, watch_events_again, stop, kubernetes_watch, kubernetes_watch_idle, stop_received,
  release_received, stop_panics, release_panics, close_channel, close_panics, takes, leaves_out,
  sends, send_panics, selects_closed, closes_stop, close_stop_panics, consumes, Reachable, start,
  then_step,
}

-- The event that the first goroutine is about to send.
abbrev pub outgoing : List Loop → List WatchEvent
outgoing [] = []
outgoing (sending w ∷ ls) = w ∷ []
outgoing (selecting ∷ ls) = []
outgoing (closing_stop ∷ ls) = []
outgoing (returned ∷ ls) = []

abbrev to_list : Option WatchEvent → List WatchEvent
to_list none = []
to_list (some w) = w ∷ []

-- The events that can be translated, in their order.
pub translated : List RawEvent → List WatchEvent
translated [] = []
translated (e ∷ es) = to_list (translate e) ++ translated es

translated-append :
    (es : List RawEvent) (e : RawEvent)
    → translated (es ++ e ∷ []) ≡ translated es ++ to_list (translate e)
unfolding translated
translated-append [] e = append-nil (to_list (translate e))
translated-append (x ∷ es) e =
    ap (λ t. to_list (translate x) ++ t) (translated-append es e)
    ∙ sym (append_assoc (to_list (translate x)) (translated es) (to_list (translate e)))

-- A change of the one goroutine.
outgoing-modify :
    (ls : List Loop) (i : ℕ) (l l' : Loop)
    → length ls ≤ 1
    → get_elem? ls i ≡ some l
    → (outgoing ls ≡ outgoing (l ∷ [])) × (outgoing (modify i (λ old. l') ls) ≡ outgoing (l' ∷ []))
outgoing-modify [] i l l' one at = cc
outgoing-modify (x ∷ []) zero l l' one at = (ap (λ y. outgoing (y ∷ [])) (same at), refl)
  where
    same : {x y : Loop} → some x ≡ some y → x ≡ y
    same e = cc e
outgoing-modify (x ∷ []) (suc i) l l' one at = cc
outgoing-modify (x ∷ y ∷ ls) i l l' one at = absurd (omega arith)

-- What has been delivered, what is in the channel and what is about to be sent.
abbrev pub passed : State → List WatchEvent
passed s = s.delivered ++ (s.buffer ++ outgoing s.loops)

-- A goroutine that neither takes nor sends an event.
still :
    (s : State) (i : ℕ) (l l' : Loop)
    → length s.loops ≤ 1
    → get_elem? s.loops i ≡ some l
    → outgoing (l ∷ []) ≡ outgoing (l' ∷ [])
    → s.delivered ++ (s.buffer ++ outgoing (modify i (λ old. l') s.loops)) ≡ passed s
still s i l l' one at e =
    let (a, b) = outgoing-modify s.loops i l l' one at in
    ap (λ o. s.delivered ++ (s.buffer ++ o)) (b ∙ sym e ∙ sym a)

step_passed :
    (s t : State)
    → (length s.loops ≤ 1 → passed s ≡ translated s.received)
    → Step s t
    → length t.loops ≤ 1
    → passed t ≡ translated t.received
step_passed s t v (watch_events f n) one = first s.loops v one
  where
    first :
        (ls : List Loop)
        → (length ls ≤ 1 → s.delivered ++ (s.buffer ++ outgoing ls) ≡ translated s.received)
        → length (ls ++ selecting ∷ []) ≤ 1
        → s.delivered ++ (s.buffer ++ outgoing (ls ++ selecting ∷ [])) ≡ translated s.received
    first [] v one = v (omega arith)
    first (l ∷ ls) v one = let n = length-append ls (selecting ∷ []) in absurd (omega arith)
step_passed s t v (watch_events_again f n) one = v one
step_passed s t v (stop f) one = v one
step_passed s t v (kubernetes_watch f n) one = v one
step_passed s t v (kubernetes_watch_idle f n) one = v one
step_passed s t v (stop_received i h o at) one =
    let n = length-modify i (λ old. closing_stop) s.loops in
    let k : length s.loops ≤ 1 = omega arith in still s i selecting closing_stop k at refl ∙ v k
step_passed s t v (release_received i h o at) one =
    let n = length-modify i (λ old. closing_stop) s.loops in
    let k : length s.loops ≤ 1 = omega arith in still s i selecting closing_stop k at refl ∙ v k
step_passed s t v (stop_panics h o) one = v one
step_passed s t v (release_panics h o) one = v one
step_passed s t v (close_channel h o) one = v one
step_passed s t v (close_panics h o) one = v one
step_passed s t v (takes i e w at h) one =
    let n = length-modify i (λ old. sending w) s.loops in
    let k : length s.loops ≤ 1 = omega arith in
    let (a, b) = outgoing-modify s.loops i selecting (sending w) k at in
    ap (λ o. s.delivered ++ (s.buffer ++ o)) b
    ∙ ap (λ x. s.delivered ++ x) (ap (λ x. x ++ w ∷ []) (sym (append-nil s.buffer)))
    ∙ sym (append_assoc s.delivered (s.buffer ++ []) (w ∷ []))
    ∙ ap (λ o. (s.delivered ++ (s.buffer ++ o)) ++ w ∷ []) (sym a)
    ∙ ap (λ x. x ++ w ∷ []) (v k)
    ∙ ap (λ x. translated s.received ++ to_list x) (sym h)
    ∙ sym (translated-append s.received e)
step_passed s t v (leaves_out i e at h) one =
    v one
    ∙ sym (append-nil (translated s.received))
    ∙ ap (λ x. translated s.received ++ to_list x) (sym h)
    ∙ sym (translated-append s.received e)
step_passed s t v (sends i w at o lt) one =
    let n = length-modify i (λ old. selecting) s.loops in
    let k : length s.loops ≤ 1 = omega arith in
    let (a, b) = outgoing-modify s.loops i (sending w) selecting k at in
    ap (λ o. s.delivered ++ ((s.buffer ++ w ∷ []) ++ o)) b
    ∙ ap (λ x. s.delivered ++ x) (append-nil (s.buffer ++ w ∷ []))
    ∙ ap (λ o. s.delivered ++ (s.buffer ++ o)) (sym a)
    ∙ v k
step_passed s t v (send_panics i w at o) one = v one
step_passed s t v (selects_closed i at o) one =
    let n = length-modify i (λ old. closing_stop) s.loops in
    let k : length s.loops ≤ 1 = omega arith in still s i selecting closing_stop k at refl ∙ v k
step_passed s t v (closes_stop i at o) one =
    let n = length-modify i (λ old. returned) s.loops in
    let k : length s.loops ≤ 1 = omega arith in still s i closing_stop returned k at refl ∙ v k
step_passed s t v (close_stop_panics i at o) one = v one
step_passed s t v (consumes w rest h) one =
    append_assoc s.delivered (w ∷ []) (rest ++ outgoing s.loops)
    ∙ ap (λ b. s.delivered ++ (b ++ outgoing s.loops)) (sym h)
    ∙ v one

-- As long as a watch has been started at most once, what has come out of its channel, what is in it
-- and what is about to be sent are together the translations of the events that the watch gave, in
-- their order: no event that can be translated is lost, doubled or out of its turn.
pub passed-translated :
    (n : ℕ) (s : State)
    → Reachable n s
    → length s.loops ≤ 1
    → s.delivered ++ (s.buffer ++ outgoing s.loops) ≡ translated s.received
unfolding translated
passed-translated n s start one = refl
passed-translated n s (then_step {s = r} before step) one =
    step_passed r s (passed-translated n r before) step one
