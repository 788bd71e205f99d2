-- ===== src/Operator/Controller/Delivery.antt =====
-- Which calls of handlers a step of the controller makes, and in which order.
use mathlib.Core.List.{append_assoc, append-nil}
use grafana_app_sdk.Base.{
  ℕ, String, List, [], ◌∷◌, ◌++◌, ◌≡◌, refl, sym, ap, ◌∙◌, Bool, true, false, Option, some, inl,
  inr, if◌then◌else◌, Bool-cases, Option-cases,
}
use grafana_app_sdk.Operator.Io.{Err}
use grafana_app_sdk.Operator.Action.{ResourceAction, resource_action_from_reconcile_action}
use grafana_app_sdk.Operator.Events.{
  Pointer, EventRequest, EventCall, handle_error, History, Objects,
}
use grafana_app_sdk.Operator.Controller.{
  Platform, World, dequeue_if_required, add_retry, queue_retry, report, handle_watcher,
  do_reconcile, event_call, with_state,
}

abbrev pub is_report : EventCall → Bool
is_report (handle_error e) = true
is_report _ = false

-- The calls of watchers and reconcilers in a history, the first one first.
abbrev pub delivered : History → List EventCall
delivered [] = []
delivered ((c, a) ∷ h) = if is_report c then delivered h else delivered h ++ c ∷ []

either_way :
    (before extra : List EventCall) {all : List EventCall} (b : Bool) (c : EventCall)
    → all ≡ before ++ extra
    → (if b then all else all ++ c ∷ []) ≡ before ++ (if b then extra else extra ++ c ∷ [])
either_way xs ys true c h = h
either_way xs ys false c h = ap (λ l. l ++ c ∷ []) h ∙ append_assoc xs ys (c ∷ [])

delivered-append : (xs ys : History) → delivered (xs ++ ys) ≡ delivered ys ++ delivered xs
delivered-append [] ys = sym (append-nil (delivered ys))
delivered-append ((c, a) ∷ xs) ys =
    either_way (delivered ys) (delivered xs) (is_report c) c (delivered-append xs ys)

-- The objects after some calls: a call may change them, and its answer says what they are then.
abbrev pub objects_after : Objects → History → Objects
objects_after o [] = o
objects_after o ((c, a) ∷ h) = a.objects

objects_after-append :
    (o : Objects) (xs ys : History)
    → objects_after o (xs ++ ys) ≡ objects_after (objects_after o ys) xs
objects_after-append o [] ys = refl
objects_after-append o (x ∷ xs) ys = refl

module _ (platform : Platform) where
  -- A step makes exactly these calls of handlers and maybe some of the error handler, leaves the
  -- objects as those calls did, and leaves the reconcilers that are registered.
  abbrev pub Delivers : List EventCall → World platform → World platform → Type 0
  Delivers calls w v =
      ((es : History) × (v.history ≡ es ++ w.history)
        × (delivered es ≡ calls)
        × (v.objects ≡ objects_after w.objects es))
      × (v.controller.reconcilers ≡ w.controller.reconcilers)

  pub Delivers-trans :
      (xs ys : List EventCall) (u v w : World platform)
      → Delivers xs u v
      → Delivers ys v w
      → Delivers (xs ++ ys) u w
  Delivers-trans xs ys u v w ((es, h, c, o), r) ((fs, h', c', o'), r') = (
    (
      fs ++ es,
      h' ∙ ap (λ l. fs ++ l) h ∙ sym (append_assoc fs es u.history),
      delivered-append fs es ∙ ap (λ l. l ++ delivered fs) c ∙ ap (λ l. xs ++ l) c',
      o' ∙ ap (λ x. objects_after x fs) o ∙ sym (objects_after-append u.objects fs es),
    ),
    r' ∙ r,
  )

  -- No calls, and the objects as they were.
  abbrev pub Silent : World platform → World platform → Type 0
  Silent w v =
      (v.history ≡ w.history)
      × (v.controller.reconcilers ≡ w.controller.reconcilers)
      × (v.objects ≡ w.objects)

  pub dequeue-Silent :
      (key : String) (ref : Pointer) (action : ResourceAction) (w : World platform)
      → Silent w (dequeue_if_required platform key ref action w)
  unfolding dequeue_if_required
  dequeue-Silent key ref action w = elim (Option-cases w.controller.retry_processor) [
    | inl e ↦ elim (Option-cases w.controller.retry_dequeue_policy) [
      | inl h ↦ rw (e, dequeue_if_required) (rw (h, dequeue_if_required) (refl, refl, refl))
      | inr (policy, h) ↦
          rw (e, dequeue_if_required) (rw (h, dequeue_if_required) (refl, refl, refl))
    ]
    | inr (p, e) ↦ elim (Option-cases w.controller.retry_dequeue_policy) [
      | inl h ↦ rw (e, dequeue_if_required) (rw (h, dequeue_if_required) (refl, refl, refl))
      | inr (policy, h) ↦
          rw (e, dequeue_if_required) (rw (h, dequeue_if_required) (refl, refl, refl))
    ]
  ]

  pub add_retry-Silent :
      (key : String) (after : ℕ) (func : EventCall) (action : ResourceAction) (ref : Pointer)
      (e : Option Err) (w : World platform)
      → Silent w (add_retry platform key after func action ref e w)
  unfolding add_retry
  add_retry-Silent key after func action ref e w =
      elim (Option-cases w.controller.retry_processor) [
        | inl h ↦ rw (h, add_retry) (refl, refl, refl)
        | inr (p, h) ↦ rw (h, add_retry) (refl, refl, refl)
      ]

  pub queue_retry-Silent :
      (key : String) (e : Err) (func : EventCall) (action : ResourceAction) (ref : Pointer)
      (w : World platform)
      → Silent w (queue_retry platform key e func action ref w)
  unfolding queue_retry
  queue_retry-Silent key e func action ref w = elim (Option-cases w.controller.retry_policy) [
    | inl h ↦ rw (h, queue_retry) (refl, refl, refl)
    | inr (policy, h) ↦ elim (Bool-cases (policy e 0).0) [
      | inl b ↦
          rw (h, queue_retry)
            (rw b (add_retry-Silent key (policy e 0).1 func action ref (some e) w))
      | inr b ↦ rw (h, queue_retry) (rw b (refl, refl, refl))
    ]
  ]

  pub Silent-Delivers : (w v : World platform) → Silent w v → Delivers [] w v
  Silent-Delivers w v s = (([], s.0, refl, s.2), s.1)

  pub report-Delivers : (e : Err) (w : World platform) → Delivers [] w (report platform e w)
  unfolding report event_call
  report-Delivers e w = elim (Bool-cases w.controller.error_handler) [
    | inl h ↦ rw h ((_ ∷ [], refl, refl, refl), refl)
    | inr h ↦ rw h (([], refl, refl, refl), refl)
  ]

  pub event_call-Delivers :
      (c : EventCall) (w : World platform)
      → is_report c ≡ false
      → Delivers (c ∷ []) w (event_call platform c w).1
  unfolding event_call
  event_call-Delivers c w h =
      (((c, platform.outside.call w.history c) ∷ [], refl, rw h refl, refl), refl)

  -- What follows a failed call makes no calls of handlers.
  pub failed-Delivers :
      (key : String) (e : Err) (func : EventCall) (action : ResourceAction) (ref : Pointer)
      (w : World platform)
      → Delivers [] w (queue_retry platform key e func action ref (report platform e w))
  failed-Delivers key e func action ref w =
      let reported = report platform e w in
      let queued = queue_retry platform key e func action ref reported in
      Delivers-trans [] [] w reported queued (report-Delivers e w)
        (Silent-Delivers reported queued (queue_retry-Silent key e func action ref reported))

  -- One more step after a call, which makes none.
  after_call :
      (c : EventCall) (w v : World platform)
      → is_report c ≡ false
      → Delivers [] (event_call platform c w).1 v
      → Delivers (c ∷ []) w v
  after_call c w v h d =
      Delivers-trans (c ∷ []) [] w (event_call platform c w).1 v (event_call-Delivers c w h) d

  pub handle_watcher-Delivers :
      (key : String) (func : EventCall) (action : ResourceAction) (ref : Pointer)
      (w : World platform)
      → is_report func ≡ false
      → Delivers (func ∷ []) w (handle_watcher platform key func action ref w)
  unfolding handle_watcher
  handle_watcher-Delivers key func action ref w h =
      let before = dequeue_if_required platform key ref action w in
      let called = event_call platform func before in
      let start = Silent-Delivers w before (dequeue-Silent key ref action w) in
      elim (Option-cases called.0.error) [
        | inl n ↦
            rw (n, handle_watcher)
              (Delivers-trans [] (func ∷ []) w before called.1 start
                (event_call-Delivers func before h))
        | inr (e, s) ↦
            let queued = queue_retry platform key e func action ref (report platform e called.1) in
            rw (s, handle_watcher)
              (Delivers-trans [] (func ∷ []) w before queued start
                (after_call func before queued h (failed-Delivers key e func action ref called.1)))
      ]

  pub do_reconcile-Delivers :
      (h : ℕ) (req : EventRequest) (key : String) (w : World platform)
      → Delivers (EventCall.reconcile h req ∷ []) w (do_reconcile platform h req key w)
  unfolding do_reconcile
  do_reconcile-Delivers h req key w =
      let call = EventCall.reconcile h req in
      let called = event_call platform call w in
      let action = resource_action_from_reconcile_action req.action in
      let again = EventCall.reconcile h (with_state platform req called.0.state) in
      elim (Option-cases called.0.requeue_after) [
        | inr (after, s) ↦
            let queued =
              add_retry platform key after again action req.object called.0.error called.1 in
            rw (s, do_reconcile)
              (after_call call w queued refl (
                Silent-Delivers called.1 queued
                  (add_retry-Silent key after again action req.object called.0.error called.1)))
        | inl n ↦ elim (Option-cases called.0.error) [
          | inl m ↦ rw (n, do_reconcile) (rw (m, do_reconcile) (event_call-Delivers call w refl))
          | inr (e, s) ↦
              rw (n, do_reconcile)
                (rw (s, do_reconcile)
                  (after_call call w
                    (queue_retry platform key e again action req.object
                      (report platform e called.1))
                    refl (failed-Delivers key e again action req.object called.1)))
        ]
      ]
