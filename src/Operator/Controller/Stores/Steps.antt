-- ===== src/Operator/Controller/Stores/Steps.antt =====
-- What the controller does for one handler keeps the two stores of retries alike.
use grafana_app_sdk.Base.{ℕ, String, none, some, inl, inr, Option-cases}
use grafana_app_sdk.Operator.Io.{Err}
use grafana_app_sdk.Operator.Action.{ResourceAction, resource_action_from_reconcile_action}
use grafana_app_sdk.Operator.Events.{Pointer, EventRequest, EventCall}
use grafana_app_sdk.Operator.Controller.{
  Platform, World, dequeue_if_required, queue_retry, report, handle_watcher, do_reconcile,
  event_call, with_state,
}
use grafana_app_sdk.Operator.Controller.Stores.{
  Alike, pooled, from_pooled, dequeue-Alike, add_retry-Alike, queue_retry-Alike, event_call-Alike,
  report-Alike,
}

module _ (platform : Platform) (m : platform.retries.Map) where
  -- After a failed call: the error handler, and the retry.
  failed-Alike :
      (key : String) (x : Err) (func : EventCall) (action : ResourceAction) (ref : Pointer)
      (u v : World platform)
      → Alike platform m u v
      → Alike platform m
          (queue_retry platform key x func action ref (report platform x u))
          (queue_retry platform key x func action ref (report platform x v))
  failed-Alike key x func action ref u v a =
      queue_retry-Alike platform m key x func action ref (report platform x u) (report platform x v)
        (report-Alike platform m x u v a)

  call_watcher : String → EventCall → ResourceAction → Pointer → World platform → World platform
  call_watcher key func action ref w = elim (event_call platform func w).0.error [
    | none ↦ (event_call platform func w).1
    | some e ↦
        queue_retry platform key e func action ref
          (report platform e (event_call platform func w).1)
  ]

  call_watcher-Alike :
      (key : String) (func : EventCall) (action : ResourceAction) (ref : Pointer)
      (u v : World platform)
      → Alike platform m u v
      → Alike platform m (call_watcher key func action ref u) (call_watcher key func action ref v)
  unfolding call_watcher event_call
  call_watcher-Alike key func action ref u v =
      from_pooled platform m (call_watcher key func action ref) u v (λ p e valid holds.
        let called = (event_call platform func u).1 in
        let called' = (event_call platform func (pooled platform u p m)).1 in
        let alike = event_call-Alike platform m func u p e valid holds in
        elim (Option-cases (event_call platform func u).0.error) [
          | inl n ↦ rw (n, call_watcher) alike
          | inr (x, s) ↦
              rw (s, call_watcher) (failed-Alike key x func action ref called called' alike)
        ])

  pub handle_watcher-Alike :
      (key : String) (func : EventCall) (action : ResourceAction) (ref : Pointer)
      (u v : World platform)
      → Alike platform m u v
      → Alike platform m
          (handle_watcher platform key func action ref u)
          (handle_watcher platform key func action ref v)
  unfolding handle_watcher call_watcher
  handle_watcher-Alike key func action ref u v a =
      call_watcher-Alike key func action ref (dequeue_if_required platform key ref action u)
        (dequeue_if_required platform key ref action v)
        (dequeue-Alike platform m key ref action u v a)

  pub do_reconcile-Alike :
      (h : ℕ) (req : EventRequest) (key : String) (u v : World platform)
      → Alike platform m u v
      → Alike platform m (do_reconcile platform h req key u) (do_reconcile platform h req key v)
  unfolding do_reconcile event_call
  do_reconcile-Alike h req key u v =
      from_pooled platform m (do_reconcile platform h req key) u v (λ p e valid holds.
        let call = EventCall.reconcile h req in
        let called = event_call platform call u in
        let called' = event_call platform call (pooled platform u p m) in
        let action = resource_action_from_reconcile_action req.action in
        let again = EventCall.reconcile h (with_state platform req called.0.state) in
        let alike = event_call-Alike platform m call u p e valid holds in
        elim (Option-cases called.0.requeue_after) [
          | inr (after, s) ↦
              rw (s, do_reconcile)
                (add_retry-Alike platform m key after again action req.object called.0.error
                  called.1 called'.1 alike)
          | inl n ↦ elim (Option-cases called.0.error) [
            | inl k ↦ rw (n, do_reconcile) (rw (k, do_reconcile) alike)
            | inr (x, s) ↦
                rw (n, do_reconcile)
                  (rw (s, do_reconcile)
                    (failed-Alike key x again action req.object called.1 called'.1 alike))
          ]
        ])
