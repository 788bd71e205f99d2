-- ===== src/Operator/ConcurrentWatcher/Tests.antt =====
-- Two objects and two workers.
use grafana_app_sdk.Base.{
  ℕ, String, List, [], ◌∷◌, ◌++◌, ◌≡◌, refl, filter, if◌then◌else◌, ◌==◌, arith,
}
use grafana_app_sdk.Resource.Object.{Object}
use grafana_app_sdk.Resource.Samples.{issue}
use grafana_app_sdk.Operator.EventQueue.{RingGrowing, push, deliver, hand_out, new_buffered_queue}
use grafana_app_sdk.Operator.EventQueue.Samples.{list_ring}
use grafana_app_sdk.Operator.ConcurrentWatcher.{
  Notification, added, updated, EventInfo, ConcurrentWatcher, new_concurrent_watcher, notify, work,
  Reachable, start, then_step, notifies, works,
}
use grafana_app_sdk.Operator.ConcurrentWatcher.InOrder.{about, Reachable-InOrder}

abbrev gvk : Object → String
gvk o = "g/v1, Kind=Issue"

abbrev hash : String → ℕ
hash s = if s == "g/v1, Kind=Issue/default/one" then 4 else 7

abbrev one : Object
one = issue "one" "1" 0

abbrev two : Object
two = issue "two" "1" 0

abbrev key_one : String
key_one = "g/v1, Kind=Issue/default/one"

abbrev ring : RingGrowing EventInfo
ring = list_ring EventInfo

abbrev reached : (w : ConcurrentWatcher ring hash gvk 2) × Reachable ring hash gvk 2 w
reached =
    let s1 = then_step start (notifies (added one)) in
    let s2 = then_step s1 (notifies (added two)) in
    let s3 = then_step s2 (notifies (updated one (issue "one" "2" 0))) in
    let s4 = then_step s3 (works 1 (omega arith)) in (_, then_step s4 (works 0 (omega arith)))

Reachable-InOrder_example :
    (waiting : List Notification) × (filter (about ring hash gvk 2 key_one) (reached.0.incoming)
      ≡ filter (about ring hash gvk 2 key_one) (reached.0.handled) ++ waiting)
Reachable-InOrder_example = Reachable-InOrder ring hash gvk 2 (reached.0) key_one (reached.1)

handled_so_far : reached.0.handled ≡ added two ∷ added one ∷ []
unfolding notify work new_concurrent_watcher push deliver hand_out new_buffered_queue
handled_so_far = refl
