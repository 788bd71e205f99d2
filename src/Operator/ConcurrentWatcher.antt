-- ===== src/Operator/ConcurrentWatcher.antt =====
-- operator/concurrentwatcher.go: the watcher that hands each event to one of its workers, by the
-- hash of the object's key, over the queues of informer_processor.go. `xxhash.Sum64` and the text of
-- a group, version and kind are parameters. A delivery by a queue is one step with the handling of
-- the event by its worker, and `Run` is not stopped.
use Prim.Native.String
use grafana_app_sdk.Base.{
  ℕ, ◌%◌, ◌<◌, String, List, [], ◌∷◌, ◌++◌, ◌≡◌, Bool, true, false, Option, none, some,
  if◌then◌else◌, nat_eq, ltb,
}
use grafana_app_sdk.Resource.Object.{Object}
use grafana_app_sdk.Operator.Action.{ResourceAction, create, update, delete, other}
use grafana_app_sdk.Operator.EventQueue.{
  RingGrowing, BufferedQueue, new_buffered_queue, push, deliver,
}
pub mod InOrder
mod Tests

-- The calls of the watcher's methods.
pub data Notification : Type 0 where
  added : Object → Notification
  updated : Object → Object → Notification
  deleted : Object → Notification

pub record EventInfo : Type 0 where
  pub action : ResourceAction
  pub target : Object
  pub source : Option Object

-- The event that `Add`, `Update` and `Delete` push.
pub event_info : Notification → EventInfo
event_info (added o) = record { action = create; target = o; source = none }
event_info (updated src tgt) = record { action = update; target = tgt; source = some src }
event_info (deleted o) = record { action = delete; target = o; source = none }

-- The method of the wrapped watcher that `handleEvent` calls. A nil object is not modelled.
pub handle_event : EventInfo → Option Notification
handle_event e = elim e.action [
  | create ↦ some (added e.target)
  | update ↦ elim e.source [ none ↦ none | some src ↦ some (updated src e.target) ]
  | delete ↦ some (deleted e.target)
  | _ ↦ none
]

-- The object by which a worker is chosen.
abbrev pub subject : Notification → Object
subject (added o) = o
subject (updated src tgt) = src
subject (deleted o) = o

module _ (ring : RingGrowing EventInfo) (sum64 : String → ℕ) (gvk_string : Object → String)
    (size : ℕ) where
  abbrev pub object_key : Object → String
  object_key o =
      String.◌++◌ (gvk_string o)
        (String.◌++◌ "/" (String.◌++◌ o.namespace (String.◌++◌ "/" o.name)))

  pub hash_mod : Object → ℕ
  hash_mod o = sum64 (object_key o) % size

  -- The queues, and, recorded in their order, the calls that came in and those that the wrapped
  -- watcher got.
  pub record ConcurrentWatcher : Type 0 where
    pub workers : ℕ → BufferedQueue ring
    pub incoming : List Notification
    pub handled : List Notification

  pub new_concurrent_watcher : ConcurrentWatcher
  new_concurrent_watcher = record {
    workers = λ i. new_buffered_queue ring;
    incoming = [];
    handled = [];
  }

  -- `Add`, `Update` and `Delete`.
  pub notify : Notification → ConcurrentWatcher → ConcurrentWatcher
  unfolding hash_mod event_info
  notify n w = record w {
    workers = λ i.
        if nat_eq (hash_mod (subject n)) i
        then push ring (event_info n) (w.workers i)
        else w.workers i;
    incoming = w.incoming ++ n ∷ [];
  }

  -- A worker takes the next event and handles it.
  pub work : ℕ → ConcurrentWatcher → ConcurrentWatcher
  unfolding handle_event
  work j w = elim (w.workers j).event [
    | none ↦ w
    | some e ↦ record w {
      workers = λ i. if nat_eq j i then deliver ring (w.workers i) else w.workers i;
      handled = elim (handle_event e) [ none ↦ w.handled | some n ↦ w.handled ++ n ∷ [] ];
    }
  ]

  pub data Step : ConcurrentWatcher → ConcurrentWatcher → Type 0 where
    notifies : {w : ConcurrentWatcher} (n : Notification) → Step w (notify n w)
    works : {w : ConcurrentWatcher} (j : ℕ) → j < size → Step w (work j w)

  pub data Reachable : ConcurrentWatcher → Type 0 where
    start : Reachable new_concurrent_watcher
    then_step : {v w : ConcurrentWatcher} → Reachable v → Step v w → Reachable w
