-- ===== src/Operator/CustomCache/Tests.antt =====
-- An informer with a map as its store and one listener.
use grafana_app_sdk.Base.{
  ℕ, String, List, [], ◌∷◌, ◌++◌, ◌≡◌, ◌≢◌, inl, inr, refl, true, Option, none, some, if◌then◌else◌,
  nat_eq, map, filter, get_elem?,
}
use grafana_app_sdk.Operator.EventQueue.{BufferedQueue, new_buffered_queue, deliver_times, start}
use grafana_app_sdk.Operator.EventQueue.Drain.{remaining}
use grafana_app_sdk.Operator.EventQueue.Samples.{list_ring}
use grafana_app_sdk.Operator.CustomCache.{
  DeltaType, added, deleted, Delta, Found, found, missing, get_failed, put, CacheStore,
  InformerEvent, Informer, process_deltas,
}
use grafana_app_sdk.Operator.CustomCache.Mirror.{
  replay, replay_events, push_all, process_deltas-replay,
}
use grafana_app_sdk.Operator.CustomCache.Handlers.{
  is_watcher, Outside, dispatch_all, calls_of, process_deltas-watched,
}

-- An object is its key and its version.
abbrev Obj : Type 0
Obj = String × ℕ

abbrev lookup : Option Obj → Found Obj
lookup none = missing
lookup (some o) = found o

lookup-found : (x : Option Obj) (old : Obj) → lookup x ≡ found old → x ≡ some old
lookup-found none old e = cc e
lookup-found (some o) old e = cc e

lookup-missing : (x : Option Obj) → lookup x ≡ missing → x ≡ none
lookup-missing none e = refl
lookup-missing (some o) e = cc e

lookup-get_failed : (x : Option Obj) (n : ℕ) → lookup x ≢ get_failed n
lookup-get_failed none n e = cc e
lookup-get_failed (some o) n e = cc e

abbrev map_store : CacheStore Obj
map_store = record {
  Store = String → Option Obj;
  key = λ o. o.0;
  get = λ s o. lookup (s o.0);
  add = λ s o. (none, put o.0 (some o) s);
  update = λ s o. (none, put o.0 (some o) s);
  delete = λ s o. (none, put o.0 none s);
  contents = λ s. s;
  get_found = λ s o old. lookup-found (s o.0) old;
  get_missing = λ s o. lookup-missing (s o.0);
  contents-add = λ s o k e. refl;
  contents-update = λ s o k e. refl;
  contents-delete = λ s o k e. refl;
}

abbrev Queue : Type 0
Queue = BufferedQueue (list_ring (InformerEvent Obj))

abbrev queue : Queue
queue = new_buffered_queue (list_ring (InformerEvent Obj))

abbrev informer : Informer map_store (list_ring (InformerEvent Obj))
informer = record { store = λ k. none; queues = queue ∷ [] }

abbrev delta : DeltaType → ℕ → Delta Obj
delta t n = record { delta_type = t; object = ("one", n) }

abbrev deltas : List (Delta Obj)
deltas = delta added 1 ∷ delta added 2 ∷ delta deleted 2 ∷ []

processed : (process_deltas map_store (list_ring (InformerEvent Obj)) deltas true informer).0 ≡ none
unfolding process_deltas
processed = refl

process_deltas-replay_example :
    let c' = (process_deltas map_store (list_ring (InformerEvent Obj)) deltas true informer).1 in
    (c'.store ≡ replay (λ o. o.0) deltas (λ k. none))
    × (c'.queues
        ≡ map
            (push_all map_store
              (list_ring (InformerEvent Obj))
              (replay_events (λ o. o.0) deltas true (λ k. none)))
            (queue ∷ []))
process_deltas-replay_example =
    process_deltas-replay map_store (list_ring (InformerEvent Obj))
      (λ s o. lookup-get_failed (s o.0)) deltas true informer processed

-- Version 2 cannot be cast, and the watcher returns errors.
abbrev outside : Outside Obj ℕ
outside = record {
  transformer = λ o. if nat_eq o.1 2 then inl 7 else inr o.1;
  watcher = λ calls c. some 5;
}

process_deltas-watched_example :
    (q' : Queue) × (get_elem?
        (process_deltas map_store (list_ring (InformerEvent Obj)) deltas true informer).1.queues
        0
      ≡ some q')
    × (filter is_watcher (
          dispatch_all outside
            (deliver_times
              (list_ring (InformerEvent Obj))
              (remaining (list_ring (InformerEvent Obj)) q')
              q').delivered
            [])
        ≡ calls_of outside (queue.pushed ++ replay_events (λ o. o.0) deltas true (λ k. none)))
unfolding new_buffered_queue
process_deltas-watched_example =
    process_deltas-watched outside map_store (list_ring (InformerEvent Obj))
      (λ s o. lookup-get_failed (s o.0)) deltas true informer 0 queue processed refl start refl refl
