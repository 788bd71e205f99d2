-- ===== src/Operator/CustomCache.antt =====
-- operator/informer_customcache.go and operator/informer_processor.go: what the custom cache informer
-- does with the deltas of its controller. The store and the controller are outside code: a store is
-- a parameter with the documented behaviour of `cache.Store`, and deltas come in any sequence. Errors
-- are numbers, and tracing is left out.
use grafana_app_sdk.Base.{
  ℕ, String, List, [], ◌∷◌, ◌++◌, ◌≡◌, Bool, true, false, Option, none, some, if◌then◌else◌, ◌==◌,
  map,
}
use grafana_app_sdk.Operator.EventQueue.{RingGrowing, BufferedQueue, push}
pub mod Mirror
pub mod Handlers
mod Tests

pub data DeltaType : Type 0 where
  added updated deleted replaced sync other : DeltaType

pub record Delta (Obj : Type 0) : Type 0 where
  pub delta_type : DeltaType
  pub object : Obj

-- The three results of `clientState.Get`.
pub data Found (Obj : Type 0) : Type 0 where
  found : Obj → Found Obj
  missing : Found Obj
  get_failed : ℕ → Found Obj

abbrev pub put : {Obj : Type 0} → String → Option Obj → (String → Option Obj) → String → Option Obj
put k x m j = if k == j then x else m j

-- `cache.Store`: its operations, what it holds, and how they go together.
pub record CacheStore (Obj : Type 0) : Type 1 where
  pub Store : Type 0
  pub key : Obj → String
  pub get : Store → Obj → Found Obj
  pub add : Store → Obj → Option ℕ × Store
  pub update : Store → Obj → Option ℕ × Store
  pub delete : Store → Obj → Option ℕ × Store
  pub contents : Store → String → Option Obj
  pub get_found : (s : Store) (o old : Obj) → get s o ≡ found old → contents s (key o) ≡ some old
  pub get_missing : (s : Store) (o : Obj) → get s o ≡ missing → contents s (key o) ≡ none
  pub contents-add :
      (s : Store) (o : Obj) (k : String)
      → (add s o).0 ≡ none
      → contents (add s o).1 k ≡ put (key o) (some o) (contents s) k
  pub contents-update :
      (s : Store) (o : Obj) (k : String)
      → (update s o).0 ≡ none
      → contents (update s o).1 k ≡ put (key o) (some o) (contents s) k
  pub contents-delete :
      (s : Store) (o : Obj) (k : String)
      → (delete s o).0 ≡ none
      → contents (delete s o).1 k ≡ put (key o) none (contents s) k

-- `informerEventAdd`, `informerEventUpdate`, `informerEventDelete` and `informerEventCacheSync`.
pub data InformerEvent (Obj : Type 0) : Type 0 where
  event_add : Obj → Bool → InformerEvent Obj
  event_update : Obj → Obj → InformerEvent Obj
  event_delete : Obj → InformerEvent Obj
  event_cache_sync : Obj → InformerEvent Obj

module _ {Obj : Type 0} (cache : CacheStore Obj) (ring : RingGrowing (InformerEvent Obj)) where
  open cache use {Store, get, add, update, delete}

  -- The store and the queues of the processor's listeners, once the processor has started.
  pub record Informer : Type 0 where
    pub store : Store
    pub queues : List (BufferedQueue ring)

  -- `OnAdd`, `OnUpdate` and `OnDelete` distribute an event to all listeners.
  unfoldable pub distribute : InformerEvent Obj → Informer → Informer
  distribute e c = record c { queues = map (push ring e) c.queues }

  -- After a change of the store, the event, unless the change failed.
  unfoldable pub changed : Option ℕ × Store → InformerEvent Obj → Informer → Option ℕ × Informer
  unfolding distribute
  changed (some e, s) event c = (some e, record c { store = s })
  changed (none, s) event c = (none, distribute event (record c { store = s }))

  -- The case of an object that is there; a failed `Get` counts as a missing object.
  unfoldable pub upserted : Found Obj → Obj → Bool → Informer → Option ℕ × Informer
  unfolding changed
  upserted (found old) o initial c = changed (update c.store o) (event_update o old) c
  upserted missing o initial c = changed (add c.store o) (event_add o initial) c
  upserted (get_failed e) o initial c = changed (add c.store o) (event_add o initial) c

  unfoldable pub process_delta : DeltaType → Obj → Bool → Informer → Option ℕ × Informer
  unfolding upserted changed
  process_delta added o initial c = upserted (get c.store o) o initial c
  process_delta updated o initial c = upserted (get c.store o) o initial c
  process_delta replaced o initial c = upserted (get c.store o) o initial c
  process_delta sync o initial c = upserted (get c.store o) o initial c
  process_delta deleted o initial c = changed (delete c.store o) (event_delete o) c
  process_delta other o initial c = (none, c)

  -- What comes after a step, unless it failed.
  unfoldable pub after_step :
      Option ℕ × Informer → (Informer → Option ℕ × Informer) → Option ℕ × Informer
  after_step (some e, c) rest = (some e, c)
  after_step (none, c) rest = rest c

  -- The loop ends with the first error.
  unfoldable pub process_deltas : List (Delta Obj) → Bool → Informer → Option ℕ × Informer
  unfolding process_delta after_step
  process_deltas [] initial c = (none, c)
  process_deltas (d ∷ ds) initial c =
      after_step (process_delta d.delta_type d.object initial c) (process_deltas ds initial)
