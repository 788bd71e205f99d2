-- ===== src/Operator/CustomCache/Mirror.antt =====
-- The deltas that an informer processes, and what its store holds and its handlers get.
use mathlib.Core.Path.{fun_ext}
use grafana_app_sdk.Base.{
  ℕ, String, List, [], ◌∷◌, ◌++◌, ◌≡◌, ◌≢◌, refl, sym, ap, subst, ◌∙◌, Bool, Option, none, some,
  map,
}
use grafana_app_sdk.Operator.EventQueue.{RingGrowing, BufferedQueue, push}
use grafana_app_sdk.Operator.CustomCache.{
  DeltaType, added, updated, deleted, replaced, sync, other, Delta, Found, found, missing,
  get_failed, put, CacheStore, InformerEvent, event_add, event_update, event_delete, Informer,
  distribute, changed, upserted, process_delta, after_step, process_deltas,
}

-- What deltas do to a map from keys to objects, and the events that go with it.
module _ {Obj : Type 0} (key : Obj → String) where
  abbrev pub Contents : Type 0
  Contents = String → Option Obj

  pub applied : DeltaType → Obj → Contents → Contents
  applied deleted o m = put (key o) none m
  applied other o m = m
  applied _ o m = put (key o) (some o) m

  pub upsert_event : Bool → Obj → Option Obj → InformerEvent Obj
  upsert_event initial o none = event_add o initial
  upsert_event initial o (some old) = event_update o old

  pub events_of : DeltaType → Bool → Obj → Contents → List (InformerEvent Obj)
  unfolding upsert_event
  events_of deleted initial o m = event_delete o ∷ []
  events_of other initial o m = []
  events_of _ initial o m = upsert_event initial o (m (key o)) ∷ []

  pub replay : List (Delta Obj) → Contents → Contents
  unfolding applied
  replay [] m = m
  replay (d ∷ ds) m = replay ds (applied d.delta_type d.object m)

  pub replay_events : List (Delta Obj) → Bool → Contents → List (InformerEvent Obj)
  unfolding applied events_of
  replay_events [] initial m = []
  replay_events (d ∷ ds) initial m =
      events_of d.delta_type initial d.object m
      ++ replay_events ds initial (applied d.delta_type d.object m)

module _ {Obj : Type 0} (cache : CacheStore Obj) (ring : RingGrowing (InformerEvent Obj)) where
  open cache use {Store, key, get, add, update, delete, contents}

  -- Pushes to a queue, one after the other.
  unfoldable pub push_all : List (InformerEvent Obj) → BufferedQueue ring → BufferedQueue ring
  push_all [] q = q
  push_all (e ∷ es) q = push_all es (push ring e q)

  push_all-append :
      (es fs : List (InformerEvent Obj)) (q : BufferedQueue ring)
      → push_all (es ++ fs) q ≡ push_all fs (push_all es q)
  unfolding push_all
  push_all-append [] fs q = refl
  push_all-append (e ∷ es) fs q = push_all-append es fs (push ring e q)

  map-map :
      (f g : BufferedQueue ring → BufferedQueue ring) (qs : List (BufferedQueue ring))
      → map f (map g qs) ≡ map (λ q. f (g q)) qs
  map-map f g [] = refl
  map-map f g (q ∷ qs) = ap (λ l. f (g q) ∷ l) (map-map f g qs)

  map-same : (qs : List (BufferedQueue ring)) → qs ≡ map (λ q. q) qs
  map-same [] = refl
  map-same (q ∷ qs) = ap (λ l. q ∷ l) (map-same qs)

  -- The store holds this and the queues got these events, unless there was an error.
  abbrev Did :
      Contents key
      → List (InformerEvent Obj)
      → Informer cache ring
      → Option ℕ × Informer cache ring
      → Type 0
  Did m es c r = (contents r.1.store ≡ m) × (r.1.queues ≡ map (push_all es) c.queues)

  changed-Did :
      (x : Option ℕ × Store) (e : InformerEvent Obj) (m : Contents key) (c : Informer cache ring)
      → (x.0 ≡ none → contents x.1 ≡ m)
      → (changed cache ring x e c).0 ≡ none
      → Did m (e ∷ []) c (changed cache ring x e c)
  unfolding changed distribute push_all
  changed-Did (some n, s) e m c h ok = cc
  changed-Did (none, s) e m c h ok = (h refl, refl)

  module _ (reliable : (s : Store) (o : Obj) (n : ℕ) → get s o ≢ get_failed n) where
    upserted-Did :
        (x : Found Obj) (o : Obj) (initial : Bool) (c : Informer cache ring)
        → get c.store o ≡ x
        → (upserted cache ring x o initial c).0 ≡ none
        → Did
            (put (key o) (some o) (contents c.store))
            (upsert_event key initial o (contents c.store (key o)) ∷ [])
            c
            (upserted cache ring x o initial c)
    unfolding upserted upsert_event
    upserted-Did (found old) o initial c g ok =
        subst
          (λ y.
            Did (put (key o) (some o) (contents c.store)) (upsert_event key initial o y ∷ []) c
              (upserted cache ring (found old) o initial c))
          (sym (cache.get_found c.store o old g))
          (changed-Did (update c.store o) (event_update o old) _ c
            (λ n. fun_ext λ k. cache.contents-update c.store o k n) ok)
    upserted-Did missing o initial c g ok =
        subst
          (λ y.
            Did (put (key o) (some o) (contents c.store)) (upsert_event key initial o y ∷ []) c
              (upserted cache ring missing o initial c))
          (sym (cache.get_missing c.store o g))
          (changed-Did (add c.store o) (event_add o initial) _ c
            (λ n. fun_ext λ k. cache.contents-add c.store o k n) ok)
    upserted-Did (get_failed n) o initial c g ok = absurd (reliable c.store o n g)

    process_delta-Did :
        (t : DeltaType) (o : Obj) (initial : Bool) (c : Informer cache ring)
        → (process_delta cache ring t o initial c).0 ≡ none
        → Did
            (applied key t o (contents c.store))
            (events_of key t initial o (contents c.store))
            c
            (process_delta cache ring t o initial c)
    unfolding process_delta applied events_of push_all
    process_delta-Did added o initial c ok = upserted-Did (get c.store o) o initial c refl ok
    process_delta-Did updated o initial c ok = upserted-Did (get c.store o) o initial c refl ok
    process_delta-Did replaced o initial c ok = upserted-Did (get c.store o) o initial c refl ok
    process_delta-Did sync o initial c ok = upserted-Did (get c.store o) o initial c refl ok
    process_delta-Did deleted o initial c ok =
        changed-Did (delete c.store o) (event_delete o) _ c
          (λ n. fun_ext λ k. cache.contents-delete c.store o k n) ok
    process_delta-Did other o initial c ok = (refl, map-same c.queues)

    two_parts :
        (es fs : List (InformerEvent Obj)) (qs : List (BufferedQueue ring))
        → map (push_all fs) (map (push_all es) qs) ≡ map (push_all (es ++ fs)) qs
    two_parts es fs qs =
        map-map (push_all fs) (push_all es) qs
        ∙ ap (λ f. map f qs) (fun_ext λ q. sym (push_all-append es fs q))

    -- A step, and what follows it.
    then-Did :
        (x : Option ℕ × Informer cache ring)
        (rest : Informer cache ring → Option ℕ × Informer cache ring) (c : Informer cache ring)
        (m : Contents key) (es : List (InformerEvent Obj)) (next : Contents key → Contents key)
        (more : Contents key → List (InformerEvent Obj))
        → (x.0 ≡ none → Did m es c x)
        → ((c' : Informer cache ring)
            → (rest c').0 ≡ none
            → Did (next (contents c'.store)) (more (contents c'.store)) c' (rest c'))
        → (after_step cache ring x rest).0 ≡ none
        → Did (next m) (es ++ more m) c (after_step cache ring x rest)
    unfolding after_step
    then-Did (some e, c') rest c m es next more h k ok = cc
    then-Did (none, c') rest c m es next more h k ok =
        let (held, queued) = h refl in
        let (held', queued') = k c' ok in
        (
          held' ∙ ap next held,
          queued'
              ∙ ap (λ n. map (push_all (more n)) c'.queues) held
              ∙ ap (map (push_all (more m))) queued
              ∙ two_parts es (more m) c.queues,
        )

    -- Deltas that are processed without an error, by a store whose `Get` does not fail: the store
    -- then holds what the deltas, applied one after the other, make of what it held before, and
    -- every queue got one push for each delta, in their order: an update with the object that was
    -- known under the key, or an add if there was none, or a deletion. Deltas of other types do
    -- nothing.
    pub process_deltas-replay :
        (ds : List (Delta Obj)) (initial : Bool) (c : Informer cache ring)
        → (process_deltas cache ring ds initial c).0 ≡ none
        → let c' = (process_deltas cache ring ds initial c).1 in
          (contents c'.store ≡ replay key ds (contents c.store))
          × (c'.queues ≡ map (push_all (replay_events key ds initial (contents c.store))) c.queues)
    unfolding process_deltas replay replay_events push_all
    process_deltas-replay [] initial c ok = (refl, map-same c.queues)
    process_deltas-replay (d ∷ ds) initial c ok =
        then-Did (process_delta cache ring d.delta_type d.object initial c)
          (process_deltas cache ring ds initial) c
          (applied key d.delta_type d.object (contents c.store))
          (events_of key d.delta_type initial d.object (contents c.store)) (replay key ds)
          (replay_events key ds initial) (process_delta-Did d.delta_type d.object initial c)
          (process_deltas-replay ds initial) ok
