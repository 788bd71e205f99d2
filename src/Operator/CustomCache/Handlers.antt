-- ===== src/Operator/CustomCache/Handlers.antt =====
-- operator/informer_processor.go and operator/informer_customcache.go: the calls that a listener makes
-- of its watcher, by `toResourceEventHandlerFuncs`, and with them the way of an event from the
-- controller to the watcher.
use mathlib.Core.List.{append_assoc, append-nil}
use grafana_app_sdk.Base.{
  ℕ, zero, suc, List, [], ◌∷◌, ◌++◌, ◌≡◌, ◌≢◌, ◌⊎◌, inl, inr, refl, sym, ap, ◌∙◌, Bool, true, false,
  Option, none, some, map, filter, get_elem?, filter-append,
}
use grafana_app_sdk.Operator.EventQueue.{
  RingGrowing, BufferedQueue, push, deliver_times, pushes, Reachable, step,
}
use grafana_app_sdk.Operator.EventQueue.Fifo.{push_open, push_returned}
use grafana_app_sdk.Operator.EventQueue.Drain.{remaining, delivered-deliver_times}
use grafana_app_sdk.Operator.CustomCache.{
  Delta, get_failed, CacheStore, InformerEvent, event_add, event_update, event_delete,
  event_cache_sync, Informer, process_deltas,
}
use grafana_app_sdk.Operator.CustomCache.Mirror.{replay_events, push_all, process_deltas-replay}

-- The calls of a watcher and of the error handler.
pub data HandlerCall (R : Type 0) : Type 0 where
  watcher_add : R → HandlerCall R
  watcher_update : R → R → HandlerCall R
  watcher_delete : R → HandlerCall R
  handle_error : ℕ → HandlerCall R

abbrev pub is_watcher : {R : Type 0} → HandlerCall R → Bool
is_watcher (handle_error e) = false
is_watcher _ = true

-- `toResourceObject`, and what the watcher returns, by the calls before.
pub record Outside (Obj R : Type 0) : Type 0 where
  pub transformer : Obj → ℕ ⊎ R
  pub watcher : List (HandlerCall R) → HandlerCall R → Option ℕ

module _ {Obj R : Type 0} (outside : Outside Obj R) where
  open outside use {transformer, watcher}

  unfoldable pub reported : Option ℕ → List (HandlerCall R)
  reported none = []
  reported (some e) = handle_error e ∷ []

  -- A call of the watcher, and the report of its error.
  unfoldable pub called : HandlerCall R → List (HandlerCall R) → List (HandlerCall R)
  unfolding reported
  called c calls = calls ++ c ∷ reported (watcher calls c)

  -- An object that cannot be cast is reported.
  unfoldable pub with_object :
      ℕ ⊎ R
      → (R → List (HandlerCall R) → List (HandlerCall R))
      → List (HandlerCall R)
      → List (HandlerCall R)
  with_object (inl e) act calls = calls ++ handle_error e ∷ []
  with_object (inr o) act calls = act o calls

  -- `AddFunc`, `UpdateFunc` and `DeleteFunc`, by the type of the event.
  unfoldable pub dispatch : InformerEvent Obj → List (HandlerCall R) → List (HandlerCall R)
  unfolding with_object called
  dispatch (event_add o initial) = with_object (transformer o) (λ r. called (watcher_add r))
  dispatch (event_update o old) =
      with_object (transformer old)
        (λ s. with_object (transformer o) (λ r. called (watcher_update s r)))
  dispatch (event_delete o) = with_object (transformer o) (λ r. called (watcher_delete r))
  dispatch (event_cache_sync o) =
      with_object (transformer o)
        (λ s. with_object (transformer o) (λ r. called (watcher_update s r)))

  -- The loop of `informerProcessorListener.run`.
  pub dispatch_all : List (InformerEvent Obj) → List (HandlerCall R) → List (HandlerCall R)
  unfolding dispatch
  dispatch_all [] calls = calls
  dispatch_all (e ∷ es) calls = dispatch_all es (dispatch e calls)

  abbrev pub cast_one : ℕ ⊎ R → (R → HandlerCall R) → List (HandlerCall R)
  cast_one (inl e) f = []
  cast_one (inr r) f = f r ∷ []

  abbrev pub cast_two : ℕ ⊎ R → ℕ ⊎ R → List (HandlerCall R)
  cast_two (inl e) y = []
  cast_two (inr s) y = cast_one y (watcher_update s)

  -- The call of the watcher that an event stands for, if its objects can be cast.
  pub call_of : InformerEvent Obj → List (HandlerCall R)
  call_of (event_add o initial) = cast_one (transformer o) watcher_add
  call_of (event_update o old) = cast_two (transformer old) (transformer o)
  call_of (event_delete o) = cast_one (transformer o) watcher_delete
  call_of (event_cache_sync o) = cast_two (transformer o) (transformer o)

  pub calls_of : List (InformerEvent Obj) → List (HandlerCall R)
  unfolding call_of
  calls_of [] = []
  calls_of (e ∷ es) = call_of e ++ calls_of es

  -- The calls of the watcher without those of the error handler.
  abbrev pub watched : List (HandlerCall R) → List (HandlerCall R)
  watched = filter is_watcher

  watched-called :
      (c : HandlerCall R) (calls : List (HandlerCall R))
      → is_watcher c ≡ true
      → watched (called c calls) ≡ watched calls ++ c ∷ []
  unfolding called reported
  watched-called c calls w =
      filter-append is_watcher calls (c ∷ reported (watcher calls c))
      ∙ ap (λ l. watched calls ++ l) (alone c (watcher calls c) w)
    where
      alone :
          (c : HandlerCall R) (e : Option ℕ)
          → is_watcher c ≡ true
          → watched (c ∷ reported e) ≡ c ∷ []
      alone c none w = rw w refl
      alone c (some e) w = rw w refl

  watched-report :
      (e : ℕ) (calls : List (HandlerCall R))
      → watched (calls ++ handle_error e ∷ []) ≡ watched calls ++ []
  watched-report e calls = filter-append is_watcher calls (handle_error e ∷ [])

  watched_one :
      (x : ℕ ⊎ R) (f : R → HandlerCall R) (calls : List (HandlerCall R))
      → ((r : R) → is_watcher (f r) ≡ true)
      → watched (with_object x (λ r. called (f r)) calls) ≡ watched calls ++ cast_one x f
  unfolding with_object
  watched_one (inl e) f calls w = watched-report e calls
  watched_one (inr r) f calls w = watched-called (f r) calls (w r)

  watched_two :
      (x y : ℕ ⊎ R) (calls : List (HandlerCall R))
      → watched (with_object x (λ s. with_object y (λ r. called (watcher_update s r))) calls)
        ≡ watched calls ++ cast_two x y
  unfolding with_object
  watched_two (inl e) y calls = watched-report e calls
  watched_two (inr s) y calls = watched_one y (watcher_update s) calls (λ r. refl)

  watched-dispatch :
      (e : InformerEvent Obj) (calls : List (HandlerCall R))
      → watched (dispatch e calls) ≡ watched calls ++ call_of e
  unfolding dispatch call_of
  watched-dispatch (event_add o initial) calls =
      watched_one (transformer o) watcher_add calls (λ r. refl)
  watched-dispatch (event_update o old) calls = watched_two (transformer old) (transformer o) calls
  watched-dispatch (event_delete o) calls =
      watched_one (transformer o) watcher_delete calls (λ r. refl)
  watched-dispatch (event_cache_sync o) calls = watched_two (transformer o) (transformer o) calls

  pub watched-dispatch_all :
      (es : List (InformerEvent Obj)) (calls : List (HandlerCall R))
      → watched (dispatch_all es calls) ≡ watched calls ++ calls_of es
  unfolding dispatch_all calls_of
  watched-dispatch_all [] calls = sym (append-nil (watched calls))
  watched-dispatch_all (e ∷ es) calls =
      watched-dispatch_all es (dispatch e calls)
      ∙ ap (λ l. l ++ calls_of es) (watched-dispatch e calls)
      ∙ append_assoc (watched calls) (call_of e) (calls_of es)

module _ {Obj R : Type 0} (outside : Outside Obj R) (cache : CacheStore Obj)
    (ring : RingGrowing (InformerEvent Obj)) where
  open cache use {Store, key, get, contents}

  push_all_open :
      (es : List (InformerEvent Obj)) (q : BufferedQueue ring)
      → Reachable ring q
      → q.stopped ≡ false
      → q.returned ≡ false
      → Reachable ring (push_all cache ring es q)
        × ((push_all cache ring es q).pushed ≡ q.pushed ++ es)
        × ((push_all cache ring es q).returned ≡ false)
  unfolding push_all
  push_all_open [] q r s n = (r, sym (append-nil q.pushed), n)
  push_all_open (e ∷ es) q r s n =
      let (a, b, c) = push_open ring e q s in
      let (t, p, m) =
        push_all_open es (push ring e q) (step r (pushes e n)) a (push_returned ring e q ∙ n) in
      (t, p ∙ ap (λ l. l ++ es) b ∙ append_assoc q.pushed (e ∷ []) es, m)

  get_elem-map :
      (f : BufferedQueue ring → BufferedQueue ring) (qs : List (BufferedQueue ring)) (i : ℕ)
      → (q : BufferedQueue ring) → get_elem? qs i ≡ some q
      → get_elem? (map f qs) i ≡ some (f q)
  get_elem-map f [] i q at = cc
  get_elem-map f (p ∷ qs) zero q at = ap some (ap f (same at))
    where
      same : {p q : BufferedQueue ring} → some p ≡ some q → p ≡ q
      same e = cc e
  get_elem-map f (p ∷ qs) (suc i) q at = get_elem-map f qs i q at

  -- From the controller to a watcher: deltas that are processed without an error, by a store
  -- whose `Get` does not fail, while the queue of a listener is not stopped and has not returned,
  -- and then as many receipts by the listener as there are events in its queue. The watcher then
  -- has got one call for each event that was pushed to the listener before, and one for each
  -- delta, in their order: an update from the object that was known under the key, an add if
  -- there was none, or a deletion. Events whose objects cannot be cast and deltas of other types
  -- are left out, and errors of the watcher change nothing.
  pub process_deltas-watched :
      (reliable : (s : Store) (o : Obj) (n : ℕ) → get s o ≢ get_failed n) (ds : List (Delta Obj))
      (initial : Bool) (c : Informer cache ring) (i : ℕ) (q : BufferedQueue ring)
      → (process_deltas cache ring ds initial c).0 ≡ none
      → get_elem? c.queues i ≡ some q
      → Reachable ring q
      → q.stopped ≡ false
      → q.returned ≡ false
      → (q' : BufferedQueue ring) × (get_elem? (process_deltas cache ring ds initial c).1.queues i
          ≡ some q')
        × (filter is_watcher
              (dispatch_all outside (deliver_times ring (remaining ring q') q').delivered [])
            ≡ calls_of outside (q.pushed ++ replay_events key ds initial (contents c.store)))
  process_deltas-watched reliable ds initial c i q ok at r s n =
      let es = replay_events key ds initial (contents c.store) in
      let q' = push_all cache ring es q in
      let (held, queued) = process_deltas-replay cache ring reliable ds initial c ok in
      let (t, p, m) = push_all_open es q r s n in
      (
        q',
        ap (λ l. get_elem? l i) queued ∙ get_elem-map (push_all cache ring es) c.queues i q at,
        watched-dispatch_all outside (deliver_times ring (remaining ring q') q').delivered []
            ∙ ap (calls_of outside) (delivered-deliver_times ring q' t m ∙ p),
      )
