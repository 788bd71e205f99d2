-- ===== src/Operator/ConcurrentWatcher/InOrder.antt =====
-- The order in which the wrapped watcher gets the calls for one object.
use mathlib.Core.List.{append-nil, map-append}
use grafana_app_sdk.Base.{
  ℕ, ◌%◌, String, List, [], ◌∷◌, ◌++◌, ◌≡◌, refl, sym, ap, subst, ◌∙◌, Bool, true, false, some, inl,
  inr, nat_eq, ◌==◌, filter, map, cons_parts, filter-append, filter-filter, filter_kept,
  filter_left_out, map-filter_member, Bool-cases, Option-cases, arith, eq_iff,
}
use grafana_app_sdk.Resource.Object.{Object}
use grafana_app_sdk.Operator.EventQueue.{RingGrowing, BufferedQueue, deliver}
use grafana_app_sdk.Operator.EventQueue.Fifo.{
  InOrder, IsFifo, push-IsFifo, deliver-IsFifo, push_open, push_returned, deliver_next, fifo_prefix,
  new_queue,
}
use grafana_app_sdk.Operator.ConcurrentWatcher.{
  Notification, added, updated, deleted, EventInfo, event_info, handle_event, subject, object_key,
  hash_mod, ConcurrentWatcher, new_concurrent_watcher, notify, work, notifies, works, Reachable,
  start, then_step,
}

-- The worker calls the method that the event was made for, with its arguments.
pub handle_event-event_info : (n : Notification) → handle_event (event_info n) ≡ some n
unfolding handle_event event_info
handle_event-event_info (added o) = refl
handle_event-event_info (updated src tgt) = refl
handle_event-event_info (deleted o) = refl

module _ (ring : RingGrowing EventInfo) (sum64 : String → ℕ) (gvk_string : Object → String)
    (size : ℕ) where
  abbrev to : ℕ → Notification → Bool
  to i n = nat_eq (hash_mod ring sum64 gvk_string size (subject n)) i

  -- The calls for the object with a key.
  abbrev pub about : String → Notification → Bool
  about k n = object_key ring sum64 gvk_string size (subject n) == k

  -- A queue with what went into it and what was handled of it.
  abbrev IsWorker : ℕ → BufferedQueue ring → List Notification → List Notification → Type 0
  IsWorker i q incoming handled =
      IsFifo ring q
      × (q.stopped ≡ false)
      × (q.returned ≡ false)
      × (q.pushed ≡ map event_info (filter (to i) incoming))
      × (q.delivered ≡ map event_info (filter (to i) handled))

  -- One more element, which passes the filter or does not.
  more_kept :
      (i : ℕ) (ns : List Notification) (n : Notification) (es : List EventInfo)
      → es ≡ map event_info (filter (to i) ns)
      → to i n ≡ true
      → es ++ event_info n ∷ [] ≡ map event_info (filter (to i) (ns ++ n ∷ []))
  more_kept i ns n es h t =
      ap (λ l. l ++ event_info n ∷ []) h
      ∙ sym (map-append event_info (filter (to i) ns) (n ∷ []))
      ∙ ap (map event_info) (
          ap (λ l. filter (to i) ns ++ l) (sym (filter_kept (to i) n [] t))
          ∙ sym (filter-append (to i) ns (n ∷ [])))

  more_left_out :
      (i : ℕ) (ns : List Notification) (n : Notification)
      → to i n ≡ false
      → filter (to i) (ns ++ n ∷ []) ≡ filter (to i) ns
  more_left_out i ns n t =
      filter-append (to i) ns (n ∷ [])
      ∙ ap (λ l. filter (to i) ns ++ l) (filter_left_out (to i) n [] t)
      ∙ append-nil (filter (to i) ns)

  notify-IsWorker :
      (n : Notification) (w : ConcurrentWatcher ring sum64 gvk_string size) (i : ℕ)
      → IsWorker i (w.workers i) w.incoming w.handled
      → let v = notify ring sum64 gvk_string size n w in
        IsWorker i (v.workers i) v.incoming v.handled
  unfolding notify
  notify-IsWorker n w i (f, s, going, p, d) = elim (Bool-cases (to i n)) [
    | inl t ↦
        let (s', p', d') = push_open ring (event_info n) (w.workers i) s in
        rw t (
          push-IsFifo ring (event_info n) (w.workers i) f,
          s',
          push_returned ring (event_info n) (w.workers i) ∙ going,
          p' ∙ more_kept i w.incoming n (w.workers i).pushed p t,
          d' ∙ d,
        )
    | inr t ↦ rw t (f, s, going, p ∙ ap (map event_info) (sym (more_left_out i w.incoming n t)), d)
  ]

  nat_eq_refl : (i : ℕ) → nat_eq i i ≡ true
  nat_eq_refl i = ground arith

  nat_eq_sound : (i j : ℕ) → nat_eq i j ≡ true → i ≡ j
  nat_eq_sound i j h = ground arith

  not_to : (i j : ℕ) (n : Notification) → to j n ≡ true → nat_eq j i ≡ false → to i n ≡ false
  not_to i j n t d = ground arith

  worked :
      (j : ℕ) (q : BufferedQueue ring) (incoming handled : List Notification) (e : EventInfo)
      (n : Notification)
      → IsWorker j q incoming handled
      → q.event ≡ some e
      → e ≡ event_info n
      → to j n ≡ true
      → IsWorker j (deliver ring q) incoming (handled ++ n ∷ [])
  worked j q incoming handled e n (f, s, going, p, d) o m t =
      let (s', n', p', d') = deliver_next ring q e o going in
      (
        deliver-IsFifo ring q f,
        s' ∙ s,
        n',
        p' ∙ p,
        d' ∙ ap (λ y. q.delivered ++ y ∷ []) m ∙ more_kept j handled n q.delivered d t,
      )

  work-IsWorker :
      (j : ℕ) (w : ConcurrentWatcher ring sum64 gvk_string size)
      → ((i : ℕ) → IsWorker i (w.workers i) w.incoming w.handled)
      → (i : ℕ)
      → let v = work ring sum64 gvk_string size j w in IsWorker i (v.workers i) v.incoming v.handled
  unfolding work
  work-IsWorker j w all i = elim (Option-cases (w.workers j).event) [
    | inl n ↦ rw (n, work) (all i)
    | inr (e, o) ↦
        let (f, s, going, p, d) = all j in
        let offered : (w.workers j).pushed
            ≡ (w.workers j).delivered ++ e ∷ ring.contents (w.workers j).buf =
          subst
            (λ x.
              InOrder ring x (ring.contents (w.workers j).buf) (w.workers j).pushed
                (w.workers j).delivered)
            o f in
        let (n, m, t) =
          map-filter_member event_info (to j) w.incoming (w.workers j).delivered _ e
            (sym p ∙ offered) in
        let made : handle_event e ≡ some n = ap handle_event m ∙ handle_event-event_info n in
        rw (o, work)
          (rw made (elim (Bool-cases (nat_eq j i)) [
            | inl b ↦ rw b (
                subst
                  (λ x. IsWorker x (deliver ring (w.workers x)) w.incoming (w.handled ++ n ∷ []))
                  (nat_eq_sound j i b)
                  (worked j (w.workers j) w.incoming w.handled e n (all j) o m t))
            | inr b ↦
                let (f', s', n', p', d') = all i in
                rw b (
                  f',
                  s',
                  n',
                  p',
                  d' ∙ ap (map event_info) (sym (more_left_out i w.handled n (not_to i j n t b))),
                )
          ]))
  ]

  Reachable-IsWorker :
      (w : ConcurrentWatcher ring sum64 gvk_string size)
      → Reachable ring sum64 gvk_string size w
      → (i : ℕ) → IsWorker i (w.workers i) w.incoming w.handled
  unfolding new_concurrent_watcher
  Reachable-IsWorker w start i = new_queue ring
  Reachable-IsWorker w (then_step {v = v} before (notifies n)) i =
      notify-IsWorker n v i (Reachable-IsWorker v before i)
  Reachable-IsWorker w (then_step {v = v} before (works j lt)) i =
      work-IsWorker j v (Reachable-IsWorker v before) i

  -- Lists of events that agree up to some rest come from calls that do.
  map-event_info_prefix :
      (xs ys : List Notification) (es : List EventInfo)
      → map event_info xs ≡ map event_info ys ++ es
      → (zs : List Notification) × (xs ≡ ys ++ zs)
  map-event_info_prefix xs [] es h = (xs, refl)
  map-event_info_prefix [] (y ∷ ys) es h = cc
  map-event_info_prefix (x ∷ xs) (y ∷ ys) es h =
      let (a, b) = cons_parts h in
      let (zs, c) = map-event_info_prefix xs ys es b in
      let same : some x ≡ some y =
        sym (handle_event-event_info x) ∙ ap handle_event a ∙ handle_event-event_info y in
      (zs, cc (same, c))

  about_to : (k : String) (n : Notification) → about k n ≡ true → to (sum64 k % size) n ≡ true
  unfolding hash_mod
  about_to k n h =
      let same = (eq_iff (object_key ring sum64 gvk_string size (subject n)) k).0 h in
      ap (λ x. nat_eq (sum64 x % size) (sum64 k % size)) same ∙ nat_eq_refl (sum64 k % size)

  -- However the workers take turns, the calls for one object that the wrapped watcher got are the
  -- first ones of those that came in for it, in the same order: none is lost, doubled or overtaken.
  pub Reachable-InOrder :
      (w : ConcurrentWatcher ring sum64 gvk_string size) (k : String)
      → Reachable ring sum64 gvk_string size w
      → (waiting : List Notification) × (filter (about k) w.incoming
          ≡ filter (about k) w.handled ++ waiting)
  Reachable-InOrder w k r =
      let i = sum64 k % size in
      let (f, s, going, p, d) = Reachable-IsWorker w r i in
      let (es, split) = fifo_prefix ring (w.workers i) f in
      let (zs, c) =
        map-event_info_prefix (filter (to i) w.incoming) (filter (to i) w.handled) es
          (sym p ∙ split ∙ ap (λ l. l ++ es) d) in
      (
        filter (about k) zs,
        sym (filter-filter (about k) (to i) (about_to k) w.incoming)
            ∙ ap (filter (about k)) c
            ∙ filter-append (about k) (filter (to i) w.handled) zs
            ∙ ap (λ l. l ++ filter (about k) zs)
                (filter-filter (about k) (to i) (about_to k) w.handled),
      )
