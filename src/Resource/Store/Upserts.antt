-- ===== src/Resource/Store/Upserts.antt =====
-- What the writing methods of a store do to the stored objects.
use grafana_app_sdk.Base.{
  ◌≡◌, ◌≢◌, refl, false, ap, ◌∙◌, Bool, Option, none, some, inl, inr, Bool-cases, Option-cases,
}
use grafana_app_sdk.Resource.Object.{Object}
use grafana_app_sdk.Resource.Client.{
  Identifier, Kind, Failure, Call, History, Io, Result, written, Keeps, IsClient,
}
use grafana_app_sdk.Resource.Store.{
  Store, Backend, lookup_kind, guard_error, identifier_of, with_client, guarded, call, add, update,
  upsert, upsert_with, update_call,
}

module _ (backend : Backend) (is_conflict : Failure → Bool)
    (client : IsClient backend.server backend.is_not_found is_conflict) where
  open backend use {server, is_not_found}
  open client use {
    stored, related, after_get, after_create, after_update, create_apart, update_apart, get_ok,
    get_failed, get_missing, update_mismatch,
  }

  -- A write of one object: with an error nothing changes, and without one the object that is
  -- returned stands under the key, and every object apart is as before.
  abbrev pub Writes : Kind → Identifier → History → Result × History → Type 0
  Writes k i h r =
      (stored r.1 k i ≡ written r.0.1 r.0.0 (stored h k i))
      × ((l : Kind) (j : Identifier) → related k i l j ≡ false → stored r.1 l j ≡ stored h l j)

  unwritten :
      (k : Kind) (i : Identifier) (h h' : History) (e : Failure) (o : Option Object)
      → Keeps stored h h'
      → Writes k i h ((o, some e), h')
  unwritten k i h h' e o same = (same k i, λ l j b. same l j)

  call-Keeps :
      (k : Kind) (i : Identifier) (h : History) → Keeps stored h (call backend (Call.get k i) h).1
  unfolding call
  call-Keeps k i h = after_get h k i

  create-Writes :
      (k : Kind) (i : Identifier) (o : Object) (h : History)
      → Writes k i h (call backend (Call.create k i o) h)
  unfolding call
  create-Writes k i o h = (after_create h k i o, create_apart h k i o)

  update-Writes :
      (k : Kind) (o : Object) (h h' : History)
      → Writes k (identifier_of o) h' (call backend (update_call backend k o h) h')
  unfolding call
  update-Writes k o h h' =
      (after_update h' k (identifier_of o) _ _ refl, update_apart h' k (identifier_of o) _ _)

  -- A write after a call that changed nothing.
  from_same :
      (k : Kind) (i : Identifier) (h h' : History) (r : Result × History)
      → Keeps stored h h'
      → Writes k i h' r
      → Writes k i h r
  from_same k i h h' r same w =
      (w.0 ∙ ap (written r.0.1 r.0.0) (same k i), λ l j b. w.1 l j b ∙ same l j)

  upsert_with-Writes :
      (k : Kind) (o : Object) (h : History)
      → Writes k (identifier_of o) h (upsert_with backend o k h)
  unfolding upsert_with call
  upsert_with-Writes k o h =
      let i = identifier_of o in
      let got = call backend (Call.get k i) h in
      let updated =
        from_same k i h got.1 (call backend (update_call backend k o got.1) got.1)
          (call-Keeps k i h) (update-Writes k o got.1 got.1) in
      let created =
        from_same k i h got.1 (call backend (Call.create k i o) got.1) (call-Keeps k i h)
          (create-Writes k i o got.1) in
      elim (Option-cases got.0.1) [
        | inl n ↦
            rw (n, upsert_with)
              (elim (Option-cases got.0.0) [
                | inl m ↦ rw (m, upsert_with) created
                | inr (x, s) ↦ rw (s, upsert_with) updated
              ])
        | inr (e, s) ↦
            rw (s, upsert_with)
              (elim (Bool-cases (is_not_found e)) [
                | inr b ↦ rw b (unwritten k i h got.1 e none (call-Keeps k i h))
                | inl b ↦ rw b (elim (Option-cases got.0.0) [
                  | inl m ↦ rw (m, upsert_with) created
                  | inr (x, t) ↦ rw (t, upsert_with) updated
                ])
              ])
      ]

  -- The tests and the client's error come before any call.
  guarded-Writes :
      (s : Store) (o : Object) (k : Kind) (act : Kind → Io Result) (h : History)
      → lookup_kind o.kind s.types ≡ some k
      → Writes k (identifier_of o) h (act k h)
      → Writes k (identifier_of o) h (guarded backend s o act h)
  unfolding guarded with_client
  guarded-Writes s o k act h known w = elim (Option-cases (guard_error o)) [
    | inr (e, g) ↦ rw (g, guarded) (unwritten k (identifier_of o) h h e none (λ l j. refl))
    | inl g ↦
        rw (g, guarded)
          (rw (known, with_client)
            (elim (Option-cases (backend.client_error k)) [
              | inr (e, c) ↦
                  rw (c, with_client) (unwritten k (identifier_of o) h h e none (λ l j. refl))
              | inl c ↦ rw (c, with_client) w
            ]))
  ]

  -- `Add`, `Update` and `Upsert` of an object of a registered kind, with every error that can
  -- happen on the way: if an error is returned no stored object has changed, and if none is, what
  -- is returned is stored under the object's kind, namespace and name and no object whose key is not
  -- related to that one has changed.
  pub upsert-Writes :
      (s : Store) (o : Object) (k : Kind) (h : History)
      → lookup_kind o.kind s.types ≡ some k
      → Writes k (identifier_of o) h (add backend s o h)
        × Writes k (identifier_of o) h (update backend s o h)
        × Writes k (identifier_of o) h (upsert backend s o h)
  unfolding add update upsert
  upsert-Writes s o k h known = (
    guarded-Writes s o k (λ l. call backend (Call.create l (identifier_of o) o)) h known
        (create-Writes k (identifier_of o) o h),
    guarded-Writes s o k (λ l. call backend (update_call backend l o h)) h known
        (update-Writes k o h h),
    guarded-Writes s o k (upsert_with backend o) h known (upsert_with-Writes k o h),
  )

  -- The object was stored with another version than the one that is given.
  abbrev pub IsStale : Kind → Object → Object → Type 0
  IsStale k o old = (o.resource_version ≢ "") × (o.resource_version ≢ old.resource_version)

  stale_with :
      (k : Kind) (o old : Object) (h : History)
      → IsStale k o old
      → stored h k (identifier_of o) ≡ some old
      → (upsert_with backend o k h).0.1 ≢ none
  unfolding upsert_with call
  stale_with k o old h stale there =
      let i = identifier_of o in
      let got = call backend (Call.get k i) h in
      elim (Option-cases got.0.1) [
        | inl n ↦
            let (x, s, t) = get_ok h k i n in
            rw (n, upsert_with)
              (rw (s, upsert_with)
                (update_mismatch got.1 k i _ old _ (call-Keeps k i h k i ∙ there) (stale.0)
                  (stale.1)))
        | inr (e, s) ↦
            rw (s, upsert_with)
              (elim (Bool-cases (is_not_found e)) [
                | inr b ↦ rw b (λ x. cc)
                | inl b ↦ cc (there, get_missing h k i e s b)
              ])
      ]

  guarded_fails :
      (s : Store) (o : Object) (k : Kind) (act : Kind → Io Result) (h : History)
      → lookup_kind o.kind s.types ≡ some k
      → (act k h).0.1 ≢ none
      → (guarded backend s o act h).0.1 ≢ none
  unfolding guarded with_client
  guarded_fails s o k act h known w = elim (Option-cases (guard_error o)) [
    | inr (e, g) ↦ rw (g, guarded) (λ x. cc)
    | inl g ↦
        rw (g, guarded)
          (rw (known, with_client)
            (elim (Option-cases (backend.client_error k)) [
              | inr (e, c) ↦ rw (c, with_client) (λ x. cc)
              | inl c ↦ rw (c, with_client) w
            ]))
  ]

  update_fails :
      (s : Store) (o old : Object) (k : Kind) (h : History)
      → lookup_kind o.kind s.types ≡ some k
      → IsStale k o old
      → stored h k (identifier_of o) ≡ some old
      → (update backend s o h).0.1 ≢ none
  unfolding update call
  update_fails s o old k h known stale there =
      guarded_fails s o k (λ l. call backend (update_call backend l o h)) h known
        (update_mismatch h k (identifier_of o) _ old _ there (stale.0) (stale.1))

  upsert_fails :
      (s : Store) (o old : Object) (k : Kind) (h : History)
      → lookup_kind o.kind s.types ≡ some k
      → IsStale k o old
      → stored h k (identifier_of o) ≡ some old
      → (upsert backend s o h).0.1 ≢ none
  unfolding upsert
  upsert_fails s o old k h known stale there =
      guarded_fails s o k (upsert_with backend o) h known (stale_with k o old h stale there)

  failed_keeps :
      (k : Kind) (i : Identifier) (h : History) (old : Object) (r : Result × History)
      → Writes k i h r
      → r.0.1 ≢ none
      → stored h k i ≡ some old
      → stored r.1 k i ≡ some old
  failed_keeps k i h old r w f there = elim (Option-cases r.0.1) [
    | inl n ↦ absurd (f n)
    | inr (e, s) ↦ w.0 ∙ ap (λ x. written x r.0.0 (stored h k i)) s ∙ there
  ]

  -- No update is lost: where an object is stored with another version than the one that the given
  -- object names, `Update` and `Upsert` of the store fail, and leave the stored object as it is.
  pub upsert_keeps_newer :
      (s : Store) (o old : Object) (k : Kind) (h : History)
      → lookup_kind o.kind s.types ≡ some k
      → IsStale k o old
      → stored h k (identifier_of o) ≡ some old
      → ((update backend s o h).0.1 ≢ none)
        × ((upsert backend s o h).0.1 ≢ none)
        × (stored (update backend s o h).1 k (identifier_of o) ≡ some old)
        × (stored (upsert backend s o h).1 k (identifier_of o) ≡ some old)
  upsert_keeps_newer s o old k h known stale there =
      let u = update_fails s o old k h known stale there in
      let v = upsert_fails s o old k h known stale there in
      let w = upsert-Writes s o k h known in
      (
        u,
        v,
        failed_keeps k (identifier_of o) h old (update backend s o h) (w.1) u there,
        failed_keeps k (identifier_of o) h old (upsert backend s o h) (w.2) v there,
      )
