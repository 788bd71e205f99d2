-- ===== src/Resource/Store/Guards.antt =====
-- Which calls the writing methods of a store make.
use text.Mathlib.TextEquality.{eq_iff}
use grafana_app_sdk.Base.{
  ◌∷◌, ◌≡◌, ◌≢◌, refl, none, some, ◌⊎◌, inl, inr, Bool-cases, Option-cases, arith,
}
use grafana_app_sdk.Resource.Object.{Object}
use grafana_app_sdk.Resource.Client.{Identifier, Kind, Failure, Call, Response, History, Io, Result}
use grafana_app_sdk.Resource.Store.{
  Store, Backend, lookup_kind, guard_error, identifier_of, with_client, guarded, call, add, update,
  upsert, upsert_with, update_call, refused,
}

-- The second history is the first with more calls, each of which satisfies `P`.
pub data Grows (P : Call → Type 0) (h : History) : History → Type 0 where
  stay : Grows P h h
  more : {g : History} {c : Call} {r : Response} → Grows P h g → P c → Grows P h ((c, r) ∷ g)

-- A get, create or update call of one object.
abbrev pub IsFor : Kind → Identifier → Call → Type 0
IsFor k i (Call.get l j) = (l ≡ k) × (j ≡ i)
IsFor k i (Call.create l j o) = (l ≡ k) × (j ≡ i)
IsFor k i (Call.update l j o opts) = (l ≡ k) × (j ≡ i)
IsFor k i _ = ⊥

abbrev pub IsNamed : Object → Type 0
IsNamed o = (o.kind ≢ "") × (o.namespace ≢ "") × (o.name ≢ "")

guard_error-IsNamed : (o : Object) → guard_error o ≡ none → IsNamed o
unfolding guard_error
guard_error-IsNamed o h = ground (arith, eq_iff o.kind "", eq_iff o.namespace "", eq_iff o.name "")

module _ (backend : Backend) where
  -- Either an error and no call, or calls of the object's own client, which is there.
  abbrev pub IsGuarded : Store → Object → History → Result × History → Type 0
  IsGuarded s o h r =
      ((e : Failure) × (r ≡ (refused backend e, h)))
      ⊎ ((k : Kind) × (lookup_kind o.kind s.types ≡ some k)
          × (backend.client_error k ≡ none)
          × IsNamed o
          × Grows (IsFor k (identifier_of o)) h r.1)

  guarded-IsGuarded :
      (s : Store) (o : Object) (act : Kind → Io Result) (h : History)
      → ((k : Kind) → Grows (IsFor k (identifier_of o)) h (act k h).1)
      → IsGuarded s o h (guarded backend s o act h)
  unfolding guarded with_client
  guarded-IsGuarded s o act h g = elim (Option-cases (guard_error o)) [
    | inr (e, x) ↦ rw (x, guarded) (inl (e, refl))
    | inl x ↦
        rw (x, guarded)
          (elim (Option-cases (lookup_kind o.kind s.types)) [
            | inl n ↦ rw (n, with_client) (inl (_, refl))
            | inr (k, s') ↦
                rw (s', with_client)
                  (elim (Option-cases (backend.client_error k)) [
                    | inr (e, c) ↦ rw (c, with_client) (inl (e, refl))
                    | inl c ↦ rw (c, with_client) (inr (k, refl, c, guard_error-IsNamed o x, g k))
                  ])
          ])
  ]

  upsert_with-Grows :
      (o : Object) (k : Kind) (h : History)
      → Grows (IsFor k (identifier_of o)) h (upsert_with backend o k h).1
  unfolding upsert_with call
  upsert_with-Grows o k h =
      let i = identifier_of o in
      let got = call backend (Call.get k i) h in
      let one : Grows (IsFor k i) h got.1 = more stay (refl, refl) in
      elim (Option-cases got.0.1) [
        | inl n ↦
            rw (n, upsert_with)
              (elim (Option-cases got.0.0) [
                | inl m ↦ rw (m, upsert_with) (more one (refl, refl))
                | inr (x, s) ↦ rw (s, upsert_with) (more one (refl, refl))
              ])
        | inr (e, s) ↦
            rw (s, upsert_with)
              (elim (Bool-cases (backend.is_not_found e)) [
                | inr b ↦ rw b one
                | inl b ↦ rw b (elim (Option-cases got.0.0) [
                  | inl m ↦ rw (m, upsert_with) (more one (refl, refl))
                  | inr (x, t) ↦ rw (t, upsert_with) (more one (refl, refl))
                ])
              ])
      ]

  -- `Add`, `Update` and `Upsert` either return an error without any call, or the object has a kind,
  -- a namespace and a name, its kind is registered and has a client, and every call is a get, a
  -- create or an update of the object's own kind, namespace and name.
  pub upsert-IsGuarded :
      (s : Store) (o : Object) (h : History)
      → IsGuarded s o h (add backend s o h)
        × IsGuarded s o h (update backend s o h)
        × IsGuarded s o h (upsert backend s o h)
  unfolding add update upsert call
  upsert-IsGuarded s o h = (
    guarded-IsGuarded s o (λ k. call backend (Call.create k (identifier_of o) o)) h
        (λ k. more stay (refl, refl)),
    guarded-IsGuarded s o (λ k. call backend (update_call backend k o h)) h
        (λ k. more stay (refl, refl)),
    guarded-IsGuarded s o (upsert_with backend o) h (λ k. upsert_with-Grows o k h),
  )
