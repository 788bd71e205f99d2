-- ===== src/Resource/TypedStore/Versions.antt =====
-- The conditions under which the typed store writes, and the versions with which it does.
use text.Mathlib.TextEquality.{eq_iff}
use grafana_app_sdk.Base.{
  ◌∷◌, ◌≡◌, ◌≢◌, ◌↔◌, refl, ap, ◌∙◌, Bool, true, none, some, ◌⊎◌, inl, inr, ◌==◌, Option-cases,
  ne_of_==, ==_cases, arith,
}
use grafana_app_sdk.Resource.Object.{Object}
use grafana_app_sdk.Resource.Client.{Identifier, Failure, Call, History, IsClient, written}
use grafana_app_sdk.Resource.Store.{Backend, identifier_of, no_options, stamped, call}
use grafana_app_sdk.Resource.TypedStore.{
  TypedStore, add_error, upsert_found, typed_add, typed_update, typed_upsert, typed_call,
  missing_resource_version,
}

module _ (backend : Backend) (t : TypedStore) where
  open backend use {server}

  abbrev pub one_call : Call → History → History
  one_call c h = (c, server h c) ∷ h

  -- An object that `Add` takes: it has a name, and a namespace exactly if the kind has namespaces.
  abbrev pub IsScoped : Object → Type 0
  IsScoped o = (o.name ≢ "") × ((t.client.cluster_scoped ≡ true) ↔ (o.namespace ≡ ""))

  add_error-IsScoped : (o : Object) → add_error backend t o ≡ none → IsScoped o
  unfolding add_error
  add_error-IsScoped o h = ground (arith, eq_iff o.name "", eq_iff o.namespace "")

  IsScoped-add_error : (o : Object) → IsScoped o → add_error backend t o ≡ none
  unfolding add_error
  IsScoped-add_error o s = ground (arith, eq_iff o.name "", eq_iff o.namespace "")

  -- `Add` creates the object under its own key in one call if the object is scoped as its kind is
  -- and has a name, and else makes no call and returns an error. `Update` makes one update call on
  -- the condition of the object's version, and without a version it makes no call and returns
  -- `ErrMissingResourceVersion`.
  pub typed_add-IsScoped :
      (o : Object) (i : Identifier) (h : History)
      → ((IsScoped o
            × ((typed_add backend t o h).1 ≡ one_call (Call.create t.client (identifier_of o) o) h))
          ⊎ ((¬ IsScoped o)
              × ((typed_add backend t o h).1 ≡ h)
              × ((typed_add backend t o h).0.1 ≢ none)))
        × (((o.resource_version ≢ "")
              × ((typed_update backend t i o h).1
                  ≡ one_call
                      (Call.update t.client i
                        (stamped backend o h)
                        (record no_options { resource_version = o.resource_version }))
                      h))
            ⊎ ((o.resource_version ≡ "")
                × (typed_update backend t i o h ≡ ((none, some missing_resource_version), h))))
  unfolding typed_add typed_update typed_call call
  typed_add-IsScoped o i h = (
    elim (Option-cases (add_error backend t o)) [
      | inl a ↦ inl (add_error-IsScoped o a, rw (a, typed_add) refl)
      | inr (e, a) ↦
          inr (
            λ s. cc (IsScoped-add_error o s, a),
            rw (a, typed_add) refl,
            rw (a, typed_add) (λ x. cc),
          )
    ],
    elim (==_cases o.resource_version "") [
      | inl v ↦ inr (v, rw (ap (λ x. x == "") v) refl)
      | inr v ↦ inl (ne_of_== o.resource_version "" v, rw v refl)
    ],
  )

  -- `Upsert` of an object that is there, whatever version the given object and the stored one have:
  -- the second and last call is an update call with no version as its condition, and if that
  -- answers without an error the object that it answers has replaced the stored one.
  pub typed_upsert_unconditional :
      (is_conflict : Failure → Bool) (client : IsClient server backend.is_not_found is_conflict)
      (o : Object) (i : Identifier) (h : History)
      → (server h (Call.get t.client i)).error ≡ none
      → let g = one_call (Call.get t.client i) h in
        let c = Call.update t.client i (stamped backend o g) no_options in
        (server g c).error ≡ none
        → ((typed_upsert backend t i o h).1 ≡ one_call c g)
          × (client.stored (typed_upsert backend t i o h).1 t.client i ≡ (server g c).object)
  unfolding typed_upsert upsert_found typed_call call
  typed_upsert_unconditional is_conflict client o i h ok e =
      let (x, s, there) = client.get_ok h t.client i ok in
      let g = one_call (Call.get t.client i) h in
      let c = Call.update t.client i (stamped backend o g) no_options in
      let to : typed_upsert backend t i o h ≡ typed_call backend t c g =
        ap (λ e. upsert_found backend t i o (server h (Call.get t.client i)).object e g) ok
        ∙ ap (λ y. upsert_found backend t i o y none g) s in
      (
        ap (λ r. r.1) to,
        ap (λ r. client.stored r.1 t.client i) to
            ∙ client.after_update g t.client i _ _ refl
            ∙ ap (λ f. written f (server g c).object (client.stored g t.client i)) e,
      )
