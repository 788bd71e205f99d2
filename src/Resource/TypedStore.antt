-- ===== src/Resource/TypedStore.antt =====
-- resource/typedstore.go: the store of one kind over one client. `is_type` tells whether an object
-- has the Go type of the store's objects. The change of an argument's update timestamp is seen in
-- the call that is made with it.
use grafana_app_sdk.Base.{
  ℕ, zero, suc, String, List, [], ◌∷◌, ◌++◌, Bool, true, false, Option, none, some, if◌then◌else◌,
  ◌==◌,
}
use grafana_app_sdk.Resource.Object.{Object}
use grafana_app_sdk.Resource.Client.{
  Identifier, Kind, ListOptions, UpdateOptions, Failure, message, Call, Response, History, Io,
  perform, Result,
}
use grafana_app_sdk.Resource.Store.{
  Backend, StoreListOptions, ListObject, Listed, listed, list_failed, identifier_of, no_options,
  refused, fails, call, stamped, list_pages, page_options, page,
}
pub mod Versions
mod Tests

pub record TypedStore : Type 0 where
  pub client : Kind
  pub is_type : Object → Bool

-- `ErrMissingResourceVersion`.
abbrev pub missing_resource_version : Failure
missing_resource_version = message "object is missing a ResourceVersion"

pub cast : TypedStore → Option Object → Result
cast t none = (none, some (message "unable to cast Object into provided type"))
cast t (some o) =
    if t.is_type o
    then (some o, none)
    else (none, some (message "unable to cast Object into provided type"))

module _ (backend : Backend) where
  open backend use {server, is_not_found}

  -- What the methods make of the answer of a call.
  abbrev pub answer : TypedStore → Result → Result
  answer t r = elim r.1 [ some e ↦ (none, some e) | none ↦ cast t r.0 ]

  pub typed_call : TypedStore → Call → Io Result
  unfolding call cast
  typed_call t c h = (answer t (call backend c h).0, (call backend c h).1)

  pub typed_get : TypedStore → Identifier → Io Result
  unfolding typed_call
  typed_get t i = typed_call t (Call.get t.client i)

  -- The tests at the start of `Add`.
  pub add_error : TypedStore → Object → Option Failure
  add_error t o =
      let unnamed : Option Failure =
        if o.name == "" then some (message "obj.GetName() must not be empty") else none in
      if t.client.cluster_scoped
      then (if o.namespace == ""
          then unnamed
          else some (message "obj.GetNamespace() must be empty for cluster-scoped objects"))
      else (if o.namespace == ""
          then some (message "obj.GetNamespace() must not be empty")
          else unnamed)

  pub typed_add : TypedStore → Object → Io Result
  unfolding add_error typed_call
  typed_add t o h = elim (add_error t o) [
    | some e ↦ fails e h
    | none ↦ typed_call t (Call.create t.client (identifier_of o) o) h
  ]

  pub typed_update : TypedStore → Identifier → Object → Io Result
  unfolding typed_call
  typed_update t i o h =
      if o.resource_version == ""
      then fails missing_resource_version h
      else typed_call t
          (Call.update t.client i (stamped backend o h)
            (record no_options { resource_version = o.resource_version }))
          h

  -- `Upsert` after its get call. The update has no options.
  pub upsert_found : TypedStore → Identifier → Object → Option Object → Option Failure → Io Result
  unfolding typed_call
  upsert_found t i o found e h =
      let put : Result × History = elim found [
        | some old ↦ typed_call t (Call.update t.client i (stamped backend o h) no_options) h
        | none ↦ typed_call t (Call.create t.client (identifier_of o) o) h
      ] in
      elim e [ some f ↦ if is_not_found f then put else fails f h | none ↦ put ]

  pub typed_upsert : TypedStore → Identifier → Object → Io Result
  unfolding upsert_found call
  typed_upsert t i o h =
      let got = call backend (Call.get t.client i) h in upsert_found t i o got.0.0 got.0.1 got.1

  pub typed_update_subresource : TypedStore → Identifier → String → Object → Io Result
  unfolding typed_call
  typed_update_subresource t i subresource o h =
      if o.resource_version == ""
      then fails missing_resource_version h
      else typed_call t
          (Call.update t.client i o (record no_options {
            resource_version = o.resource_version;
            subresource = subresource;
          }))
          h

  pub typed_delete : TypedStore → Identifier → Io (Option Failure)
  unfolding call
  typed_delete t i h =
      ((call backend (Call.delete t.client i) h).0.1, (call backend (Call.delete t.client i) h).1)

  pub typed_force_delete : TypedStore → Identifier → Io (Option Failure)
  unfolding typed_delete
  typed_force_delete t i h =
      let deleted = typed_delete t i h in
      (elim deleted.0 [ none ↦ none | some e ↦ if is_not_found e then none else some e ], deleted.1)

  pub typed_list_page : TypedStore → String → ListOptions → Io Listed
  typed_list_page t namespace o h =
      let c = Call.list t.client namespace o in
      let r = server h c in
      (elim r.error [ some e ↦ list_failed e | none ↦ listed (page backend r) ], (c, r) ∷ h)

  -- The loop of `List` over the pages, as many as the fuel says at most.
  pub typed_list : ℕ → TypedStore → StoreListOptions → Io Listed
  unfolding typed_list_page list_pages
  typed_list fuel t o h =
      let first = typed_list_page t o.namespace (page_options backend o "") h in
      elim first.0 [
        | listed p ↦ list_pages backend fuel t.client o p first.1
        | list_failed e ↦ (list_failed e, first.1)
        | grafana_app_sdk.Resource.Store.running ↦ first
      ]
