-- ===== src/Resource/SimpleStore.antt =====
-- resource/simplestore.go: the store of the specs of one kind over one client. `is_spec` tells
-- whether the spec of an object has the Go type of the store; an object that the client returns is
-- passed on with all its metadata. The spec is the number in `content`.
use grafana_app_sdk.Base.{
  ℕ, String, List, [], ◌∷◌, Bool, true, false, Option, none, some, if◌then◌else◌, ◌==◌,
}
use grafana_app_sdk.Resource.Object.{Object}
use grafana_app_sdk.Resource.Client.{
  Identifier, Kind, ListOptions, UpdateOptions, Failure, message, Call, Response, History, Io,
  Result,
}
use grafana_app_sdk.Resource.Store.{Backend, no_options, call, fails}
pub mod Updates
mod Tests

pub record SimpleStore : Type 0 where
  pub client : Kind
  pub is_spec : Object → Bool

-- A change of an object's metadata.
abbrev pub ObjectMetadataOption : Type 0
ObjectMetadataOption = Object → Object

pub with_resource_version : String → ObjectMetadataOption
with_resource_version v o = record o { resource_version = v }

-- The options are applied one after the other.
pub apply_options : List ObjectMetadataOption → Object → Object
apply_options [] o = o
apply_options (f ∷ fs) o = apply_options fs (f o)

abbrev pub empty_object : ℕ → Object
empty_object spec = record {
  group = "";
  version = "";
  kind = "";
  namespace = "";
  name = "";
  resource_version = "";
  generation = 0;
  deletion_timestamp = none;
  update_timestamp = 0;
  finalizers = [];
  content = spec;
}

abbrev pub not_cast : Failure
not_cast = message "returned object could not be cast to store's type"

pub simple_cast : SimpleStore → Option Object → Result
simple_cast t none = (none, some not_cast)
simple_cast t (some o) = if t.is_spec o then (some o, none) else (none, some not_cast)

-- All objects of a list, or the error of the first that cannot be cast.
pub simple_cast_all : SimpleStore → List Object → Option (List Object)
simple_cast_all t [] = some []
simple_cast_all t (o ∷ os) =
    let rest = simple_cast_all t os in
    if t.is_spec o then elim rest [ none ↦ none | some cs ↦ some (o ∷ cs) ] else none

module _ (backend : Backend) where
  open backend use {server, clock}

  -- What the methods make of the answer of a call.
  abbrev pub simple_answer : SimpleStore → Option Object → Option Failure → Result
  simple_answer t o e = elim e [ some f ↦ (none, some f) | none ↦ simple_cast t o ]

  pub simple_call : SimpleStore → Call → Io Result
  unfolding call simple_cast
  simple_call t c h = let done = call backend c h in (simple_answer t done.0.0 done.0.1, done.1)

  pub list_with_filters_and_selectors :
      SimpleStore → String → List String → List String → Io (Option (List Object) × Option Failure)
  unfolding simple_cast_all
  list_with_filters_and_selectors t namespace filters selectors h =
      let c = Call.list t.client namespace (record {
        continue = "";
        limit = 0;
        label_filters = filters;
        field_selectors = selectors;
      }) in
      let r = server h c in
      (
        elim r.error [
          | some e ↦ (none, some e)
          | none ↦ elim (simple_cast_all t r.items) [
            | none ↦ (none, some not_cast)
            | some os ↦ (some os, none)
          ]
        ],
        (c, r) ∷ h,
      )

  pub simple_list : SimpleStore → String → Io (Option (List Object) × Option Failure)
  unfolding list_with_filters_and_selectors
  simple_list t namespace = list_with_filters_and_selectors t namespace [] []

  pub simple_get : SimpleStore → Identifier → Io Result
  unfolding simple_call
  simple_get t i = simple_call t (Call.get t.client i)

  pub simple_create : SimpleStore → Identifier → ℕ → List ObjectMetadataOption → Io Result
  unfolding simple_call apply_options
  simple_create t i spec opts =
      simple_call t (Call.create t.client i (apply_options opts (empty_object spec)))

  -- The object that `Update` sends: the new spec with the metadata of the current object, changed by
  -- the options.
  pub new_object : Object → ℕ → List ObjectMetadataOption → Object
  unfolding apply_options
  new_object current spec opts = apply_options opts (record current { content = spec })

  abbrev pub update_with : SimpleStore → Identifier → Object → History → Call
  update_with t i o h =
      Call.update t.client i (record o { update_timestamp = clock h })
        (record no_options { resource_version = o.resource_version })

  -- `Update` after its get call.
  pub update_current : SimpleStore → Identifier → ℕ → List ObjectMetadataOption → Result → Io Result
  unfolding simple_call new_object
  update_current t i spec opts got h = elim got.1 [
    | some e ↦ fails e h
    | none ↦ elim got.0 [
      | none ↦ fails not_cast h
      | some current ↦ simple_call t (update_with t i (new_object current spec opts) h) h
    ]
  ]

  pub simple_update : SimpleStore → Identifier → ℕ → List ObjectMetadataOption → Io Result
  unfolding simple_get update_current
  simple_update t i spec opts h =
      let got = simple_get t i h in update_current t i spec opts got.0 got.1

  pub simple_update_subresource : SimpleStore → Identifier → String → ℕ → Io Result
  unfolding simple_call
  simple_update_subresource t i subresource value h =
      if subresource == ""
      then fails (message "subresource may not be empty") h
      else simple_call t
          (Call.update t.client i (empty_object value)
            (record no_options { subresource = subresource }))
          h

  pub simple_delete : SimpleStore → Identifier → Io (Option Failure)
  unfolding call
  simple_delete t i h =
      ((call backend (Call.delete t.client i) h).0.1, (call backend (Call.delete t.client i) h).1)
