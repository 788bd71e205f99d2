-- ===== src/Resource/Updater.antt =====
-- resource/updater.go: `UpdateObject`, a read, a change and a write, again after a conflict.
use grafana_app_sdk.Base.{
  ℕ, zero, suc, String, List, [], ◌∷◌, Bool, true, false, Option, none, some, if◌then◌else◌, ◌==◌,
}
use grafana_app_sdk.Resource.Object.{Object}
use grafana_app_sdk.Resource.Client.{
  Identifier, Kind, UpdateOptions, Failure, message, Call, Response, History, Server, Io, perform,
  Result,
}
use grafana_app_sdk.Resource.Store.{fails}
use grafana_app_sdk.Resource.TypedStore.{missing_resource_version}
pub mod Writes
mod Tests

-- What `updateFunc` returns: an object or an error.
pub data Changed : Type 0 where
  changed : Object → Changed
  change_failed : Failure → Changed

-- What is in an object's memory after a call that writes it; an answer without an object leaves it.
abbrev pub into : Response → Object → Object
into r o = elim r.object [ some x ↦ x | none ↦ o ]

-- The same where there may be no object: `none` is the object `empty`, which is nil for an interface
-- or a pointer type.
abbrev pub read_into : Response → Option Object → Option Object
read_into r o = elim r.object [ some x ↦ some x | none ↦ o ]

-- `get_into_empty` is what the client's `GetInto` answers when it is given `empty`. An `updateFunc`
-- that returns no error returns an object.
module _ (server : Server) (get_into_empty : History → Response) (is_conflict : Failure → Bool)
    (is_type : Object → Bool) (k : Kind) (i : Identifier)
    (update_func : Option Object → Bool → Changed) (opts : UpdateOptions) where
  -- The options of the update call.
  abbrev pub versioned : Object → UpdateOptions
  versioned o = record opts { resource_version = o.resource_version }

  -- `doUpdate`, with the object that it returns and the error: `empty` if no update call is made.
  pub do_update : Option Object → Bool → Io (Option Object × Option Failure)
  do_update o is_retry h = elim (update_func o is_retry) [
    | change_failed e ↦ ((none, some e), h)
    | changed x ↦ if x.resource_version == "" then ((none, some missing_resource_version), h) else (
      (
        some (into (server h (Call.update k i x (versioned x))) x),
        (server h (Call.update k i x (versioned x))).error,
      ),
      (perform server (Call.update k i x (versioned x)) h).1,
    )
  ]

  -- `GetInto`.
  pub get_into : Option Object → History → Response
  get_into none h = get_into_empty h
  get_into (some o) h = server h (Call.get k i)

  -- The loop, with the number of retries that are left.
  pub retry_update : ℕ → (Option Object × Option Failure) × History → Result × History
  unfolding do_update get_into
  retry_update zero u = (elim u.0.1 [ none ↦ (u.0.0, none) | some e ↦ (none, some e) ], u.1)
  retry_update (suc left) u =
      let got = get_into u.0.0 u.1 in
      let read = (Call.get k i, got) ∷ u.1 in
      let again = retry_update left (do_update (read_into got u.0.0) true read) in
      elim u.0.1 [
        | none ↦ ((u.0.0, none), u.1)
        | some e ↦
            if is_conflict e
            then elim got.error [ some f ↦ fails f read | none ↦ again ]
            else fails e u.1
      ]

  pub update_object : Io Result
  unfolding do_update retry_update
  update_object h =
      let got = perform server (Call.get k i) h in
      elim got.0.error [
        | some e ↦ fails e got.1
        | none ↦ elim got.0.object [
          | none ↦ fails (message "unable to cast Object into provided type") got.1
          | some o ↦
              if is_type o
              then retry_update 2 (do_update (some o) false got.1)
              else fails (message "unable to cast Object into provided type") got.1
        ]
      ]
