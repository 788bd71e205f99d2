-- ===== src/Resource/Store.antt =====
-- resource/store.go: the key-value store over clients. The change of an argument's update
-- timestamp is seen in the call that is made with it.
use grafana_app_sdk.Base.{
  ℕ, zero, suc, String, List, [], ◌∷◌, ◌++◌, Bool, true, false, not, ◌&&◌, Option, none, some,
  if◌then◌else◌, ◌==◌,
}
use grafana_app_sdk.Resource.Object.{Object}
use grafana_app_sdk.Resource.Client.{
  Identifier, Kind, ListOptions, UpdateOptions, Failure, message, formatted, Call, Response,
  History, Server, Io, perform, Result,
}
pub mod Guards
pub mod Upserts
pub mod Pages
mod Tests

-- `types`, a map from the name of a kind to the kind.
pub record Store : Type 0 where
  pub types : List (String × Kind)

pub record StoreListOptions : Type 0 where
  pub namespace : String
  pub per_page : ℕ
  pub filters : List String
  pub field_selectors : List String

pub record ListObject : Type 0 where
  pub items : List Object
  pub continue : String
  pub resource_version : String

-- What `List` comes to; `running` is an answer that is not there yet.
pub data Listed : Type 0 where
  listed : ListObject → Listed
  list_failed : Failure → Listed
  running : Listed

unfoldable pub lookup_kind : String → List (String × Kind) → Option Kind
lookup_kind name [] = none
lookup_kind name ((n, k) ∷ ts) = if n == name then some k else lookup_kind name ts

insert_kind : String → Kind → List (String × Kind) → List (String × Kind)
insert_kind name k [] = (name, k) ∷ []
insert_kind name k ((n, l) ∷ ts) =
    if n == name then (name, k) ∷ ts else (n, l) ∷ insert_kind name k ts

pub register : Store → Kind → Store
unfolding insert_kind
register s k = record s { types = insert_kind k.kind k s.types }

pub register_group : Store → List Kind → Store
unfolding register
register_group s [] = s
register_group s (k ∷ ks) = register_group (register s k) ks

register_groups : Store → List (List Kind) → Store
unfolding register_group
register_groups s [] = s
register_groups s (g ∷ gs) = register_groups (register_group s g) gs

pub new_store : List (List Kind) → Store
unfolding register_groups
new_store groups = register_groups (record { types = [] }) groups

abbrev pub identifier_of : Object → Identifier
identifier_of o = record { namespace = o.namespace; name = o.name }

-- The three tests at the start of `Add`, `Update` and `Upsert`.
pub guard_error : Object → Option Failure
guard_error o =
    if o.kind == ""
    then some (message "obj.GetStaticMetadata().Kind must not be empty")
    else (if o.namespace == ""
        then some (message "obj.GetNamespace() must not be empty")
        else (if o.name == "" then some (message "obj.GetName() must not be empty") else none))

abbrev pub no_options : UpdateOptions
no_options = record { resource_version = ""; subresource = ""; dry_run = false }

abbrev pub fails : Failure → Io Result
fails e h = ((none, some e), h)

-- What the methods call: the clients, the generator's error for a kind, the test of `apierrors`, and
-- `time.Now`.
pub record Backend : Type 0 where
  pub server : Server
  pub client_error : Kind → Option Failure
  pub is_not_found : Failure → Bool
  pub clock : History → ℕ

module _ (backend : Backend) where
  open backend use {server, client_error, is_not_found, clock}

  -- `getClient`, and what is done with the client.
  pub with_client : {A : Type 0} → Store → String → (Failure → A) → (Kind → Io A) → Io A
  with_client s kind failed act h = elim (lookup_kind kind s.types) [
    | none ↦ (failed (formatted "resource kind '%s' is not registered in store" kind), h)
    | some k ↦ elim (client_error k) [ some e ↦ (failed e, h) | none ↦ act k h ]
  ]

  abbrev pub refused : Failure → Result
  refused e = (none, some e)

  -- One call that answers with an object or an error.
  unfoldable pub call : Call → Io Result
  call c h = (((server h c).object, (server h c).error), (perform server c h).1)

  pub get : Store → String → Identifier → Io Result
  unfolding with_client call
  get s kind i = with_client s kind refused (λ k. call (Call.get k i))

  -- The tests, and then the client of the object's kind.
  guarded : Store → Object → (Kind → Io Result) → Io Result
  unfolding guard_error with_client
  guarded s o act h = elim (guard_error o) [
    | some e ↦ (refused e, h)
    | none ↦ with_client s o.kind refused act h
  ]

  pub add : Store → Object → Io Result
  unfolding guarded call
  add s o = guarded s o (λ k. call (Call.create k (identifier_of o) o))

  pub simple_add : Store → String → Identifier → Object → Io Result
  unfolding with_client call
  simple_add s kind i o = with_client s kind refused (λ k. call (Call.create k i o))

  abbrev pub stamped : Object → History → Object
  stamped o h = record o { update_timestamp = clock h }

  abbrev pub update_call : Kind → Object → History → Call
  update_call k o h =
      Call.update k (identifier_of o) (stamped o h)
        (record no_options { resource_version = o.resource_version })

  pub update : Store → Object → Io Result
  unfolding guarded call
  update s o h = guarded s o (λ k. call (update_call k o h)) h

  -- The part of `Upsert` that has a client.
  pub upsert_with : Object → Kind → Io Result
  unfolding call
  upsert_with o k h =
      let got = call (Call.get k (identifier_of o)) h in
      let put : Result × History = elim got.0.0 [
        | some found ↦ call (update_call k o got.1) got.1
        | none ↦ call (Call.create k (identifier_of o) o) got.1
      ] in
      elim got.0.1 [ some e ↦ if is_not_found e then put else (refused e, got.1) | none ↦ put ]

  pub upsert : Store → Object → Io Result
  unfolding guarded upsert_with
  upsert s o = guarded s o (upsert_with o)

  -- `marshal` is `json.Marshal` on the subresource; the object that is sent has nothing else.
  pub update_subresource :
      (ℕ → Object × Option Failure) → Store → String → Identifier → String → ℕ → Io Result
  unfolding with_client call
  update_subresource marshal s kind i subresource value = with_client s kind refused (λ k h.
      if subresource == ""
      then (refused (message "subresourceName cannot be empty"), h)
      else elim (marshal value).1 [
        | some e ↦ (refused e, h)
        | none ↦
            call
              (Call.update k i (marshal value).0 (record no_options { subresource = subresource }))
              h
      ])

  pub delete : Store → String → Identifier → Io (Option Failure)
  unfolding with_client call
  delete s kind i =
      with_client s kind (λ e. some e)
        (λ k h. ((call (Call.delete k i) h).0.1, (call (Call.delete k i) h).1))

  -- A 404 is no error.
  pub force_delete : Store → String → Identifier → Io (Option Failure)
  unfolding with_client call
  force_delete s kind i =
      with_client s kind (λ e. some e)
        (λ k h.
          let deleted = call (Call.delete k i) h in
          (
            elim deleted.0.1 [ none ↦ none | some e ↦ if is_not_found e then none else some e ],
            deleted.1,
          ))

  abbrev pub page_options : StoreListOptions → String → ListOptions
  page_options o continue = record {
    continue = continue;
    limit = o.per_page;
    label_filters = o.filters;
    field_selectors = o.field_selectors;
  }

  abbrev pub page : Response → ListObject
  page r = record { items = r.items; continue = r.continue; resource_version = r.resource_version }

  -- The loop of `List` over the pages, as many as the fuel says at most.
  unfoldable pub list_pages : ℕ → Kind → StoreListOptions → ListObject → Io Listed
  list_pages zero k o resp h = (running, h)
  list_pages (suc fuel) k o resp h =
      let c = Call.list k o.namespace (page_options o resp.continue) in
      let r = server h c in
      let rest =
        list_pages fuel k o
          (record {
            items = resp.items ++ r.items;
            continue = r.continue;
            resource_version = r.resource_version;
          })
          ((c, r) ∷ h) in
      if resp.continue == ""
      then (listed resp, h)
      else elim r.error [ some e ↦ (list_failed e, (c, r) ∷ h) | none ↦ rest ]

  pub list : ℕ → Store → String → StoreListOptions → Io Listed
  unfolding with_client list_pages
  list fuel s kind o = with_client s kind list_failed (λ k h.
      let c = Call.list k o.namespace (page_options o "") in
      let r = server h c in
      elim r.error [
        | some e ↦ (list_failed e, (c, r) ∷ h)
        | none ↦ list_pages fuel k o (page r) ((c, r) ∷ h)
      ])

  pub list_page : Store → String → String → ListOptions → Io Listed
  unfolding with_client
  list_page s kind namespace o = with_client s kind list_failed (λ k h.
      let c = Call.list k namespace o in
      let r = server h c in
      (elim r.error [ some e ↦ list_failed e | none ↦ listed (page r) ], (c, r) ∷ h))
