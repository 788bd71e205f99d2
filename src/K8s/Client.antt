-- ===== src/K8s/Client.antt =====
-- k8s/client.go and k8s/gvclient.go: the client of an API server. The server, the codecs and
-- `encoding/json` are parameters; bodies are texts. Labels, logs, traces and metrics are left out,
-- but for the version label, which changes the opaque part of an object.
use grafana_app_sdk.Base.{
  ℕ, String, List, [], ◌∷◌, ◌++◌, ◌⊎◌, inl, inr, Bool, true, false, not, ◌&&◌, ◌||◌, Option, none,
  some, if◌then◌else◌, ◌==◌, nat_eq, leb,
}
use grafana_app_sdk.Resource.Object.{Object}
use grafana_app_sdk.Resource.Client.{
  Identifier, Kind, ListOptions, UpdateOptions, Status, Failure, message, formatted, Call, Response,
  History, Server, Result,
}
use grafana_app_sdk.K8s.Errors.{parse_kubernetes_error}
mod Paths
pub mod Requests
pub mod Refines
pub mod Conditions
pub use Paths.{ResourcePath, path, collection, is_blank, same_resource_refl}
unfoldable pub use Paths.{in_url, same_resource}
mod Samples
mod Tests

-- The preconditions and the propagation policy of a deletion, absent where the options have "".
pub record DeleteBody : Type 0 where
  pub resource_version : Option String
  pub uid : Option String
  pub propagation_policy : Option String

pub record DeleteOptions : Type 0 where
  pub resource_version : String
  pub uid : String
  pub propagation_policy : String

-- The Boolean of a post or a put tells whether the parameter "dryRun=All" is set, and the first text
-- of a put is its subresource.
pub data Request : Type 0 where
  get : ResourcePath → Request
  post : ResourcePath → Bool → String → Request
  put : ResourcePath → String → Bool → String → Request
  delete : ResourcePath → Option DeleteBody → Request
  list : ResourcePath → List (String × String) → Request

-- The status code, the body and the error of `request.Do(ctx).StatusCode(&sc).Raw()`.
pub record Reply : Type 0 where
  pub code : ℕ
  pub raw : String
  pub error : Option Failure

abbrev pub Requests : Type 0
Requests = List (Request × Reply)

-- The answer to a request, which may depend on all requests before it.
abbrev pub Api : Type 0
Api = Requests → Request → Reply

abbrev pub HttpIo : Type 0 → Type 0
HttpIo A = Requests → A × Requests

-- A list before its items are read.
pub record RawList : Type 0 where
  pub items : List String
  pub continue : String
  pub resource_version : String

-- The codec of each kind, the group's path segment of each kind, the version label, `strings.Join`
-- with commas, `strconv.Itoa`, and what `json.Unmarshal` reads: a status, the resource version of a
-- `metadataObject`, and a list.
pub record Codecs : Type 0 where
  pub plural : Kind → String
  pub read : Kind → String → Failure ⊎ Object
  pub write : Kind → Object → Failure ⊎ String
  pub label : String → ℕ → ℕ
  pub join : List String → String
  pub itoa : ℕ → String
  pub read_status : String → Option Status
  pub read_version : String → Failure ⊎ String
  pub read_list : String → Failure ⊎ RawList

abbrev pub given : String → Option String
given t = if t == "" then none else some t

abbrev set_param : Bool → String → String → List (String × String)
set_param b name value = if b then (name, value) ∷ [] else []

pub is_empty : {A : Type 0} → List A → Bool
is_empty [] = true
is_empty (x ∷ xs) = false

abbrev pub answer : Result → Response
answer (o, e) = record { object = o; error = e; items = []; continue = ""; resource_version = "" }

abbrev list_failed : Failure → Response
list_failed e = answer (none, some e)

-- `CreateInto`: the schema's scope and the namespace.
unfoldable pub scope_error : Kind → Identifier → Option Failure
scope_error k i =
    if not k.cluster_scoped && i.namespace == ""
    then some
        (message "cannot create a resource with schema scope \"Namespaced\" in NamespaceAll (\"\")")
    else (if k.cluster_scoped && not (i.namespace == "")
        then some (
            formatted
              "cannot create a resource with schema scope \"Cluster\" in namespace \"%s\", must be NamespaceAll (\"\")"
              i.namespace)
        else none)

-- `SetStaticMetadata` in `CreateInto` and `UpdateInto`.
unfoldable pub set_static_metadata : Kind → Identifier → Object → Object
set_static_metadata k i o = record o {
  namespace = i.namespace;
  name = i.name;
  group = k.group;
  version = k.version;
  kind = k.kind;
}

-- The body of a deletion, absent where every option is.
pub delete_body : DeleteOptions → Option DeleteBody
delete_body opts =
    if opts.resource_version == "" && (opts.uid == "" && opts.propagation_policy == "")
    then none
    else some (record {
      resource_version = given opts.resource_version;
      uid = given opts.uid;
      propagation_policy = given opts.propagation_policy;
    })

module _ (codecs : Codecs) (api : Api) where
  open codecs use {plural, read, write, label, join, itoa, read_status, read_version, read_list}

  unfoldable pub send : Request → HttpIo Reply
  send q x = (api x q, (q, api x q) ∷ x)

  -- The error of a reply, parsed, or what `then` makes of its body.
  unfoldable pub reply_result : {A : Type 0} → Reply → (Failure → A) → (String → A) → A
  reply_result r refused accepted = elim r.error [
    | some e ↦ refused (parse_kubernetes_error read_status r.raw r.code e)
    | none ↦ accepted r.raw
  ]

  -- What is read into `into`.
  unfoldable pub read_into : Failure ⊎ Object → Result
  read_into (inl e) = (none, some e)
  read_into (inr o) = (some o, none)

  unfoldable pub object_result : Kind → Reply → Result
  unfolding reply_result read_into
  object_result k r = reply_result r (λ e. (none, some e)) (λ raw. read_into (read k raw))

  -- `groupVersionClient.get`, and with it `Get` and `GetInto`.
  unfoldable pub gv_get : Kind → Identifier → HttpIo Result
  unfolding send object_result
  gv_get k i x =
      let q = Request.get (path plural k i) in (object_result k (send q x).0, (send q x).1)

  unfoldable pub get_metadata : Kind → Identifier → HttpIo (Failure ⊎ String)
  unfolding send reply_result
  get_metadata k i x =
      let q = Request.get (path plural k i) in
      (reply_result (send q x).0 inl read_version, (send q x).1)

  -- The object with the version label, as it is written.
  abbrev pub marshal : Kind → Object → Failure ⊎ String
  marshal k o = write k (record o { content = label k.version o.content })

  -- A request with a body, which is not made where the object cannot be written.
  unfoldable pub send_body : Kind → Failure ⊎ String → (String → Request) → HttpIo Result
  unfolding send object_result
  send_body k (inl e) request x = ((none, some e), x)
  send_body k (inr b) request x = (object_result k (send (request b) x).0, (send (request b) x).1)

  unfoldable pub gv_create : Kind → Object → Bool → HttpIo Result
  unfolding send_body
  gv_create k o dry = send_body k (marshal k o) (Request.post (collection plural k o.namespace) dry)

  -- `update` and, with the name of a subresource, `updateSubresource`.
  unfoldable pub gv_update : Kind → Object → UpdateOptions → HttpIo Result
  unfolding send_body
  gv_update k o opts = send_body k (marshal k o) (
      Request.put (path plural k (record { namespace = o.namespace; name = o.name }))
        opts.subresource opts.dry_run)

  -- After the tests, with their error.
  unfoldable pub create_checked : Option Failure → Kind → Object → Bool → HttpIo Result
  unfolding gv_create
  create_checked (some e) k o dry x = ((none, some e), x)
  create_checked none k o dry x = gv_create k o dry x

  -- `Create` and `CreateInto`, with an object and with `into` or without.
  unfoldable pub create_into : Kind → Identifier → Option Object → Bool → Bool → HttpIo Result
  unfolding create_checked set_static_metadata scope_error
  create_into k i none dry into x = ((none, some (message "obj cannot be nil")), x)
  create_into k i (some o) dry false x = ((none, some (message "into cannot be nil")), x)
  create_into k i (some o) dry true x =
      create_checked (scope_error k i) k (set_static_metadata k i o) dry x

  -- The update with the version of the stored object, if it could be read.
  unfoldable pub update_read :
      Kind → Object → UpdateOptions → (Failure ⊎ String) × Requests → Result × Requests
  unfolding gv_update
  update_read k o opts (inl e, x) = ((none, some e), x)
  update_read k o opts (inr v, x) = gv_update k (record o { resource_version = v }) opts x

  unfoldable pub update_versioned : Kind → Identifier → Object → UpdateOptions → HttpIo Result
  unfolding gv_update update_read get_metadata
  update_versioned k i o opts x =
      if opts.resource_version == ""
      then update_read k o opts (get_metadata k i x)
      else gv_update k (record o { resource_version = opts.resource_version }) opts x

  -- `Update` and `UpdateInto`.
  unfoldable pub update_into :
      Kind → Identifier → Option Object → UpdateOptions → Bool → HttpIo Result
  unfolding update_versioned set_static_metadata
  update_into k i none opts into x = ((none, some (message "obj cannot be nil")), x)
  update_into k i (some o) opts false x = ((none, some (message "into cannot be nil")), x)
  update_into k i (some o) opts true x = update_versioned k i (set_static_metadata k i o) opts x

  -- An error below status 300 is not parsed.
  delete_error : Reply → Option Failure
  delete_error r = elim r.error [
    | none ↦ none
    | some e ↦
        if leb 300 r.code then some (parse_kubernetes_error read_status "" r.code e) else some e
  ]

  pub gv_delete : Kind → Identifier → DeleteOptions → HttpIo (Option Failure)
  unfolding send delete_body delete_error
  gv_delete k i opts x =
      let q = Request.delete (path plural k i) (delete_body opts) in
      (delete_error (send q x).0, (send q x).1)

  -- The resource version of the options is left out.
  pub list_params : ListOptions → List (String × String)
  unfolding is_empty
  list_params opts =
      set_param (not (is_empty opts.label_filters)) "labelSelector" (join opts.label_filters)
      ++ set_param (not (is_empty opts.field_selectors)) "fieldSelector" (join opts.field_selectors)
      ++ set_param (leb 1 opts.limit) "limit" (itoa opts.limit)
      ++ set_param (not (opts.continue == "")) "continue" opts.continue

  read_items : Kind → List String → Failure ⊎ List Object
  read_items k [] = inr []
  read_items k (t ∷ ts) =
      let rest = read_items k ts in
      elim (read k t) [
        | inl e ↦ inl e
        | inr o ↦ elim rest [ inl e ↦ inl e | inr os ↦ inr (o ∷ os) ]
      ]

  -- `rawToListWithParser`: nothing is set unless every item can be read.
  raw_to_list : Kind → String → Response
  unfolding read_items
  raw_to_list k raw = elim (read_list raw) [
    | inl e ↦ list_failed e
    | inr l ↦ elim (read_items k l.items) [
      | inl e ↦ list_failed e
      | inr os ↦ record {
        object = none;
        error = none;
        items = os;
        continue = l.continue;
        resource_version = l.resource_version;
      }
    ]
  ]

  -- `groupVersionClient.list`, and with it `List`.
  pub gv_list : Kind → String → ListOptions → HttpIo Response
  unfolding send reply_result raw_to_list list_params
  gv_list k namespace opts x =
      let q = Request.list (collection plural k namespace) (list_params opts) in
      (reply_result (send q x).0 list_failed (raw_to_list k), (send q x).1)

  -- `ListInto`, which unlike `List` tests the scope.
  pub list_into : Kind → String → ListOptions → HttpIo Response
  unfolding gv_list
  list_into k namespace opts x =
      if k.cluster_scoped && not (namespace == "")
      then (
        list_failed (
            formatted
              "cannot list resources with schema scope \"Cluster\" in namespace \"%s\", must be NamespaceAll (\"\")"
              namespace),
        x,
      )
      else gv_list k namespace opts x

  -- The interface `resource.Client`: each call with its requests. The objects that stores pass on
  -- are not nil, and they create and delete without options.
  unfoldable pub client_call : Call → HttpIo Response
  unfolding gv_get create_into update_into gv_delete gv_list
  client_call (Call.get k i) x = (answer (gv_get k i x).0, (gv_get k i x).1)
  client_call (Call.create k i o) x =
      let r = create_into k i (some o) false true x in (answer r.0, r.1)
  client_call (Call.update k i o opts) x =
      let r = update_into k i (some o) opts true x in (answer r.0, r.1)
  client_call (Call.delete k i) x =
      let r =
        gv_delete k i (record { resource_version = ""; uid = ""; propagation_policy = "" }) x in
      (answer (none, r.0), r.1)
  client_call (Call.list k namespace opts) x = gv_list k namespace opts x

  -- The requests that a history of calls has made.
  unfoldable pub requests_of : History → Requests
  unfolding client_call
  requests_of [] = []
  requests_of ((c, r) ∷ h) = (client_call c (requests_of h)).1

  abbrev pub client_server : Server
  client_server h c = (client_call c (requests_of h)).0
