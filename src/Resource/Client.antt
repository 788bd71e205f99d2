-- ===== src/Resource/Client.antt =====
-- resource/client.go: the interface `Client`, as calls to code outside the stores. What answers a
-- call may depend on the history of all calls, and so on anything that other programs do meanwhile.
use grafana_app_sdk.Base.{ℕ, String, List, ◌∷◌, ◌≡◌, ◌≢◌, Bool, true, false, Option, none, some}
use grafana_app_sdk.Resource.Object.{Object}

pub record Identifier : Type 0 where
  pub namespace : String
  pub name : String

-- What identifies the kind of a client's objects.
pub record Kind : Type 0 where
  pub group : String
  pub version : String
  pub kind : String
  pub cluster_scoped : Bool

pub record ListOptions : Type 0 where
  pub continue : String
  pub limit : ℕ
  pub label_filters : List String
  pub field_selectors : List String

pub record UpdateOptions : Type 0 where
  pub resource_version : String
  pub subresource : String
  pub dry_run : Bool

-- A `metav1.Status`.
pub record Status : Type 0 where
  pub api_version : String
  pub kind : String
  pub reason : String
  pub code : ℕ

-- Errors: those of other code, by a number, those of `errors.New`, those of `fmt.Errorf` with one
-- text or one error in them, and, for Kubernetes, `apierrors.StatusError` and k8s/errors.go:
-- `ServerResponseError`, an error with a status code.
pub data Failure : Type 0 where
  outside : ℕ → Failure
  message : String → Failure
  formatted : String → String → Failure
  wrapped : String → Failure → Failure
  status : Status → Failure
  response : Failure → ℕ → Failure

pub data Call : Type 0 where
  get : Kind → Identifier → Call
  create : Kind → Identifier → Object → Call
  update : Kind → Identifier → Object → UpdateOptions → Call
  delete : Kind → Identifier → Call
  list : Kind → String → ListOptions → Call

-- The object and the error of an answer, and the page that a list call gives.
pub record Response : Type 0 where
  pub object : Option Object
  pub error : Option Failure
  pub items : List Object
  pub continue : String
  pub resource_version : String

abbrev pub History : Type 0
History = List (Call × Response)

abbrev pub Server : Type 0
Server = History → Call → Response

abbrev pub Io : Type 0 → Type 0
Io A = History → A × History

abbrev pub perform : Server → Call → Io Response
perform server c h = (server h c, (c, server h c) ∷ h)

-- What a call that answers with an object or an error returns.
abbrev pub Result : Type 0
Result = Option Object × Option Failure

-- The objects in the storage layer.
abbrev pub Objects : Type 0
Objects = Kind → Identifier → Option Object

-- What an answer without an error says of the storage layer: the object that it returns is there.
abbrev pub written : {A : Type 0} → Option Failure → Option A → Option A → Option A
written none new old = new
written (some e) new old = old

-- A call that left the objects as they are.
abbrev pub Keeps : (History → Objects) → History → History → Type 0
Keeps stored h g = (k : Kind) (i : Identifier) → stored g k i ≡ stored h k i

abbrev with_call : Server → Call → History → History
with_call server c h = (c, server h c) ∷ h

-- The documented behaviour of a client: how its answers go with the stored objects, which only its
-- calls change. `related` tells the keys that may name one resource, which differ in the version of
-- the kind or in the way that a namespace is written. `is_not_found` and `is_conflict` are those of
-- `apierrors`.
pub record IsClient (server : Server) (is_not_found is_conflict : Failure → Bool) : Type 0 where
  pub stored : History → Objects
  pub related : Kind → Identifier → Kind → Identifier → Bool
  pub after_get :
      (h : History) (k : Kind) (i : Identifier) → Keeps stored h (with_call server (get k i) h)
  pub after_create :
      (h : History) (k : Kind) (i : Identifier) (o : Object)
      → let c = create k i o in
        stored (with_call server c h) k i
        ≡ written (server h c).error (server h c).object (stored h k i)
  pub after_update :
      (h : History) (k : Kind) (i : Identifier) (o : Object) (opts : UpdateOptions)
      → opts.dry_run ≡ false
      → let c = update k i o opts in
        stored (with_call server c h) k i
        ≡ written (server h c).error (server h c).object (stored h k i)
  pub create_apart :
      (h : History) (k : Kind) (i : Identifier) (o : Object) (l : Kind) (j : Identifier)
      → related k i l j ≡ false
      → stored (with_call server (create k i o) h) l j ≡ stored h l j
  pub update_apart :
      (h : History) (k : Kind) (i : Identifier) (o : Object) (opts : UpdateOptions)
      → (l : Kind) (j : Identifier) → related k i l j ≡ false
      → stored (with_call server (update k i o opts) h) l j ≡ stored h l j
  pub get_ok :
      (h : History) (k : Kind) (i : Identifier)
      → (server h (get k i)).error ≡ none
      → (o : Object) × ((server h (get k i)).object ≡ some o) × (stored h k i ≡ some o)
  pub get_failed :
      (h : History) (k : Kind) (i : Identifier) (e : Failure)
      → (server h (get k i)).error ≡ some e
      → (server h (get k i)).object ≡ none
  pub get_missing :
      (h : History) (k : Kind) (i : Identifier) (e : Failure)
      → (server h (get k i)).error ≡ some e
      → is_not_found e ≡ true
      → stored h k i ≡ none
  -- "If there is a mismatch, the update will fail."
  pub update_mismatch :
      (h : History) (k : Kind) (i : Identifier) (o old : Object) (opts : UpdateOptions)
      → stored h k i ≡ some old
      → opts.resource_version ≢ ""
      → opts.resource_version ≢ old.resource_version
      → (server h (update k i o opts)).error ≢ none
