-- ===== src/K8s/Client/Refines/Stores.antt =====
-- Stores over the Kubernetes client.
use grafana_app_sdk.Base.{ℕ, ◌≡◌, ◌≢◌, Bool, false, Option, none, some}
use grafana_app_sdk.Resource.Object.{Object}
use grafana_app_sdk.Resource.Client.{Kind, Failure, History}
use grafana_app_sdk.Resource.Store.{Store, Backend, lookup_kind, identifier_of, update, upsert}
use grafana_app_sdk.Resource.Store.Upserts.{upsert_keeps_newer}
use grafana_app_sdk.K8s.Client.{Api, Codecs, client_server}
use grafana_app_sdk.K8s.Client.Requests.{IsApi, objects}
use grafana_app_sdk.K8s.Client.Refines.{as_client}

-- A store whose clients are those of Kubernetes.
abbrev pub backend_on :
    Codecs → Api → (Kind → Option Failure) → (Failure → Bool) → (History → ℕ) → Backend
backend_on codecs api client_error is_not_found clock = record {
  server = client_server codecs api;
  client_error = client_error;
  is_not_found = is_not_found;
  clock = clock;
}

-- A store over the Kubernetes client loses no update, with an API server and codecs as documented:
-- for an object of a registered kind that names a version, where the server holds an object with
-- another version, `Update` and `Upsert` of the store fail, and the server still holds that object.
pub kubernetes_store_keeps_newer :
    (codecs : Codecs) (api : Api) (client_error : Kind → Option Failure)
    (is_not_found : Failure → Bool) (clock : History → ℕ) (contract : IsApi codecs api is_not_found)
    (s : Store) (o old : Object) (k : Kind) (h : History)
    → lookup_kind o.kind s.types ≡ some k
    → (o.resource_version ≢ "") × (o.resource_version ≢ old.resource_version)
    → objects codecs api is_not_found contract h k (identifier_of o) ≡ some old
    → let backend = backend_on codecs api client_error is_not_found clock in
      let held = objects codecs api is_not_found contract in
      ((update backend s o h).0.1 ≢ none)
      × ((upsert backend s o h).0.1 ≢ none)
      × (held (update backend s o h).1 k (identifier_of o) ≡ some old)
      × (held (upsert backend s o h).1 k (identifier_of o) ≡ some old)
unfolding as_client
kubernetes_store_keeps_newer codecs api client_error is_not_found clock contract s o old k h known
      stale there =
    upsert_keeps_newer (backend_on codecs api client_error is_not_found clock) (λ e. false)
      (as_client codecs api is_not_found contract (λ e. false)) s o old k h known stale there
