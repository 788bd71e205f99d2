-- ===== src/K8s/Client/Tests.antt =====
-- Runs of the Kubernetes client.
use grafana_app_sdk.Base.{[], ◌∷◌, ◌≡◌, ◌≢◌, refl, ap, true, false, none, some, eq_iff, arith}
use grafana_app_sdk.Resource.Client.{
  Identifier, Kind, UpdateOptions, outside, response, Call, Response, History, IsClient,
}
use grafana_app_sdk.Resource.Samples.{issues, issue, key}
use grafana_app_sdk.Resource.Store.{Store, lookup_kind, update, upsert}
use grafana_app_sdk.K8s.Errors.{parse_kubernetes_error, status_from_error}
use grafana_app_sdk.K8s.Client.{
  path, in_url, DeleteOptions, delete_body, update_into, client_call, client_server, requests_of,
  same_resource,
}
use grafana_app_sdk.K8s.Client.Samples.{codecs, memory, memory_api, is_missing, held}
use grafana_app_sdk.K8s.Client.Requests.{objects, decode}
use grafana_app_sdk.K8s.Client.Refines.{client_server-IsClient}
use grafana_app_sdk.K8s.Client.Refines.Stores.{backend_on, kubernetes_store_keeps_newer}
use grafana_app_sdk.K8s.Client.Conditions.{Conditional, update_into-Conditional}

abbrev server : History → Call → Response
server = client_server codecs memory

abbrev then_call : Call → History → History
then_call c h = (c, server h c) ∷ h

abbrev create_one : Call
create_one = Call.create issues (key "one") (issue "one" "" 0)

abbrev created : History
created = then_call create_one []

-- The name of a blank namespace is left out of the URL.
blank : in_url " \t" ≡ ""
unfolding in_url
blank = refl

read_back : (server created (Call.get issues (key "one"))).object ≡ some (issue "one" "1" 0)
unfolding client_call requests_of in_url same_resource
read_back = refl

missing : (server [] (Call.get issues (key "one"))).error ≡ some (response (outside 404) 404)
unfolding client_call requests_of in_url parse_kubernetes_error
missing = refl

timed_out : parse_kubernetes_error (λ b. none) "" 0 (outside 1) ≡ response (outside 1) 503
unfolding parse_kubernetes_error
timed_out = refl

unknown : status_from_error (some (outside 1)) ≡ (some (response (outside 1) 500), false)
unfolding status_from_error
unknown = refl

abbrev unconditional : DeleteOptions
unconditional = record { resource_version = ""; uid = ""; propagation_policy = "" }

no_body : delete_body unconditional ≡ none
unfolding delete_body
no_body = refl

client_server-IsClient_example :
    (c : IsClient (client_server codecs memory) is_missing (λ e. false)) × ((h : History) (k : Kind)
        (i : Identifier)
      → c.stored h k i ≡ objects codecs memory is_missing memory_api h k i)
    × ((k : Kind) (i : Identifier) (l : Kind) (j : Identifier)
        → c.related k i l j ≡ same_resource (path codecs.plural k i) (path codecs.plural l j))
client_server-IsClient_example =
    client_server-IsClient codecs memory is_missing memory_api (λ e. false)

abbrev store : Store
store = record { types = ("Issue", issues) ∷ [] }

abbrev backend : grafana_app_sdk.Resource.Store.Backend
backend = backend_on codecs memory (λ k. none) is_missing (λ h. 9)

known : lookup_kind "Issue" store.types ≡ some issues
unfolding lookup_kind
known = refl

there :
    objects codecs memory is_missing memory_api created issues (key "one")
    ≡ some (issue "one" "1" 0)
unfolding client_call requests_of in_url same_resource
there =
    ap (decode codecs memory is_missing memory_api issues)
      (held (requests_of codecs memory created) (path codecs.plural issues (key "one")))

kubernetes_store_keeps_newer_example :
    let held = objects codecs memory is_missing memory_api in
    let stale = issue "one" "7" 5 in
    ((update backend store stale created).0.1 ≢ none)
    × ((upsert backend store stale created).0.1 ≢ none)
    × (held (update backend store stale created).1 issues (key "one") ≡ some (issue "one" "1" 0))
    × (held (upsert backend store stale created).1 issues (key "one") ≡ some (issue "one" "1" 0))
kubernetes_store_keeps_newer_example =
    kubernetes_store_keeps_newer codecs memory (λ k. none) is_missing (λ h. 9) memory_api store
      (issue "one" "7" 5) (issue "one" "1" 0) issues created known
      (ground (arith, eq_iff "7" ""), ground (arith, eq_iff "7" "1")) there

abbrev plain : UpdateOptions
plain = record { resource_version = ""; subresource = "status"; dry_run = false }

update_into-Conditional_example :
    Conditional codecs memory true issues
      (key "one")
      (issue "one" "" 5)
      plain
      []
      (update_into codecs memory issues (key "one") (some (issue "one" "" 5)) plain true [])
update_into-Conditional_example =
    update_into-Conditional codecs memory [] issues (key "one") (issue "one" "" 5) plain
