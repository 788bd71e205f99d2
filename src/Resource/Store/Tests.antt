-- ===== src/Resource/Store/Tests.antt =====
-- The store over the sample client.
use text.Mathlib.TextEquality.{eq_iff}
use grafana_app_sdk.Base.{[], ◌∷◌, ◌≡◌, ◌≢◌, refl, none, some, arith}
use grafana_app_sdk.Resource.Object.{Object}
use grafana_app_sdk.Resource.Samples.{is_404, is_409, issues, issue, key, memory, memory_client}
use grafana_app_sdk.Resource.Store.{
  Store, Backend, StoreListOptions, listed, lookup_kind, new_store, update, upsert, list,
}
use grafana_app_sdk.Resource.Store.Upserts.{upsert_keeps_newer}
use grafana_app_sdk.Resource.Store.Pages.{list-Serves, last, more, complete}

abbrev backend : Backend
backend = record {
  server = memory;
  client_error = λ k. none;
  is_not_found = is_404;
  clock = λ h. 9;
}

abbrev store : Store
store = record { types = ("Issue", issues) ∷ [] }

abbrev stale : Object
stale = issue "one" "1" 5

known : lookup_kind "Issue" store.types ≡ some issues
unfolding lookup_kind
known = refl

registered : new_store ((issues ∷ []) ∷ []) ≡ store
unfolding new_store
registered = refl

upsert_keeps_newer_example :
    ((update backend store stale []).0.1 ≢ none)
    × ((upsert backend store stale []).0.1 ≢ none)
    × (memory_client.stored (update backend store stale []).1 issues (key "one")
        ≡ some (issue "one" "2" 0))
    × (memory_client.stored (upsert backend store stale []).1 issues (key "one")
        ≡ some (issue "one" "2" 0))
unfolding memory_client
upsert_keeps_newer_example =
    upsert_keeps_newer backend is_409 memory_client store stale (issue "one" "2" 0) issues [] known
      (ground (arith, eq_iff "1" ""), ground (arith, eq_iff "1" "2")) refl

abbrev all : StoreListOptions
all = record { namespace = "default"; per_page = 1; filters = []; field_selectors = [] }

list-Serves_example :
    (list backend 2 store "Issue" all []).0
    ≡ listed (record {
      items = issue "one" "2" 0 ∷ issue "two" "3" 0 ∷ [];
      continue = "";
      resource_version = "3";
    })
list-Serves_example =
    list-Serves backend issues all 2 1 store "Issue" [] (issue "two" "3" 0 ∷ []) (complete "3")
      known refl refl (more (ground (arith, eq_iff "next" "")) refl (last refl)) (omega arith)
