-- ===== src/Resource/TypedStore/Tests.antt =====
-- The typed store over the sample client.
use grafana_app_sdk.Base.{[], ◌≡◌, refl, true, none, some}
use grafana_app_sdk.Resource.Object.{Object}
use grafana_app_sdk.Resource.Client.{Call}
use grafana_app_sdk.Resource.Samples.{is_404, is_409, issues, issue, key, memory, memory_client}
use grafana_app_sdk.Resource.Store.{Backend, no_options, stamped}
use grafana_app_sdk.Resource.TypedStore.{TypedStore, typed_upsert}
use grafana_app_sdk.Resource.TypedStore.Versions.{one_call, typed_upsert_unconditional}

abbrev backend : Backend
backend = record {
  server = memory;
  client_error = λ k. none;
  is_not_found = is_404;
  clock = λ h. 9;
}

abbrev typed : TypedStore
typed = record { client = issues; is_type = λ o. true }

abbrev stale : Object
stale = issue "one" "1" 5

-- The stored object of version 2 is replaced by the stale one.
overwritten :
    memory_client.stored (typed_upsert backend typed (key "one") stale []).1 issues (key "one")
    ≡ some (record stale { update_timestamp = 9 })
unfolding typed_upsert memory_client
overwritten = refl

typed_upsert_unconditional_example :
    let g = one_call backend typed (Call.get issues (key "one")) [] in
    let c = Call.update issues (key "one") (stamped backend stale g) no_options in
    ((typed_upsert backend typed (key "one") stale []).1 ≡ one_call backend typed c g)
    × (memory_client.stored (typed_upsert backend typed (key "one") stale []).1 issues (key "one")
        ≡ (memory g c).object)
typed_upsert_unconditional_example =
    typed_upsert_unconditional backend typed is_409 memory_client stale (key "one") [] refl refl
