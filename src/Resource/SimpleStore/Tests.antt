-- ===== src/Resource/SimpleStore/Tests.antt =====
-- The simple store over the sample client.
use grafana_app_sdk.Base.{List, [], ◌∷◌, ◌≡◌, refl, true, none, some}
use grafana_app_sdk.Resource.Samples.{is_404, issues, issue, key, memory, memory_client}
use grafana_app_sdk.Resource.Store.{Backend}
use grafana_app_sdk.Resource.SimpleStore.{
  SimpleStore, ObjectMetadataOption, with_resource_version, simple_update,
}

abbrev backend : Backend
backend = record {
  server = memory;
  client_error = λ k. none;
  is_not_found = is_404;
  clock = λ h. 9;
}

abbrev simple : SimpleStore
simple = record { client = issues; is_spec = λ o. true }

abbrev at_one : List ObjectMetadataOption
at_one = with_resource_version "1" ∷ []

-- Without an option the stored version is kept, and the update goes through.
updated :
    memory_client.stored (simple_update backend simple (key "one") 5 [] []).1 issues (key "one")
    ≡ some (record (issue "one" "2" 5) { update_timestamp = 9 })
unfolding simple_update memory_client
updated = refl
