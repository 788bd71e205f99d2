-- ===== src/Resource/Updater/Tests.antt =====
-- `UpdateObject` over a client whose first update call meets a conflict.
use grafana_app_sdk.Base.{suc, [], ◌≡◌, refl, Bool, true, Option, none, some, if◌then◌else◌, nat_eq}
use grafana_app_sdk.Resource.Object.{Object}
use grafana_app_sdk.Resource.Client.{Call, Server, History, Response, outside, message}
use grafana_app_sdk.Resource.Samples.{is_409, issues, issue, key, memory, failing}
use grafana_app_sdk.Resource.Store.{no_options}
use grafana_app_sdk.Resource.Updater.{Changed, changed, change_failed, update_object}
use grafana_app_sdk.Resource.Updater.Writes.{update_calls}

abbrev contended : Server
contended h (Call.update k i o opts) =
    if nat_eq (update_calls h) 0 then failing 409 else memory h (Call.update k i o opts)
contended h (Call.get k i) = memory h (Call.get k i)
contended h (Call.create k i o) = memory h (Call.create k i o)
contended h (Call.delete k i) = memory h (Call.delete k i)
contended h (Call.list k n o) = memory h (Call.list k n o)

abbrev is_any : Object → Bool
is_any o = true

-- `GetInto` refuses a nil object.
abbrev nil_refused : History → Response
nil_refused h = record (failing 0) { error = some (message "into cannot be nil") }

abbrev add_one : Option Object → Bool → Changed
add_one none is_retry = change_failed (message "no object")
add_one (some o) is_retry = changed (record o { content = suc o.content })

retried :
    update_object contended nil_refused is_409 is_any issues (key "one") add_one no_options [] ≡ (
      (some (issue "one" "2" 1), none),
      (update_object contended nil_refused is_409 is_any issues
          (key "one")
          add_one
          no_options
          []).1,
    )
unfolding update_object
retried = refl

-- An `updateFunc` that meets a conflict itself is not called again.
abbrev conflicting : Option Object → Bool → Changed
conflicting o is_retry = change_failed (outside 409)

not_retried :
    (update_object contended nil_refused is_409 is_any issues
      (key "one")
      conflicting
      no_options
      []).0
    ≡ (none, some (message "into cannot be nil"))
unfolding update_object
not_retried = refl
