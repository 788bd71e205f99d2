-- ===== src/Resource/Updater/Writes.antt =====
-- Which calls `UpdateObject` makes, and what it returns.
use grafana_app_sdk.Base.{ℕ, suc, [], ◌∷◌, ◌≡◌, ◌≢◌, Bool, Option, none, some}
use grafana_app_sdk.Resource.Object.{Object}
use grafana_app_sdk.Resource.Client.{
  Identifier, Kind, UpdateOptions, Failure, Call, Response, History, Server, Io, Result,
}
use grafana_app_sdk.Resource.Updater.{
  Changed, changed, into, read_into, versioned, do_update, get_into, retry_update,
}

abbrev pub update_calls : History → ℕ
update_calls [] = 0
update_calls ((Call.update k i o opts, r) ∷ h) = suc (update_calls h)
update_calls ((Call.get k i, r) ∷ h) = update_calls h
update_calls ((Call.create k i o, r) ∷ h) = update_calls h
update_calls ((Call.delete k i, r) ∷ h) = update_calls h
update_calls ((Call.list k n o, r) ∷ h) = update_calls h

module _ (server : Server) (get_into_empty : History → Response) (is_conflict : Failure → Bool)
    (is_type : Object → Bool) (k : Kind) (i : Identifier)
    (update_func : Option Object → Bool → Changed) (opts : UpdateOptions) where
  abbrev pub put_it : Object → Call
  put_it o =
      Call.update k i o (versioned server get_into_empty is_conflict is_type k i update_func opts o)

  reading : Option Object → History → Response
  reading = get_into server get_into_empty is_conflict is_type k i update_func opts

  -- The history after a get call that read into an object, and after the update call.
  abbrev pub got : Response → History → History
  got r h = (Call.get k i, r) ∷ h

  abbrev pub put : Object → History → History
  put o h = (put_it o, server h (put_it o)) ∷ h

  -- The answer of a get call: that of the client, or of its `GetInto` for the empty object.
  abbrev pub IsRead : Option Object → History → Response → Type 0
  IsRead none h r = r ≡ get_into_empty h
  IsRead (some o) h r = r ≡ server h (Call.get k i)

  -- The history ends with a get call and an update call that both answer without an error. The
  -- update call sends what `updateFunc` makes of the object that the get call left, on the
  -- condition of the version that is written in it, and the object is what it answers.
  pub data IsReadModifyWrite : History → Object → Type 0 where
    read_modify_write :
        {h : History} (o : Option Object) (r : Response) {sent : Object} (is_retry : Bool)
        → IsRead o h r
        → r.error ≡ none
        → update_func (read_into r o) is_retry ≡ changed sent
        → sent.resource_version ≢ ""
        → (server (got r h) (put_it sent)).error ≡ none
        → IsReadModifyWrite (put sent (got r h)) (into (server (got r h) (put_it sent)) sent)

  -- No error, and the object is returned that was read, changed and written; or an error and no
  -- object.
  abbrev pub IsWritten : Option Failure → Option Object → History → Type 0
  IsWritten none o h = (x : Object) × (o ≡ some x) × IsReadModifyWrite h x
  IsWritten (some e) o h = o ≡ none

  -- What `doUpdate` gives.
  abbrev IsDone : Option Failure → Option Object → History → Type 0
  IsDone none o h = (x : Object) × (o ≡ some x) × IsReadModifyWrite h x
  IsDone (some e) o h = Unit {0}

  doing : Option Object → Bool → Io (Option Object × Option Failure)
  doing = do_update server get_into_empty is_conflict is_type k i update_func opts

  trying : ℕ → (Option Object × Option Failure) × History → Result × History
  trying = retry_update server get_into_empty is_conflict is_type k i update_func opts
