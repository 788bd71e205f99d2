-- ===== src/Resource/SimpleStore/Updates.antt =====
-- Which object `Update` of a simple store replaces.
use grafana_app_sdk.Base.{
  ℕ, List, ◌∷◌, ◌≡◌, ◌≢◌, refl, sym, ap, subst, ◌∙◌, Bool, true, Option, none, some,
}
use grafana_app_sdk.Resource.Object.{Object}
use grafana_app_sdk.Resource.Client.{Identifier, Failure, Call, History, IsClient, written}
use grafana_app_sdk.Resource.Store.{Backend, call}
use grafana_app_sdk.Resource.SimpleStore.{
  SimpleStore, ObjectMetadataOption, simple_cast, simple_answer, update_current, simple_call,
  simple_get, new_object, update_with, simple_update,
}

cast_typed :
    (t : SimpleStore) (o : Object) → t.is_spec o ≡ true → simple_cast t (some o) ≡ (some o, none)
unfolding simple_cast
cast_typed t o h = rw h refl

module _ (backend : Backend) (is_conflict : Failure → Bool)
    (client : IsClient backend.server backend.is_not_found is_conflict) (t : SimpleStore) where
  open backend use {server}
  open client use {stored, after_get, after_update, get_ok, update_mismatch}

  not_written : (e : Option Failure) (o old : Option Object) → e ≢ none → written e o old ≡ old
  not_written none o old h = absurd (h refl)
  not_written (some e) o old h = refl

  answer_fails :
      (o : Option Object) (e : Option Failure) → e ≢ none → (simple_answer backend t o e).1 ≢ none
  answer_fails o none h = absurd (h refl)
  answer_fails o (some e) h = λ x. cc x

  -- `Update` of an object that is stored and has the store's type: the update call sends the new
  -- spec with the metadata of the stored object, as the options change it, and has the version that
  -- is then in it as its condition. So where the options set another version than the stored one,
  -- and not the empty one, the update fails and nothing changes.
  pub simple_update_keeps :
      (i : Identifier) (spec : ℕ) (opts : List ObjectMetadataOption) (h : History) (old : Object)
      → (server h (Call.get t.client i)).error ≡ none
      → stored h t.client i ≡ some old
      → t.is_spec old ≡ true
      → let o = new_object backend old spec opts in
        o.resource_version ≢ ""
        → o.resource_version ≢ old.resource_version
        → let get_it = Call.get t.client i in
          let g = (get_it, server h get_it) ∷ h in
          let put = update_with backend t i o g in
          ((simple_update backend t i spec opts h).1 ≡ (put, server g put) ∷ g)
          × ((simple_update backend t i spec opts h).0.1 ≢ none)
          × (stored (simple_update backend t i spec opts h).1 t.client i ≡ some old)
  unfolding simple_update simple_get simple_call update_current call
  simple_update_keeps i spec opts h old ok there typed named other =
      let get_it = Call.get t.client i in
      let g = (get_it, server h get_it) ∷ h in
      let o = new_object backend old spec opts in
      let put = update_with backend t i o g in
      let (x, s, there') = get_ok h t.client i ok in
      let same : some x ≡ some old = sym there' ∙ there in
      let got : simple_answer backend t (server h get_it).object (server h get_it).error
          ≡ (some old, none) =
        ap (simple_answer backend t (server h get_it).object) ok
        ∙ ap (simple_cast t) (s ∙ same)
        ∙ cast_typed t old typed in
      let to : simple_update backend t i spec opts h ≡ simple_call backend t put g =
        ap (λ r. update_current backend t i spec opts r g) got in
      let kept = after_get h t.client i t.client i ∙ there in
      let failed = update_mismatch g t.client i _ old _ kept named other in
      (
        ap (λ r. r.1) to,
        subst (λ r. r.0.1 ≢ none) (sym to)
            (answer_fails (server g put).object (server g put).error failed),
        ap (λ r. stored r.1 t.client i) to
            ∙ after_update g t.client i _ _ refl
            ∙ not_written (server g put).error (server g put).object (stored g t.client i) failed
            ∙ kept,
      )
