-- ===== src/Resource/Store/Pages.antt =====
-- `List` goes through all pages.
use mathlib.Core.List.{append_assoc, append-nil}
use grafana_app_sdk.Base.{
  ℕ, zero, suc, ◌<◌, String, List, [], ◌∷◌, ◌++◌, ◌≡◌, ◌≢◌, refl, ap, ◌∙◌, none, some, ==_of_ne,
  arith,
}
use grafana_app_sdk.Resource.Object.{Object}
use grafana_app_sdk.Resource.Client.{Kind, Failure, Call, History}
use grafana_app_sdk.Resource.Store.{
  Store, Backend, StoreListOptions, ListObject, Listed, listed, list_failed, lookup_kind,
  with_client, page_options, page, list_pages, list,
}

-- How the pages of a list end: with the version of the last page, or an error in place of a page.
pub data Ending : Type 0 where
  complete : String → Ending
  broken : Failure → Ending

-- What the caller of `List` gets.
abbrev pub outcome : List Object → Ending → Listed
outcome items (complete version) =
    listed (record { items = items; continue = ""; resource_version = version })
outcome items (broken e) = list_failed e

module _ (backend : Backend) (k : Kind) (o : StoreListOptions) where
  open backend use {server}

  abbrev pub next_call : String → Call
  next_call continue = Call.list k o.namespace (page_options backend o continue)

  -- After the page `p`, the server has `n` more pages with the items.
  pub data Serves : History → ListObject → ℕ → List Object → Ending → Type 0 where
    last :
        {h : History} {p : ListObject}
        → p.continue ≡ ""
        → Serves h p zero [] (complete p.resource_version)
    error :
        {h : History} {p : ListObject} {e : Failure}
        → p.continue ≢ ""
        → (server h (next_call p.continue)).error ≡ some e
        → Serves h p zero [] (broken e)
    more :
        {h : History} {p : ListObject} {n : ℕ} {items : List Object} {end : Ending}
        → p.continue ≢ ""
        → (server h (next_call p.continue)).error ≡ none
        → Serves
            ((next_call p.continue, server h (next_call p.continue)) ∷ h)
            (page backend (server h (next_call p.continue)))
            n
            items
            end
        → Serves h p (suc n) ((server h (next_call p.continue)).items ++ items) end

  -- The loop only looks at the token of the page, not at what it has gathered before.
  list_pages-Serves :
      (fuel n : ℕ) (h : History) (p : ListObject) (before items : List Object) (end : Ending)
      → Serves h p n items end
      → n < fuel
      → (list_pages backend fuel k o (record p { items = before }) h).0
        ≡ outcome (before ++ items) end
  unfolding list_pages
  list_pages-Serves zero n h p before items end s lt = absurd (omega arith)
  list_pages-Serves (suc fuel) n h p before items end (last e) lt = rw (e, append-nil) refl
  list_pages-Serves (suc fuel) n h p before items end (error ne bad) lt =
      rw (==_of_ne p.continue "" ne, bad) refl
  list_pages-Serves (suc fuel) n h p before items end (more ne ok s) lt =
      let r = server h (next_call p.continue) in
      rw (==_of_ne p.continue "" ne, ok)
        (list_pages-Serves fuel _ _ (page backend r) (before ++ r.items) _ end s (omega arith)
          ∙ ap (λ x. outcome x end) (append_assoc before r.items _))

  -- `List` of a registered kind whose client answers the first page, with fuel for more steps than
  -- the pages that follow: it returns the items of all pages in the order of the pages, without a
  -- token and with the version of the last page, and if a page is answered with an error it returns
  -- that error and no items.
  pub list-Serves :
      (fuel n : ℕ) (s : Store) (kind : String) (h : History) (items : List Object) (end : Ending)
      → lookup_kind kind s.types ≡ some k
      → backend.client_error k ≡ none
      → (server h (next_call "")).error ≡ none
      → Serves
          ((next_call "", server h (next_call "")) ∷ h)
          (page backend (server h (next_call "")))
          n
          items
          end
      → n < fuel
      → (list backend fuel s kind o h).0 ≡ outcome ((server h (next_call "")).items ++ items) end
  unfolding list with_client
  list-Serves fuel n s kind h items end known there ok serves lt =
      rw (known, with_client)
        (rw (there, with_client)
          (rw ok (
            list_pages-Serves fuel n _ (page backend (server h (next_call ""))) _ items end serves
              lt)))
