-- ===== src/Operator/Controller/Ticker.antt =====
-- operator/informer_controller.go: `retryTicker`, which makes the retries of the legacy map that
-- are due. One tick goes through the keys of the map; the list of a key is locked while its retries
-- are made.
use grafana_app_sdk.Base.{
  ℕ, ◌+◌, String, List, [], ◌∷◌, ◌++◌, ◌≡◌, refl, sym, ap, ◌∙◌, Bool, true, false, not, ◌&&◌,
  Option, none, some, inl, inr, ltb, filter, map, if◌then◌else◌, Bool-cases, Option-cases,
}
use grafana_app_sdk.Operator.Io.{Err}
use grafana_app_sdk.Operator.Events.{EventCall, Answer}
use grafana_app_sdk.Operator.ListMap.{range, remove_items, add_item}
use grafana_app_sdk.Operator.Retry.{RetryPolicy}
use grafana_app_sdk.Operator.Controller.{Platform, World, RetryInfo, event_call, set_retries}
pub mod Due

-- The closure of a reconciler gives the time of its answer; the one of a watcher gives none.
abbrev pub specified_retry : EventCall → Answer → Option ℕ
specified_retry (EventCall.reconcile h req) a = a.requeue_after
specified_retry _ a = none

-- `t.After(val.retryAfter)`.
abbrev pub is_due : ℕ → RetryInfo → Bool
is_due t r = ltb r.retry_after t

-- What a retry that was made adds again, if anything; its error is not kept.
pub added_again : Option RetryPolicy → ℕ → RetryInfo → Answer → Option RetryInfo
added_again policy t r a = elim (specified_retry r.retry_func a) [
  | some after ↦ some (record r { retry_after = t + after; err = none })
  | none ↦ elim a.error [
    | none ↦ none
    | some e ↦ elim policy [
      | none ↦ none
      | some p ↦
          if (p e (r.attempt + 1)).0
          then some (record r {
            retry_after = t + (p e (r.attempt + 1)).1;
            attempt = r.attempt + 1;
            err = none;
          })
          else none
    ]
  ]
]

abbrev listed : Option RetryInfo → List RetryInfo
listed none = []
listed (some r) = r ∷ []

module _ (platform : Platform) where
  open platform use {retries}

  -- The matching function of `RemoveItems` on a list: it makes the retries that are due, in order,
  -- and gathers those to add again.
  pub retry_due : ℕ → List RetryInfo → World platform → List RetryInfo × World platform
  unfolding added_again
  retry_due t [] w = ([], w)
  retry_due t (r ∷ rs) w =
      let called = event_call platform r.retry_func w in
      let rest = retry_due t rs called.1 in
      let skipped = retry_due t rs w in
      if is_due t r
      then (listed (added_again w.controller.retry_policy t r called.0) ++ rest.0, rest.1)
      else skipped

  -- `for _, inf := range toAdd { c.toRetry.AddItem(key, inf) }`.
  add_each : String → List RetryInfo → retries.Map → retries.Map
  add_each key [] m = m
  add_each key (r ∷ rs) m = add_each key rs (add_item retries m key (r ∷ []))

  pub tick_key : ℕ → String → World platform → World platform
  unfolding retry_due add_each set_retries
  tick_key t key w =
      let made = retry_due t (range retries w.controller.to_retry key) w in
      set_retries platform made.1
        (add_each key made.0 (remove_items retries w.controller.to_retry key (λ r. is_due t r) 0).0)

  -- A tick at the time `t`, over the keys that the map has then.
  pub tick : ℕ → List String → World platform → World platform
  unfolding tick_key
  tick t [] w = w
  tick t (key ∷ keys) w = tick t keys (tick_key t key w)
