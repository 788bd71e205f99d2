-- ===== src/Operator/Controller/Ticker/Due.antt =====
-- A tick makes each retry that is due once, and leaves none that is due.
use mathlib.Core.List.{append_assoc, append-nil}
use grafana_app_sdk.Base.{
  filter-append, ℕ, ◌+◌, String, List, [], ◌∷◌, ◌++◌, ◌≡◌, refl, sym, ap, ◌∙◌, Bool, not, Option,
  inl, inr, filter, map, if◌then◌else◌, Bool-cases, Option-cases, ◌==◌, eq_refl, arith,
}
use grafana_app_sdk.Operator.Events.{EventCall, Answer, History}
use grafana_app_sdk.Operator.ListMap.{range, remove_items, add_item}
use grafana_app_sdk.Operator.ListMap.Laws.{filter-all, removed-filter, add_item-remove_key}
use grafana_app_sdk.Operator.Retry.{RetryPolicy}
use grafana_app_sdk.Operator.Controller.{Platform, World, RetryInfo, event_call, set_retries}
use grafana_app_sdk.Operator.Controller.Ticker.{
  specified_retry, is_due, added_again, listed, retry_due, add_each, tick_key,
}

-- All calls in a history, the first one first.
abbrev pub calls : History → List EventCall
calls [] = []
calls ((c, a) ∷ h) = calls h ++ c ∷ []

filter_excluded :
    (f : RetryInfo → Bool) (xs : List RetryInfo) → filter f (filter (λ x. not (f x)) xs) ≡ []
filter_excluded f [] = refl
filter_excluded f (x ∷ xs) = elim (Bool-cases (f x)) [
  | inl e ↦ rw e (filter_excluded f xs)
  | inr e ↦ rw e (rw e (filter_excluded f xs))
]

-- What is added again waits at least until the time of the tick.
added_again-due :
    (policy : Option RetryPolicy) (t : ℕ) (r : RetryInfo) (a : Answer)
    → filter (is_due t) (listed (added_again policy t r a)) ≡ []
unfolding added_again
added_again-due policy t r a = elim (Option-cases (specified_retry r.retry_func a)) [
  | inr (after, s) ↦ rw (s, added_again) (ground arith)
  | inl n ↦ elim (Option-cases a.error) [
    | inl m ↦ rw (n, added_again) (rw (m, added_again) refl)
    | inr (e, s) ↦ elim (Option-cases policy) [
      | inl m ↦ rw (n, added_again) (rw (s, added_again) (rw (m, added_again) refl))
      | inr (p, q) ↦ elim (Bool-cases (p e (r.attempt + 1)).0) [
        | inl b ↦
            rw (n, added_again) (rw (s, added_again) (rw (q, added_again) (rw b (ground arith))))
        | inr b ↦ rw (n, added_again) (rw (s, added_again) (rw (q, added_again) (rw b refl)))
      ]
    ]
  ]
]

module _ (platform : Platform) where
  open platform use {retries}

  retry_due-calls :
      (t : ℕ) (rs : List RetryInfo) (w : World platform)
      → calls (retry_due platform t rs w).1.history
        ≡ calls w.history ++ map (λ r. r.retry_func) (filter (is_due t) rs)
  unfolding retry_due event_call
  retry_due-calls t [] w = sym (append-nil (calls w.history))
  retry_due-calls t (r ∷ rs) w = elim (Bool-cases (is_due t r)) [
    | inl e ↦ rw e (
        retry_due-calls t rs (event_call platform r.retry_func w).1
        ∙ append_assoc (calls w.history) (r.retry_func ∷ [])
            (map (λ x. x.retry_func) (filter (is_due t) rs)))
    | inr e ↦ rw e (retry_due-calls t rs w)
  ]

  retry_due-added :
      (t : ℕ) (rs : List RetryInfo) (w : World platform)
      → filter (is_due t) (retry_due platform t rs w).0 ≡ []
  unfolding retry_due
  retry_due-added t [] w = refl
  retry_due-added t (r ∷ rs) w = elim (Bool-cases (is_due t r)) [
    | inl e ↦
        let called = event_call platform r.retry_func w in
        let again = listed (added_again w.controller.retry_policy t r called.0) in
        let rest = retry_due platform t rs called.1 in
        rw e (
          filter-append (is_due t) again rest.0
          ∙ rw (added_again-due w.controller.retry_policy t r called.0)
              (retry_due-added t rs called.1))
    | inr e ↦ rw e (retry_due-added t rs w)
  ]

  range-add_each :
      (key k : String) (rs : List RetryInfo) (m : retries.Map)
      → range retries (add_each platform key rs m) k
        ≡ (if key == k then range retries m k ++ rs else range retries m k)
  unfolding add_each
  range-add_each key k [] m = elim (Bool-cases (key == k)) [
    | inl e ↦ rw e (sym (append-nil (range retries m k)))
    | inr e ↦ rw e refl
  ]
  range-add_each key k (r ∷ rs) m =
      let one = (add_item-remove_key retries m key k (r ∷ [])).0 in
      let rest = range-add_each key k rs (add_item retries m key (r ∷ [])) in
      elim (Bool-cases (key == k)) [
        | inl e ↦
            rest
            ∙ rw e (
                ap (λ xs. xs ++ rs) (one ∙ rw e refl)
                ∙ append_assoc (range retries m k) (r ∷ []) rs)
        | inr e ↦ rest ∙ rw e (one ∙ rw e refl)
      ]

  -- The retries of the key that a tick makes, with what it adds again and the world after them.
  abbrev pub made : ℕ → String → World platform → List RetryInfo × World platform
  made t key w = retry_due platform t (range retries w.controller.to_retry key) w

  -- A tick for a key calls each retry of the key that is due once, in the order in which they
  -- wait, and calls nothing else.
  pub calls-tick_key :
      (t : ℕ) (key : String) (w : World platform)
      → calls (tick_key platform t key w).history
        ≡ calls w.history
          ++ map (λ r. r.retry_func) (filter (is_due t) (range retries w.controller.to_retry key))
  unfolding tick_key set_retries
  calls-tick_key t key w = retry_due-calls t (range retries w.controller.to_retry key) w

  left_by_tick :
      (t : ℕ) (key k : String) (w : World platform)
      → range retries (tick_key platform t key w).controller.to_retry k ≡ (
          if key == k
          then filter (λ r. not (is_due t r)) (range retries w.controller.to_retry k)
            ++ (made t key w).0
          else range retries w.controller.to_retry k)
  unfolding tick_key set_retries
  left_by_tick t key k w =
      let removed = (removed-filter retries w.controller.to_retry key k (λ r. is_due t r)).0 in
      range-add_each key k (made t key w).0
        (remove_items retries w.controller.to_retry key (λ r. is_due t r) 0).0
      ∙ elim (Bool-cases (key == k)) [
        | inl e ↦ rw e (ap (λ xs. xs ++ (made t key w).0) (removed ∙ rw e refl))
        | inr e ↦ rw e (removed ∙ rw e (filter-all (range retries w.controller.to_retry k)))
      ]

  -- After a tick for a key, the retries that were not due wait as before, in front of those that
  -- the tick added again; none of the key is due any more; and other keys have what they had.
  pub tick_key_leaves :
      (t : ℕ) (key k : String) (w : World platform)
      → (range retries (tick_key platform t key w).controller.to_retry k ≡ (
          if key == k
          then filter (λ r. not (is_due t r)) (range retries w.controller.to_retry k)
            ++ (made t key w).0
          else range retries w.controller.to_retry k))
        × (filter (is_due t) (range retries (tick_key platform t key w).controller.to_retry key)
            ≡ [])
  tick_key_leaves t key k w =
      let stay = filter (λ r. not (is_due t r)) (range retries w.controller.to_retry key) in
      (
        left_by_tick t key k w,
        ap (filter (is_due t)) (left_by_tick t key key w)
            ∙ rw (eq_refl key) (
                filter-append (is_due t) stay (made t key w).0
                ∙ rw (filter_excluded (is_due t) (range retries w.controller.to_retry key))
                    (retry_due-added t (range retries w.controller.to_retry key) w)),
      )
