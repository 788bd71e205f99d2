-- ===== src/Operator/Finalizers/Calls.antt =====
-- The finalizer operations call nothing but the client.
use grafana_app_sdk.Base.{
  ℕ, zero, suc, String, ◌∷◌, Bool, none, some, inl, inr, contains, Bool-cases, Option-cases,
}
use grafana_app_sdk.Resource.Object.{Object}
use grafana_app_sdk.Operator.Io.{Err, Call, Env, Log, Outcome, Io}
use grafana_app_sdk.Operator.Trace.{Grows, stay, more, Grows-trans, AllowsClient, Grows-if}
use grafana_app_sdk.Operator.Finalizers.{
  do_add_finalizer, do_remove_finalizer, do_replace_finalizer, retry_on_conflict, add_finalizer,
  replace_finalizer, remove_finalizer,
}

module _ (is_conflict : Err → Bool) (env : Env) {P : Call → Type 0} (client : AllowsClient P) where
  do_add_finalizer-Grows :
      (f : String) (o : Object) (w : Log) → Grows P w (do_add_finalizer env o f w).1
  unfolding do_add_finalizer
  do_add_finalizer-Grows f o w =
      Grows-if (contains o.finalizers f) _ _ (λ _. stay) (λ _. more stay (client.0 _ _))

  do_remove_finalizer-Grows :
      (f : String) (o : Object) (w : Log) → Grows P w (do_remove_finalizer env o f w).1
  unfolding do_remove_finalizer
  do_remove_finalizer-Grows f o w =
      Grows-if (contains o.finalizers f) _ _ (λ _. more stay (client.0 _ _)) (λ _. stay)

  do_replace_finalizer-Grows :
      (a b : String) (o : Object) (w : Log) → Grows P w (do_replace_finalizer env o a b w).1
  unfolding do_replace_finalizer
  do_replace_finalizer-Grows a b o w =
      Grows-if (contains o.finalizers b) _ _
        (λ _.
          Grows-if (contains o.finalizers a) _ _ (λ _. do_remove_finalizer-Grows a o w) (λ _. stay))
        (λ _.
          Grows-if (contains o.finalizers a) _ _ (λ _. more stay (client.0 _ _))
            (λ _. do_add_finalizer-Grows a o w))

  retry_on_conflict-Grows :
      (attempt : Object → Io Outcome)
      → ((o : Object) (w : Log) → Grows P w (attempt o w).1)
      → (n : ℕ) (out : Outcome) (w : Log)
      → Grows P w (retry_on_conflict is_conflict env attempt n out w).1
  unfolding retry_on_conflict
  retry_on_conflict-Grows attempt step zero out w = stay
  retry_on_conflict-Grows attempt step (suc n) (o, none) w = stay
  retry_on_conflict-Grows attempt step (suc n) (o, some e) w =
      let r = env w (Call.get_into o) in
      let w' = (Call.get_into o, r) ∷ w in
      let read : Grows P w w' = more stay (client.1 o) in
      let next = attempt r.object w' in
      elim (Bool-cases (is_conflict e)) [
        | inr c ↦ rw (c, retry_on_conflict) stay
        | inl c ↦
            rw (c, retry_on_conflict)
              (elim (Option-cases r.error) [
                | inr (e', f) ↦ rw f read
                | inl f ↦ rw f (
                    Grows-trans (Grows-trans read (step r.object w'))
                      (retry_on_conflict-Grows attempt step n next.0 next.1))
              ])
      ]

  pub add_finalizer-Grows :
      (o : Object) (f : String) (w : Log) → Grows P w (add_finalizer is_conflict env o f w).1
  unfolding add_finalizer
  add_finalizer-Grows o f w =
      Grows-trans (do_add_finalizer-Grows f o w)
        (retry_on_conflict-Grows (λ o'. do_add_finalizer env o' f) (do_add_finalizer-Grows f) 3 _ _)

  pub remove_finalizer-Grows :
      (o : Object) (f : String) (w : Log) → Grows P w (remove_finalizer is_conflict env o f w).1
  unfolding remove_finalizer
  remove_finalizer-Grows o f w = Grows-trans (do_remove_finalizer-Grows f o w) (
      retry_on_conflict-Grows (λ o'. do_remove_finalizer env o' f) (do_remove_finalizer-Grows f) 3 _
        _)

  pub replace_finalizer-Grows :
      (o : Object) (a b : String) (w : Log)
      → Grows P w (replace_finalizer is_conflict env o a b w).1
  unfolding replace_finalizer
  replace_finalizer-Grows o a b w = Grows-trans (do_replace_finalizer-Grows a b o w) (
      retry_on_conflict-Grows (λ o'. do_replace_finalizer env o' a b)
        (do_replace_finalizer-Grows a b) 3 _ _)
