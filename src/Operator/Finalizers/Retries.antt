-- ===== src/Operator/Finalizers/Retries.antt =====
-- The conflict loops of operator/finalizers.go: what a successful call leaves on the object that
-- it hands back, however often it had to read the object again, and how many calls it makes.
use grafana_app_sdk.Base.{
  ℕ, zero, suc, ◌+◌, ◌*◌, ◌≤◌, ◌≡◌, String, ◌∷◌, Bool, true, false, ◌||◌, none, some, not, List, [],
  ◌++◌, length, contains, ◌==◌, eq_iff, contains-append, arith,
}
use grafana_app_sdk.Resource.Object.{Object}
use grafana_app_sdk.Operator.Io.{Err, Call, Env, Log, Outcome, Io}
use grafana_app_sdk.Operator.Finalizers.{
  do_add_finalizer, do_remove_finalizer, do_replace_finalizer, retry_on_conflict, add_finalizer,
  replace_finalizer, remove_finalizer,
}
use grafana_app_sdk.Operator.Finalizers.Patches.{
  IsPatchServer, replaced, contains-added, contains-swap_first, contains-without,
  contains-without_self, finalizers-do_add_finalizer, finalizers-do_remove_finalizer,
  finalizers-do_replace_finalizer,
}

not-true : (b : Bool) → not b ≡ true → b ≡ false
not-true b h = ground arith

module _ (is_conflict : Err → Bool) (env : Env) where
  -- What every successful attempt gives, the loop gives.
  pub retry_on_conflict_success :
      (p : Object → Bool) (attempt : Object → Io Outcome)
      → ((o : Object) (w : Log) → (attempt o w).0.1 ≡ none → p (attempt o w).0.0 ≡ true)
      → (n : ℕ) (out : Outcome) (w : Log) → (out.1 ≡ none → p out.0 ≡ true)
      → (retry_on_conflict is_conflict env attempt n out w).0.1 ≡ none
      → p (retry_on_conflict is_conflict env attempt n out w).0.0 ≡ true
  unfolding retry_on_conflict
  retry_on_conflict_success p attempt step zero out w now h = now h
  retry_on_conflict_success p attempt step (suc n) (o, none) w now h = now h
  retry_on_conflict_success p attempt step (suc n) (o, some e) w now h =
      let r = env w (Call.get_into o) in
      let next = attempt r.object ((Call.get_into o, r) ∷ w) in
      ground (
        arith,
        retry_on_conflict_success p attempt step n next.0 next.1
            (step r.object ((Call.get_into o, r) ∷ w)),
      )

  -- One read and one attempt for each round.
  pub length-retry_on_conflict :
      (attempt : Object → Io Outcome)
      → ((o : Object) (w : Log) → length (attempt o w).1 ≤ suc (length w))
      → (n : ℕ) (out : Outcome) (w : Log)
      → length (retry_on_conflict is_conflict env attempt n out w).1 ≤ 2 * n + length w
  unfolding retry_on_conflict
  length-retry_on_conflict attempt step zero out w = omega arith
  length-retry_on_conflict attempt step (suc n) (o, none) w = omega arith
  length-retry_on_conflict attempt step (suc n) (o, some e) w =
      let r = env w (Call.get_into o) in
      let next = attempt r.object ((Call.get_into o, r) ∷ w) in
      ground (
        arith,
        step r.object ((Call.get_into o, r) ∷ w),
        length-retry_on_conflict attempt step n next.0 next.1,
      )

  do_replace_finalizer_one_call :
      (a b : String) (o : Object) (w : Log)
      → length (do_replace_finalizer env o a b w).1 ≤ suc (length w)
  unfolding do_replace_finalizer do_add_finalizer do_remove_finalizer
  do_replace_finalizer_one_call a b o w = ground arith

  do_add_finalizer_one_call :
      (f : String) (o : Object) (w : Log) → length (do_add_finalizer env o f w).1 ≤ suc (length w)
  unfolding do_add_finalizer
  do_add_finalizer_one_call f o w = ground arith

  do_remove_finalizer_one_call :
      (f : String) (o : Object) (w : Log)
      → length (do_remove_finalizer env o f w).1 ≤ suc (length w)
  unfolding do_remove_finalizer
  do_remove_finalizer_one_call f o w = ground arith

  -- Each of the three operations ends after at most seven calls of the client, whatever the client
  -- answers: four patches and three reads.
  pub finalizer_calls_bounded :
      (o : Object) (f g : String) (w : Log)
      → (length (add_finalizer is_conflict env o f w).1 ≤ length w + 7)
        × (length (replace_finalizer is_conflict env o f g w).1 ≤ length w + 7)
        × (length (remove_finalizer is_conflict env o f w).1 ≤ length w + 7)
  unfolding add_finalizer replace_finalizer remove_finalizer
  finalizer_calls_bounded o f g w = (
    bound (λ o'. do_add_finalizer env o' f) (do_add_finalizer_one_call f),
    bound (λ o'. do_replace_finalizer env o' f g) (do_replace_finalizer_one_call f g),
    bound (λ o'. do_remove_finalizer env o' f) (do_remove_finalizer_one_call f),
  )
    where
      bound :
          (attempt : Object → Io Outcome)
          → ((o' : Object) (w' : Log) → length (attempt o' w').1 ≤ suc (length w'))
          → length (retry_on_conflict is_conflict env attempt 3 (attempt o w).0 (attempt o w).1).1
            ≤ length w + 7
      bound attempt step =
          omega (
            arith,
            step o w,
            length-retry_on_conflict attempt step 3 (attempt o w).0 (attempt o w).1,
          )

  -- An error that is no conflict ends the operation at once: one attempt, and its error is handed
  -- back.
  pub replace_finalizer_no_retry :
      (o : Object) (a b : String) (w : Log) (e : Err)
      → (do_replace_finalizer env o a b w).0.1 ≡ some e
      → is_conflict e ≡ false
      → replace_finalizer is_conflict env o a b w ≡ do_replace_finalizer env o a b w
  unfolding replace_finalizer retry_on_conflict
  replace_finalizer_no_retry o a b w e h c = ground arith

  module _ (server : IsPatchServer env) where
    -- On an API server that applies JSON patches, an object has the finalizer when adding it
    -- succeeds, however many conflicts came before.
    pub contains-add_finalizer :
        (o : Object) (f : String) (w : Log)
        → (add_finalizer is_conflict env o f w).0.1 ≡ none
        → contains (add_finalizer is_conflict env o f w).0.0.finalizers f ≡ true
    unfolding add_finalizer
    contains-add_finalizer o f w h =
        retry_on_conflict_success (λ o'. contains o'.finalizers f) (λ o'. do_add_finalizer env o' f)
          step 3 _ _ (step o w) h
      where
        step :
            (o' : Object) (w' : Log)
            → (do_add_finalizer env o' f w').0.1 ≡ none
            → contains (do_add_finalizer env o' f w').0.0.finalizers f ≡ true
        step o' w' h' =
            rw (finalizers-do_add_finalizer env server o' f w' h') (contains-added o'.finalizers f)

    -- On such a server, an object is free of the finalizer when removing it succeeds.
    pub contains-remove_finalizer :
        (o : Object) (f : String) (w : Log)
        → (remove_finalizer is_conflict env o f w).0.1 ≡ none
        → contains (remove_finalizer is_conflict env o f w).0.0.finalizers f ≡ false
    unfolding remove_finalizer
    contains-remove_finalizer o f w h = not-true _ (
        retry_on_conflict_success (λ o'. not (contains o'.finalizers f))
          (λ o'. do_remove_finalizer env o' f) step 3 _ _ (step o w) h)
      where
        step :
            (o' : Object) (w' : Log)
            → (do_remove_finalizer env o' f w').0.1 ≡ none
            → not (contains (do_remove_finalizer env o' f w').0.0.finalizers f) ≡ true
        step o' w' h' = rw (
          finalizers-do_remove_finalizer env server o' f w' h',
          contains-without_self o'.finalizers f,
        )

    contains-replaced :
        (xs : List String) (a b : String)
        → (a == b) ≡ false
        → (contains (replaced xs a b) a || contains (replaced xs a b) b) ≡ true
    contains-replaced xs a b h = ground (
      arith,
      contains-without xs a b,
      contains-swap_first xs a b,
      contains-added xs a,
      eq_iff a b,
      eq_iff b a,
    )

    -- On such a server, an object has the old or the new finalizer when replacing the one by the
    -- other succeeds, so a deletion still waits for its owner.
    pub contains-replace_finalizer :
        (o : Object) (a b : String) (w : Log)
        → (a == b) ≡ false
        → (replace_finalizer is_conflict env o a b w).0.1 ≡ none
        → (contains (replace_finalizer is_conflict env o a b w).0.0.finalizers a
            || contains (replace_finalizer is_conflict env o a b w).0.0.finalizers b)
          ≡ true
    unfolding replace_finalizer
    contains-replace_finalizer o a b w ne h =
        retry_on_conflict_success (λ o'. contains o'.finalizers a || contains o'.finalizers b)
          (λ o'. do_replace_finalizer env o' a b) step 3 _ _ (step o w) h
      where
        step :
            (o' : Object) (w' : Log)
            → (do_replace_finalizer env o' a b w').0.1 ≡ none
            → (contains (do_replace_finalizer env o' a b w').0.0.finalizers a
                || contains (do_replace_finalizer env o' a b w').0.0.finalizers b)
              ≡ true
        step o' w' h' =
            rw (finalizers-do_replace_finalizer env server o' a b w' h')
              (contains-replaced o'.finalizers a b ne)

    -- Where an object has neither finalizer, a successful attempt to replace the old one by the
    -- new one adds the old one at the end, and the object still lacks the new one.
    pub do_replace_finalizer_absent :
        (o : Object) (a b : String) (w : Log)
        → (a == b) ≡ false
        → contains o.finalizers a ≡ false
        → contains o.finalizers b ≡ false
        → (do_replace_finalizer env o a b w).0.1 ≡ none
        → ((do_replace_finalizer env o a b w).0.0.finalizers ≡ o.finalizers ++ a ∷ [])
          × (contains (do_replace_finalizer env o a b w).0.0.finalizers b ≡ false)
    do_replace_finalizer_absent o a b w ne na nb h = ground (
      arith,
      finalizers-do_replace_finalizer env server o a b w h,
      contains-append o.finalizers (a ∷ []) b,
    )
