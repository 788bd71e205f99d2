-- ===== src/K8s/Client/Refines.antt =====
-- The contract of `resource.Client`, by the Kubernetes client and the server that it talks to.
use grafana_app_sdk.Base.{
  ℕ, String, ◌∷◌, ◌≡◌, ◌≢◌, ◌⊎◌, inl, inr, refl, sym, ap, subst, ◌∙◌, Bool, true, false, Option,
  none, some, if◌then◌else◌, ◌==◌, nat_eq, Bool-cases, Option-cases, ==_of_ne, arith,
}
use grafana_app_sdk.Resource.Object.{Object}
use grafana_app_sdk.Resource.Client.{
  Identifier, Kind, UpdateOptions, Failure, Call, History, Result, IsClient,
}
use grafana_app_sdk.K8s.Errors.{code_of, parse_kubernetes_error, parse-LacksCode}
use grafana_app_sdk.K8s.Client.{
  ResourcePath, path, same_resource, Request, Reply, Api, Requests, Codecs, answer,
  set_static_metadata, scope_error, send, reply_result, read_into, object_result, gv_get,
  get_metadata, marshal, gv_create, gv_update, create_checked, create_into, update_read,
  update_versioned, update_into, client_call, requests_of, client_server,
}
use grafana_app_sdk.K8s.Client.Requests.{
  IsApi, decoded, decode, objects_at, objects, IsOwn, IsApart, result_fails, send_body_fails,
  create_checked-lem, gv_update-lem,
}
pub mod Stores

same_error : {a b : Failure} → some a ≡ some b → a ≡ b
same_error h = cc h

same_version : {a b : Object} → some a ≡ some b → a.resource_version ≡ b.resource_version
same_version h = cc h

module _ (codecs : Codecs) (api : Api) (is_not_found : Failure → Bool)
    (contract : IsApi codecs api is_not_found) where
  open codecs use {plural, read, write, read_version}

  abbrev to_object : Kind → Option String → Option Object
  to_object = decode codecs api is_not_found contract

  abbrev pub Own : Kind → Identifier → Requests → Result × Requests → Type 0
  Own = IsOwn codecs api is_not_found contract

  abbrev pub Apart : Kind → Identifier → Requests → Result × Requests → Type 0
  Apart = IsApart codecs api is_not_found contract

  get_keeps :
      (k : Kind) (i : Identifier) (x : Requests) (q : ResourcePath)
      → contract.stored (get_metadata codecs api k i x).1 q ≡ contract.stored x q
  unfolding get_metadata
  get_keeps k i x q = contract.get_keeps x (path plural k i) q

  update_read-lem :
      (m : (Failure ⊎ String) × Requests) (x : Requests) (k : Kind) (i : Identifier) (o : Object)
      → (opts : UpdateOptions) → ((q : ResourcePath) → contract.stored m.1 q ≡ contract.stored x q)
      → let r = update_read codecs api k (set_static_metadata k i o) opts m in
        (opts.dry_run ≡ false → Own k i x r) × Apart k i x r
  unfolding update_read
  update_read-lem (inl e, y) x k i o opts same =
      (λ real. ap (to_object k) (same (path plural k i)), λ q d. same q)
  update_read-lem (inr v, y) x k i o opts same =
      gv_update-lem codecs api is_not_found contract x y k i o v opts same

  update_into-lem :
      (x : Requests) (k : Kind) (i : Identifier) (o : Object) (opts : UpdateOptions)
      → let r = update_into codecs api k i (some o) opts true x in
        (opts.dry_run ≡ false → Own k i x r) × Apart k i x r
  unfolding update_into update_versioned
  update_into-lem x k i o opts = versioned (opts.resource_version == "")
    where
      versioned :
          (b : Bool)
          → let r =
              if b
              then update_read codecs api k
                  (set_static_metadata k i o)
                  opts
                  (get_metadata codecs api k i x)
              else gv_update codecs api k
                  (record (set_static_metadata k i o) { resource_version = opts.resource_version })
                  opts
                  x in
            (opts.dry_run ≡ false → Own k i x r) × Apart k i x r
      versioned true =
          update_read-lem (get_metadata codecs api k i x) x k i o opts (get_keeps k i x)
      versioned false =
          gv_update-lem codecs api is_not_found contract x x k i o opts.resource_version opts
            (λ q. refl)

  -- The reply to a get request, and what is stored.
  got_stored :
      (k : Kind) (i : Identifier) (r : Reply) (s : Option String)
      → (r.error ≡ none → s ≡ some r.raw)
      → ((b : String)
          → s ≡ some b
          → (o : Object) × (read k b ≡ inr o) × (read_version b ≡ inr o.resource_version))
      → (object_result codecs api k r).1 ≡ none
      → (o : Object) × ((object_result codecs api k r).0 ≡ some o) × (to_object k s ≡ some o)
  unfolding object_result reply_result read_into
  got_stored k i r s kept can h = elim (Option-cases r.error) [
    | inr (e, n) ↦ absurd (result_fails codecs api is_not_found contract k r (λ z. cc (z, n)) h)
    | inl n ↦
        let (o, t, v) = can r.raw (kept n) in
        (
          o,
          rw (n, t) refl,
          ap (to_object k) (kept n) ∙ ap (decoded codecs api is_not_found contract) t,
        )
  ]

  read_failed :
      (w : Failure ⊎ Object) (e : Failure)
      → (read_into codecs api w).1 ≡ some e
      → ((read_into codecs api w).0 ≡ none) × (w ≡ inl e)
  unfolding read_into
  read_failed (inl a) e h = (refl, ap inl (same_error h))
  read_failed (inr o) e h = cc h

  -- A get request whose reply has an error, or whose body cannot be read.
  got_error :
      (k : Kind) (r : Reply) (e : Failure)
      → (object_result codecs api k r).1 ≡ some e
      → ((object_result codecs api k r).0 ≡ none)
        × (((r.error ≡ none) × (read k r.raw ≡ inl e))
            ⊎ ((f : Failure) × (r.error ≡ some f)
                × (e ≡ parse_kubernetes_error codecs.read_status r.raw r.code f)))
  unfolding object_result reply_result
  got_error k r e h = elim (Option-cases r.error) [
    | inr (f, n) ↦
        let p : object_result codecs api k r
            ≡ (none, some (parse_kubernetes_error codecs.read_status r.raw r.code f)) =
          rw n refl in
        (ap (λ z. z.0) p, inr (f, n, same_error (sym h ∙ ap (λ z. z.1) p)))
    | inl n ↦
        let p : object_result codecs api k r ≡ read_into codecs api (read k r.raw) = rw n refl in
        let (a, b) = read_failed (read k r.raw) e (ap (λ z. z.1) (sym p) ∙ h) in
        (ap (λ z. z.0) p ∙ a, inl (n, b))
  ]

  -- What the client knows of a resource that it does not find.
  not_found_missing :
      (x : Requests) (k : Kind) (i : Identifier) (e : Failure)
      → (gv_get codecs api k i x).0.1 ≡ some e
      → is_not_found e ≡ true
      → contract.stored x (path plural k i) ≡ none
  unfolding gv_get send
  not_found_missing x k i e h gone =
      let p = path plural k i in
      let r = api x (Request.get p) in
      elim (Option-cases (contract.stored x p)) [
        | inl s ↦ s
        | inr (b, s) ↦ elim ((got_error k r e h).1) [
          | inl (n, t) ↦
              let (o, u, v) = contract.readable x k i r.raw (contract.get_stored x p n) in cc (t, u)
          | inr (f, n, t) ↦ absurd (
              parse-LacksCode codecs.read_status 404 r.raw r.code f (λ z. omega arith)
                (contract.get_found x p b f s n)
                (sym (ap code_of t) ∙ contract.not_found_code e gone))
        ]
      ]

  stale_update :
      (x : Requests) (k : Kind) (i : Identifier) (o old : Object) (opts : UpdateOptions)
      → to_object k (contract.stored x (path plural k i)) ≡ some old
      → opts.resource_version ≢ ""
      → opts.resource_version ≢ old.resource_version
      → (update_into codecs api k i (some o) opts true x).0.1 ≢ none
  unfolding update_into update_versioned gv_update set_static_metadata
  stale_update x k i o old opts there named other =
      let p = path plural k i in
      rw (==_of_ne opts.resource_version "" named) (
        send_body_fails codecs api is_not_found contract x k _ _ (λ c w.
          elim (Option-cases (contract.stored x p)) [
            | inl s ↦ cc (sym there ∙ ap (to_object k) s)
            | inr (b, s) ↦
                let (a, t, v) = contract.readable x k i b s in
                let same : some a ≡ some old =
                  sym (ap (to_object k) s ∙ ap (decoded codecs api is_not_found contract) t)
                  ∙ there in
                contract.put_mismatch x p k _ opts.subresource c b a.resource_version opts.dry_run w
                  s v named (λ z. other (z ∙ same_version same))
          ]))

  -- What the contract says of the client, with the stored objects as the codec reads them.
  pub as_client :
      (is_conflict : Failure → Bool) → IsClient (client_server codecs api) is_not_found is_conflict
  unfolding client_call send create_into requests_of gv_get
  as_client is_conflict = record {
    stored = objects codecs api is_not_found contract;
    related = λ k i l j. same_resource (path plural k i) (path plural l j);
    after_get = λ h k i l j.
        ap (to_object l)
          (contract.get_keeps (requests_of codecs api h) (path plural k i) (path plural l j));
    after_create = λ h k i o.
        (create_checked-lem codecs api is_not_found contract (scope_error k i)
          (requests_of codecs api h) k i o).0;
    after_update = λ h k i o opts. (update_into-lem (requests_of codecs api h) k i o opts).0;
    create_apart = λ h k i o l j b. ap (to_object l) (
        (create_checked-lem codecs api is_not_found contract (scope_error k i)
            (requests_of codecs api h) k i o).1
          (path plural l j) b);
    update_apart = λ h k i o opts l j b.
        ap (to_object l)
          ((update_into-lem (requests_of codecs api h) k i o opts).1 (path plural l j) b);
    get_ok = λ h k i.
        got_stored k i (api (requests_of codecs api h) (Request.get (path plural k i))) _
          (contract.get_stored (requests_of codecs api h) (path plural k i))
          (contract.readable (requests_of codecs api h) k i);
    get_failed = λ h k i e s. (got_error k _ e s).0;
    get_missing = λ h k i e s gone.
        ap (to_object k) (not_found_missing (requests_of codecs api h) k i e s gone);
    update_mismatch = λ h k i o old opts. stale_update (requests_of codecs api h) k i o old opts;
  }

  -- If the server, the codecs and the test for missing resources behave as documented, then the
  -- client of Kubernetes is a client as the interface documents it. The stored objects of that
  -- contract are what the codecs read of what the server holds, and two keys are related only if
  -- their requests name one resource, maybe in two versions.
  pub client_server-IsClient :
      (is_conflict : Failure → Bool)
      → (c : IsClient (client_server codecs api) is_not_found is_conflict) × ((h : History)
            (k : Kind) (i : Identifier)
          → c.stored h k i ≡ objects codecs api is_not_found contract h k i)
        × ((k : Kind) (i : Identifier) (l : Kind) (j : Identifier)
            → c.related k i l j ≡ same_resource (path plural k i) (path plural l j))
  unfolding as_client
  client_server-IsClient is_conflict = (as_client is_conflict, λ h k i. refl, λ k i l j. refl)
