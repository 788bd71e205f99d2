-- ===== src/K8s/Client/Requests.antt =====
-- What the requests of the Kubernetes client do to the objects that the server stores.
use grafana_app_sdk.Base.{
  String, ◌≡◌, ◌≢◌, ◌⊎◌, inl, inr, refl, sym, ap, subst, ◌∙◌, Bool, true, false, Option, none, some,
  Option-cases,
}
use grafana_app_sdk.Resource.Object.{Object}
use grafana_app_sdk.Resource.Client.{
  Identifier, Kind, UpdateOptions, Failure, History, Result, Objects, written,
}
use grafana_app_sdk.K8s.Errors.{code_of, LacksCode}
use grafana_app_sdk.K8s.Client.{
  ResourcePath, path, same_resource, Request, Reply, Api, Requests, Codecs, set_static_metadata,
  send, reply_result, read_into, object_result, send_body, gv_create, gv_update, create_checked,
  requests_of,
}

-- The documented behaviour of an API server, of `apierrors.IsNotFound` and of the codecs, on a
-- network that loses no request and no answer, so that an error means that nothing was written.
pub record IsApi (codecs : Codecs) (api : Api) (is_not_found : Failure → Bool) : Type 0 where
  -- What is stored for a resource, as the server would send it.
  pub stored : Requests → ResourcePath → Option String
  pub get_keeps :
      (x : Requests) (p q : ResourcePath)
      → stored (send codecs api (Request.get p) x).1 q ≡ stored x q
  pub get_stored :
      (x : Requests) (p : ResourcePath)
      → (api x (Request.get p)).error ≡ none
      → stored x p ≡ some (api x (Request.get p)).raw
  -- A resource that is stored is not reported as missing.
  pub get_found :
      (x : Requests) (p : ResourcePath) (b : String) (e : Failure)
      → stored x p ≡ some b
      → (api x (Request.get p)).error ≡ some e
      → let r = api x (Request.get p) in LacksCode codecs.read_status 404 r.raw r.code e
  -- A created object stands under its own name.
  pub post_stored :
      (x : Requests) (p : ResourcePath) (k : Kind) (o : Object) (b : String)
      → codecs.write k o ≡ inr b
      → let q = Request.post (record p { name = "" }) false b in
        stored (send codecs api q x).1 (record p { name = o.name })
        ≡ written (api x q).error (some (api x q).raw) (stored x (record p { name = o.name }))
  pub post_apart :
      (x : Requests) (p q : ResourcePath) (k : Kind) (o : Object) (b : String) (dry : Bool)
      → codecs.write k o ≡ inr b
      → same_resource (record p { name = o.name }) q ≡ false
      → stored (send codecs api (Request.post (record p { name = "" }) dry b) x).1 q ≡ stored x q
  pub put_stored :
      (x : Requests) (p : ResourcePath) (sub b : String)
      → let q = Request.put p sub false b in
        stored (send codecs api q x).1 p ≡ written (api x q).error (some (api x q).raw) (stored x p)
  pub put_apart :
      (x : Requests) (p q : ResourcePath) (sub b : String) (dry : Bool)
      → same_resource p q ≡ false
      → stored (send codecs api (Request.put p sub dry b) x).1 q ≡ stored x q
  -- A version in the object that is sent is a condition.
  pub put_mismatch :
      (x : Requests) (p : ResourcePath) (k : Kind) (o : Object) (sub b old v : String) (dry : Bool)
      → codecs.write k o ≡ inr b
      → stored x p ≡ some old
      → codecs.read_version old ≡ inr v
      → o.resource_version ≢ ""
      → o.resource_version ≢ v
      → (api x (Request.put p sub dry b)).error ≢ none
  -- What is stored can be read, as an object of its kind and as metadata.
  pub readable :
      (x : Requests) (k : Kind) (i : Identifier) (b : String)
      → stored x (path codecs.plural k i) ≡ some b
      → (o : Object) × (codecs.read k b ≡ inr o) × (codecs.read_version b ≡ inr o.resource_version)
  pub not_found_code : (e : Failure) → is_not_found e ≡ true → code_of e ≡ some 404

module _ (codecs : Codecs) (api : Api) (is_not_found : Failure → Bool)
    (contract : IsApi codecs api is_not_found) where
  open codecs use {plural, read, write, read_version}

  -- The stored objects, as the codec reads them.
  abbrev pub decoded : Failure ⊎ Object → Option Object
  decoded (inl e) = none
  decoded (inr o) = some o

  abbrev pub decode : Kind → Option String → Option Object
  decode k none = none
  decode k (some b) = decoded (read k b)

  abbrev pub objects_at : Requests → Objects
  objects_at x k i = decode k (contract.stored x (path plural k i))

  abbrev pub objects : History → Objects
  objects h = objects_at (requests_of codecs api h)

  -- The answer to a request whose body, if it is accepted, can be read.
  result_written :
      (k : Kind) (r : Reply) (old : Option String)
      → (r.error ≡ none → (o : Object) × (read k r.raw ≡ inr o))
      → decode k (written r.error (some r.raw) old)
        ≡ written (object_result codecs api k r).1 (object_result codecs api k r).0 (decode k old)
  unfolding object_result reply_result read_into
  result_written k r old can = elim (Option-cases r.error) [
    | inl n ↦ let (o, s) = can n in rw (n, s) refl
    | inr (e, n) ↦ rw n refl
  ]

  pub result_fails :
      (k : Kind) (r : Reply) → r.error ≢ none → (object_result codecs api k r).1 ≢ none
  unfolding object_result reply_result
  result_fails k r h = elim (Option-cases r.error) [
    | inl n ↦ absurd (h n)
    | inr (e, n) ↦ rw n (λ x. cc)
  ]

  -- What was written can be read.
  can_read :
      (x : Requests) (k : Kind) (i : Identifier) (e : Option Failure) (raw : String)
      → (old : Option String) → contract.stored x (path plural k i) ≡ written e (some raw) old
      → e ≡ none
      → (o : Object) × (read k raw ≡ inr o)
  can_read x k i e raw old s n =
      let (o, r, v) = contract.readable x k i raw (s ∙ ap (λ e. written e (some raw) old) n) in
      (o, r)

  abbrev pub IsOwn : Kind → Identifier → Requests → Result × Requests → Type 0
  IsOwn k i x r = objects_at r.1 k i ≡ written r.0.1 r.0.0 (objects_at x k i)

  abbrev pub IsApart : Kind → Identifier → Requests → Result × Requests → Type 0
  IsApart k i x r =
      (q : ResourcePath)
      → same_resource (path plural k i) q ≡ false
      → contract.stored r.1 q ≡ contract.stored x q

  after_same :
      (k : Kind) (r : Result) {s t : Option String}
      → s ≡ t
      → written r.1 r.0 (decode k s) ≡ written r.1 r.0 (decode k t)
  after_same k r e = ap (λ s. written r.1 r.0 (decode k s)) e

  send_body-IsOwn :
      (x : Requests) (k : Kind) (i : Identifier) (w : Failure ⊎ String) (request : String → Request)
      → ((b : String)
          → w ≡ inr b
          → let r = api x (request b) in
            let p = path plural k i in
            contract.stored (send codecs api (request b) x).1 p
            ≡ written r.error (some r.raw) (contract.stored x p))
      → IsOwn k i x (send_body codecs api k w request x)
  unfolding send_body send
  send_body-IsOwn x k i (inl e) request h = refl
  send_body-IsOwn x k i (inr b) request h =
      let r = api x (request b) in
      let old = contract.stored x (path plural k i) in
      ap (decode k) (h b refl)
      ∙ result_written k r old (can_read _ k i r.error r.raw old (h b refl))

  send_body-IsApart :
      (x : Requests) (k : Kind) (i : Identifier) (w : Failure ⊎ String) (request : String → Request)
      → ((b : String) (q : ResourcePath)
          → w ≡ inr b
          → same_resource (path plural k i) q ≡ false
          → contract.stored (send codecs api (request b) x).1 q ≡ contract.stored x q)
      → IsApart k i x (send_body codecs api k w request x)
  unfolding send_body send
  send_body-IsApart x k i (inl e) request h q d = refl
  send_body-IsApart x k i (inr b) request h q d = h b q refl d

  pub send_body_fails :
      (x : Requests) (k : Kind) (w : Failure ⊎ String) (request : String → Request)
      → ((b : String) → w ≡ inr b → (api x (request b)).error ≢ none)
      → (send_body codecs api k w request x).0.1 ≢ none
  unfolding send_body send
  send_body_fails x k (inl e) request h = λ y. cc
  send_body_fails x k (inr b) request h = result_fails k (api x (request b)) (h b refl)

  pub create_checked-lem :
      (e : Option Failure) (x : Requests) (k : Kind) (i : Identifier) (o : Object)
      → let r = create_checked codecs api e k (set_static_metadata k i o) false x in
        IsOwn k i x r × IsApart k i x r
  unfolding create_checked gv_create set_static_metadata
  create_checked-lem (some e) x k i o = (refl, λ q d. refl)
  create_checked-lem none x k i o = (
    send_body-IsOwn x k i _ _ (λ b. contract.post_stored x (path plural k i) k _ b),
    send_body-IsApart x k i _ _ (λ b q w. contract.post_apart x (path plural k i) q k _ b false w),
  )

  -- An update after requests that changed nothing.
  pub gv_update-lem :
      (x y : Requests) (k : Kind) (i : Identifier) (o : Object) (v : String) (opts : UpdateOptions)
      → ((q : ResourcePath) → contract.stored y q ≡ contract.stored x q)
      → let r =
          gv_update codecs api k
            (record (set_static_metadata k i o) { resource_version = v })
            opts
            y in
        (opts.dry_run ≡ false → IsOwn k i x r) × IsApart k i x r
  unfolding gv_update set_static_metadata
  gv_update-lem x y k i o v opts same = (
    λ real.
        send_body-IsOwn y k i _ _ (λ b w.
          subst
            (λ dry.
              let q = Request.put (path plural k i) opts.subresource dry b in
              contract.stored (send codecs api q y).1 (path plural k i)
              ≡ written (api y q).error (some (api y q).raw) (contract.stored y (path plural k i)))
            (sym real) (contract.put_stored y (path plural k i) opts.subresource b))
        ∙ after_same k (gv_update codecs api k _ opts y).0 (same (path plural k i)),
    λ q d.
        send_body-IsApart y k i _ _
          (λ b q w. contract.put_apart y (path plural k i) q opts.subresource b opts.dry_run) q d
        ∙ same q,
  )
