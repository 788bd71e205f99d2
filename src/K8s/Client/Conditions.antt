-- ===== src/K8s/Client/Conditions.antt =====
-- The requests of an update by the Kubernetes client.
use grafana_app_sdk.Base.{
  String, ◌≡◌, ◌⊎◌, inl, inr, refl, true, none, some, ◌==◌, Bool, false, if◌then◌else◌,
}
use grafana_app_sdk.Resource.Object.{Object}
use grafana_app_sdk.Resource.Client.{Identifier, Kind, UpdateOptions, Failure, Result}
use grafana_app_sdk.K8s.Client.{
  path, Request, Api, Requests, Codecs, set_static_metadata, send, get_metadata, marshal, send_body,
  gv_update, update_read, update_versioned, update_into,
}

module _ (codecs : Codecs) (api : Api) where
  -- The object as an update with this version sends it.
  abbrev pub sent : Kind → Identifier → Object → String → Failure ⊎ String
  sent k i o v = marshal codecs api k (record (set_static_metadata k i o) { resource_version = v })

  -- One put request with the object of this version, or none and an error if it cannot be written.
  abbrev pub PutsVersion :
      Kind → Identifier → Object → UpdateOptions → String → Requests → Result × Requests → Type 0
  PutsVersion k i o opts v x r =
      ((e : Failure) × (sent k i o v ≡ inl e) × (r ≡ ((none, some e), x)))
      ⊎ ((b : String) × (sent k i o v ≡ inr b)
          × (r.1
              ≡ (send codecs api
                  (Request.put (path codecs.plural k i) opts.subresource opts.dry_run b) x).1))

  puts :
      (k : Kind) (i : Identifier) (o : Object) (opts : UpdateOptions) (v : String) (x : Requests)
      → PutsVersion k i o opts v x (
          gv_update codecs api k
            (record (set_static_metadata k i o) { resource_version = v })
            opts
            x)
  unfolding gv_update set_static_metadata send_body
  puts k i o opts v x = by_body (sent k i o v) refl
    where
      put : String → Request
      put = Request.put (path codecs.plural k i) opts.subresource opts.dry_run

      by_body :
          (w : Failure ⊎ String)
          → sent k i o v ≡ w
          → ((e : Failure) × (sent k i o v ≡ inl e)
              × (send_body codecs api k w put x ≡ ((none, some e), x)))
            ⊎ ((b : String) × (sent k i o v ≡ inr b)
                × ((send_body codecs api k w put x).1 ≡ (send codecs api (put b) x).1))
      by_body (inl e) s = inl (e, s, refl)
      by_body (inr b) s = inr (b, s, refl)

  -- The metadata are read first, if that is so, and the version that was read is sent.
  abbrev pub Conditional :
      Bool → Kind → Identifier → Object → UpdateOptions → Requests → Result × Requests → Type 0
  Conditional false k i o opts x r = PutsVersion k i o opts opts.resource_version x r
  Conditional true k i o opts x r =
      let (read, y) = get_metadata codecs api k i x in
      ((e : Failure) × (read ≡ inl e) × (r ≡ ((none, some e), y)))
      ⊎ ((v : String) × (read ≡ inr v) × PutsVersion k i o opts v y r)

  -- `UpdateInto`: an update with a version sends the object with that version in one put request;
  -- one without a version first reads the metadata, whose error it returns, and sends the object
  -- with the version that it has read. An object that cannot be written is not sent.
  pub update_into-Conditional :
      (x : Requests) (k : Kind) (i : Identifier) (o : Object) (opts : UpdateOptions)
      → Conditional
          (opts.resource_version == "")
          k
          i
          o
          opts
          x
          (update_into codecs api k i (some o) opts true x)
  unfolding update_into update_versioned update_read
  update_into-Conditional x k i o opts = by_version (opts.resource_version == "")
    where
      read_first :
          (m : (Failure ⊎ String) × Requests)
          → let r = update_read codecs api k (set_static_metadata k i o) opts m in
            ((e : Failure) × (m.0 ≡ inl e) × (r ≡ ((none, some e), m.1)))
            ⊎ ((v : String) × (m.0 ≡ inr v) × PutsVersion k i o opts v m.1 r)
      read_first (inl e, y) = inl (e, refl, refl)
      read_first (inr v, y) = inr (v, refl, puts k i o opts v y)

      by_version :
          (b : Bool)
          → Conditional b k i o opts x (
              if b
              then update_read codecs api k
                  (set_static_metadata k i o)
                  opts
                  (get_metadata codecs api k i x)
              else gv_update codecs api k
                  (record (set_static_metadata k i o) { resource_version = opts.resource_version })
                  opts
                  x)
      by_version true = read_first (get_metadata codecs api k i x)
      by_version false = puts k i o opts opts.resource_version x
