-- ===== src/K8s/Webhooks/Conversions.antt =====
-- What a conversion review is answered with.
use mathlib.Core.List.{append_assoc, append-nil}
use grafana_app_sdk.Base.{
  ℕ, String, List, [], ◌∷◌, ◌++◌, ◌≡◌, refl, sym, subst, ap, ◌∙◌, Bool, Option, none, some, inl,
  inr, Bool-cases, Option-cases,
}
use grafana_app_sdk.K8s.Admission.{AdmissionError, Outcome, ok, failed, Outcome-cases}
use grafana_app_sdk.K8s.Webhooks.{HttpRequest, status, reviewed, lookup}
use grafana_app_sdk.K8s.Webhooks.Convert.{
  ConversionReview, ConversionResponse, TypeMeta, Converter, raw_kind, gk, no_converter,
  convert_one, convert_all, handle_convert_http,
}

module _ (unmarshal_type : String → Outcome TypeMeta)
    (unmarshal_review : String → Option ConversionReview)
    (marshal_fails : ConversionResponse → Bool) (converters : List (String × Converter)) where
  one : String → String → Outcome String × (ℕ × String)
  one = convert_one unmarshal_type unmarshal_review marshal_fails converters

  -- The objects up to the first that fails are converted one by one, each by the converter that is
  -- registered for the group and the kind of its type data. The first object that has no type data,
  -- for which no converter is registered or whose converter fails ends the conversion.
  pub data Conversion (desired : String)
      : List String → List String → Option (ℕ × String) → Type 0 where
    all_converted : Conversion desired [] [] none
    no_type :
        {raw : String} {rest : List String} (e : AdmissionError)
        → unmarshal_type raw ≡ failed e
        → Conversion desired (raw ∷ rest) [] (some (400, e.text))
    not_registered :
        {raw : String} {rest : List String} (t : TypeMeta)
        → unmarshal_type raw ≡ ok t
        → lookup (gk t.group t.kind) converters ≡ none
        → Conversion desired (raw ∷ rest) [] (some (422, no_converter t.kind))
    fails :
        {raw : String} {rest : List String} (t : TypeMeta) (c : Converter) (e : AdmissionError)
        → unmarshal_type raw ≡ ok t
        → lookup (gk t.group t.kind) converters ≡ some c
        → c (raw_kind t raw) desired ≡ failed e
        → Conversion desired (raw ∷ rest) [] (some (500, "Error converting object"))
    converts :
        {raw res : String} {rest outs : List String} {end : Option (ℕ × String)}
        → (t : TypeMeta) (c : Converter) → unmarshal_type raw ≡ ok t
        → lookup (gk t.group t.kind) converters ≡ some c
        → c (raw_kind t raw) desired ≡ ok res
        → Conversion desired rest outs end
        → Conversion desired (raw ∷ rest) (res ∷ outs) end

  -- What the conversion of one object comes to.
  abbrev IsOne : String → String → Outcome String × (ℕ × String) → Type 0
  IsOne desired raw (failed e, end) =
      (rest : List String) → Conversion desired (raw ∷ rest) [] (some end)
  IsOne desired raw (ok res, end) =
      (rest outs : List String) (end' : Option (ℕ × String))
      → Conversion desired rest outs end'
      → Conversion desired (raw ∷ rest) (res ∷ outs) end'

  one-IsOne : (desired raw : String) → IsOne desired raw (one desired raw)
  unfolding one convert_one
  one-IsOne desired raw = elim (Outcome-cases (unmarshal_type raw)) [
    | inr (e, u) ↦ rw (u, convert_one) (λ rest. no_type e u)
    | inl (t, u) ↦ elim (Option-cases (lookup (gk t.group t.kind) converters)) [
      | inl n ↦ rw (u, convert_one) (rw n (λ rest. not_registered t u n))
      | inr (c, f) ↦ elim (Outcome-cases (c (raw_kind t raw) desired)) [
        | inr (e, r) ↦ rw (u, convert_one) (rw f (rw r (λ rest. fails t c e u f r)))
        | inl (res, r) ↦
            rw (u, convert_one)
              (rw f (rw r (λ rest outs end conversion. converts t c u f r conversion)))
      ]
    ]
  ]

  one_failed :
      (desired raw : String) (rest : List String) (e : AdmissionError)
      → (one desired raw).0 ≡ failed e
      → Conversion desired (raw ∷ rest) [] (some (one desired raw).1)
  one_failed desired raw rest e h = from (one desired raw) (one-IsOne desired raw) h
    where
      from :
          (m : Outcome String × (ℕ × String))
          → IsOne desired raw m
          → m.0 ≡ failed e
          → Conversion desired (raw ∷ rest) [] (some m.1)
      from (failed x, end) k h = k rest
      from (ok res, end) k h = cc h

  one_converted :
      (desired raw res : String) (rest outs : List String) (end : Option (ℕ × String))
      → (one desired raw).0 ≡ ok res
      → Conversion desired rest outs end
      → Conversion desired (raw ∷ rest) (res ∷ outs) end
  one_converted desired raw res rest outs end h conversion =
      from (one desired raw) (one-IsOne desired raw) h
    where
      from :
          (m : Outcome String × (ℕ × String))
          → IsOne desired raw m
          → m.0 ≡ ok res
          → Conversion desired (raw ∷ rest) (res ∷ outs) end
      from (failed x, e) k h = cc h
      from (ok r, e) k h =
          subst (λ x. Conversion desired (raw ∷ rest) (x ∷ outs) end) (same r h)
            (k rest outs end conversion)
        where
          same : (r : String) → ok r ≡ ok res → r ≡ res
          same r h = cc h

  -- The response with the converted objects added to those that it had.
  abbrev pub completed : ConversionResponse → List String → Option (ℕ × String) → ConversionResponse
  completed resp outs none = record resp { converted_objects = resp.converted_objects ++ outs }
  completed resp outs (some (code, message)) = record resp {
    code = code;
    message = message;
    converted_objects = resp.converted_objects ++ outs;
  }

  completed_more :
      (resp : ConversionResponse) (res : String) (outs : List String) (end : Option (ℕ × String))
      → completed (record resp { converted_objects = resp.converted_objects ++ res ∷ [] }) outs end
        ≡ completed resp (res ∷ outs) end
  completed_more resp res outs none =
      ap (λ l. record resp { converted_objects = l })
        (append_assoc resp.converted_objects (res ∷ []) outs)
  completed_more resp res outs (some (code, message)) =
      ap (λ l. record resp { code = code; message = message; converted_objects = l })
        (append_assoc resp.converted_objects (res ∷ []) outs)

  convert_all-Conversion :
      (desired : String) (objects : List String) (resp : ConversionResponse)
      → (outs : List String) × (end : Option (ℕ × String)) × Conversion desired objects outs end
        × (convert_all unmarshal_type unmarshal_review marshal_fails converters desired objects resp
            ≡ completed resp outs end)
  unfolding convert_all one
  convert_all-Conversion desired [] resp = (
    [],
    none,
    all_converted,
    ap (λ l. record resp { converted_objects = l }) (sym (append-nil resp.converted_objects)),
  )
  convert_all-Conversion desired (raw ∷ rest) resp = elim (Outcome-cases (one desired raw).0) [
    | inr (e, f) ↦ (
      [],
      some (one desired raw).1,
      one_failed desired raw rest e f,
      rw (f, convert_all)
          (ap
            (λ l. record resp {
              code = (one desired raw).1.0;
              message = (one desired raw).1.1;
              converted_objects = l;
            })
            (sym (append-nil resp.converted_objects))),
    )
    | inl (res, f) ↦
        let (outs, end, c, e) =
          convert_all-Conversion desired rest
            (record resp { converted_objects = resp.converted_objects ++ res ∷ [] }) in
        (
          res ∷ outs,
          end,
          one_converted desired raw res rest outs end f c,
          rw (f, convert_all) (e ∙ completed_more resp res outs end),
        )
  ]

  -- The response that the loop begins with.
  abbrev pub initial : ConversionReview → ConversionResponse
  initial r = record {
    uid = r.uid;
    code = 200;
    message = elim r.response [ none ↦ "" | some p ↦ p.message ];
    converted_objects = elim r.response [ none ↦ [] | some p ↦ p.converted_objects ];
  }

  not_reviewed : (n : ℕ) (a : ConversionResponse) → ¬ (status n ≡ reviewed a)
  not_reviewed n a h = cc h

  reviewed_same : (a b : ConversionResponse) → reviewed a ≡ reviewed b → a ≡ b
  reviewed_same a b h = cc h

  -- The answer to a conversion review has its UID, and the objects of the review are converted in
  -- their order, each by the converter for its group and kind to the desired version, and added to
  -- the objects of the response that the review came with, if any: all of them with code 200 and
  -- that response's message, or those before the first one that fails, with code 400 and the error's
  -- text if it has no type data, 422 if no converter is registered for it and 500 if its converter
  -- fails.
  pub handle_convert_http-Conversion :
      (req : HttpRequest) (a : ConversionResponse)
      → handle_convert_http unmarshal_type unmarshal_review marshal_fails converters req
        ≡ reviewed a
      → (body : String) × (r : ConversionReview) × (outs : List String) × (end : Option
          (ℕ × String))
        × (req.body ≡ some body)
        × (unmarshal_review body ≡ some r)
        × Conversion r.desired_api_version r.objects outs end
        × (a ≡ completed (initial r) outs end)
  unfolding handle_convert_http
  handle_convert_http-Conversion req a h =
      let given =
        handle_convert_http unmarshal_type unmarshal_review marshal_fails converters req in
      elim (Bool-cases req.is_post) [
        | inr p ↦
            let e : given ≡ status 405 = rw (p, handle_convert_http) refl in
            absurd (not_reviewed 405 a (sym e ∙ h))
        | inl p ↦ elim (Option-cases req.body) [
          | inl b ↦
              let e : given ≡ status 400 = rw (p, handle_convert_http) (rw b refl) in
              absurd (not_reviewed 400 a (sym e ∙ h))
          | inr (body, b) ↦ elim (Option-cases (unmarshal_review body)) [
            | inl u ↦
                let e : given ≡ status 400 = rw (p, handle_convert_http) (rw b (rw u refl)) in
                absurd (not_reviewed 400 a (sym e ∙ h))
            | inr (r, u) ↦
                let (outs, end, c, all) =
                  convert_all-Conversion r.desired_api_version r.objects (initial r) in
                let resp =
                  convert_all unmarshal_type unmarshal_review marshal_fails converters
                    r.desired_api_version r.objects (initial r) in
                elim (Bool-cases (marshal_fails resp)) [
                  | inl f ↦
                      let e : given ≡ status 500 =
                        rw (p, handle_convert_http) (rw b (rw u (rw f refl))) in
                      absurd (not_reviewed 500 a (sym e ∙ h))
                  | inr f ↦
                      let e : given ≡ reviewed resp =
                        rw (p, handle_convert_http) (rw b (rw u (rw f refl))) in
                      (body, r, outs, end, b, u, c, sym (reviewed_same resp a (sym e ∙ h)) ∙ all)
                ]
          ]
        ]
      ]
