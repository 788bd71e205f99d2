-- ===== src/K8s/Webhooks/Convert.antt =====
-- k8s/webhooks.go: the handler of conversions, with JSON as a parameter.
use Prim.Native.String
use grafana_app_sdk.Base.{ℕ, String, List, [], ◌∷◌, ◌++◌, Bool, Option, none, some, if◌then◌else◌}
use grafana_app_sdk.K8s.Admission.{Outcome, ok, failed}
use grafana_app_sdk.K8s.Webhooks.{HttpRequest, Answer, status, reviewed, lookup, insert}

-- What is kept of a response that a review comes with: its message and its converted objects. Its
-- UID, code and status are set anew, and the other fields of its result are left out.
pub record PriorResponse : Type 0 where
  pub message : String
  pub converted_objects : List String

-- What a conversion review has: the objects of its request, and the response that it comes with, if
-- any.
pub record ConversionReview : Type 0 where
  pub uid : String
  pub desired_api_version : String
  pub objects : List String
  pub response : Option PriorResponse

-- `metav1.TypeMeta`, with the group and the version of the API version.
pub record TypeMeta : Type 0 where
  pub api_version : String
  pub kind : String
  pub group : String
  pub version : String

pub record RawKind : Type 0 where
  pub kind : String
  pub api_version : String
  pub group : String
  pub version : String
  pub raw : String

abbrev pub Converter : Type 0
Converter = RawKind → String → Outcome String

-- Code 200 goes with the status "Success", any other with "Failure".
pub record ConversionResponse : Type 0 where
  pub uid : String
  pub code : ℕ
  pub message : String
  pub converted_objects : List String

abbrev pub raw_kind : TypeMeta → String → RawKind
raw_kind t raw = record {
  kind = t.kind;
  api_version = t.api_version;
  group = t.group;
  version = t.version;
  raw = raw;
}

-- The key of a converter.
unfoldable pub gk : String → String → String
gk group kind = String.◌++◌ kind (String.◌++◌ "." group)

unfoldable pub no_converter : String → String
no_converter kind = String.◌++◌ "No converter registered for kind " kind

module _ (unmarshal_type : String → Outcome TypeMeta)
    (unmarshal_review : String → Option ConversionReview)
    (marshal_fails : ConversionResponse → Bool) where
  pub add_converter :
      Converter → String → String → List (String × Converter) → List (String × Converter)
  unfolding insert gk
  add_converter c group kind converters = insert (gk group kind) c converters

  -- The conversion of one object, or a code and a message.
  unfoldable pub convert_one :
      List (String × Converter) → String → String → Outcome String × (ℕ × String)
  unfolding lookup gk no_converter
  convert_one converters desired raw = elim (unmarshal_type raw) [
    | failed e ↦ (failed e, (400, e.text))
    | ok t ↦ elim (lookup (gk t.group t.kind) converters) [
      | none ↦ (failed (record { text = ""; status = none }), (422, no_converter t.kind))
      | some c ↦ (c (raw_kind t raw) desired, (500, "Error converting object"))
    ]
  ]

  -- The loop over the objects, which the first error ends.
  unfoldable pub convert_all :
      List (String × Converter) → String → List String → ConversionResponse → ConversionResponse
  unfolding convert_one
  convert_all converters desired [] resp = resp
  convert_all converters desired (raw ∷ rest) resp =
      let one = convert_one converters desired raw in
      elim one.0 [
        | failed e ↦ record resp { code = one.1.0; message = one.1.1 }
        | ok res ↦
            convert_all converters desired rest
              (record resp { converted_objects = resp.converted_objects ++ res ∷ [] })
      ]

  unfoldable pub handle_convert_http :
      List (String × Converter) → HttpRequest → Answer ConversionResponse
  unfolding convert_all
  handle_convert_http converters req =
      if req.is_post
      then elim req.body [
        | none ↦ status 400
        | some body ↦ elim (unmarshal_review body) [
          | none ↦ status 400
          | some r ↦
              let resp = convert_all converters r.desired_api_version r.objects (record {
                uid = r.uid;
                code = 200;
                message = elim r.response [ none ↦ "" | some p ↦ p.message ];
                converted_objects = elim r.response [ none ↦ [] | some p ↦ p.converted_objects ];
              }) in
              if marshal_fails resp then status 500 else reviewed resp
        ]
      ]
      else status 405
