-- ===== src/K8s/Webhooks/Tests.antt =====
-- Reviews of a widget, and its conversion.
use grafana_app_sdk.Base.{
  ℕ, String, List, [], ◌∷◌, ◌≡◌, refl, Bool, true, false, Option, none, some, if◌then◌else◌, ◌==◌,
}
use grafana_app_sdk.K8s.Admission.{
  AdmissionError, GroupVersionKind, ReviewRequest, AdmissionRequest, Outcome, ok,
  translate_kubernetes_admission_request, read_raw,
}
use grafana_app_sdk.K8s.Webhooks.{
  HttpRequest, AdmissionResponse, WebhookServer, lookup, choose, handle_review, validated, respond,
  mutated, handle_validate_http, handle_mutate_http,
}
use grafana_app_sdk.K8s.Webhooks.Convert.{
  ConversionReview, ConversionResponse, TypeMeta, Converter, gk, no_converter, convert_one,
  convert_all, handle_convert_http,
}
use grafana_app_sdk.K8s.Webhooks.Reviews.{
  Reaches, IsValidated, IsMutated, handle_validate_http-Reaches, handle_mutate_http-Reaches,
}
use grafana_app_sdk.K8s.Webhooks.Conversions.{
  Conversion, completed, initial, handle_convert_http-Conversion,
}

abbrev read : String → String → Outcome ℕ
read kind raw = if raw == "{}" then ok 0 else ok 1

abbrev simple : GroupVersionKind → String
simple g = "any"

abbrev text : GroupVersionKind → String
text g = g.kind

abbrev widget : GroupVersionKind
widget = record { group = "g"; version = "v1"; kind = "Widget" }

abbrev review : ReviewRequest
review = record {
  uid = "u1";
  kind = widget;
  request_kind = widget;
  operation = "CREATE";
  user_info = record { username = "me"; uid = "7"; groups = [] };
  object_raw = "{}";
  old_object_raw = "";
}

abbrev parse : String → Option ReviewRequest
parse body = if body == "review" then some review else none

abbrev never : AdmissionResponse → Bool
never r = false

abbrev post : String → HttpRequest
post body = record { is_post = true; body = some body }

abbrev refuses : AdmissionRequest ℕ → Option AdmissionError
refuses r = some (record { text = "no"; status = some (403, "Forbidden") })

abbrev adds_one : AdmissionRequest ℕ → Option ℕ × Option AdmissionError
adds_one r = (some 1, none)

abbrev server : WebhookServer read simple text
server = record {
  default_validating_controller = none;
  default_mutating_controller = some adds_one;
  validating_controllers = ("Widget", ("widgets", refuses)) ∷ [];
  mutating_controllers = [];
}

abbrev refusal : AdmissionResponse
refusal = record {
  uid = "u1";
  allowed = false;
  result = some (record { message = "no"; code = some 403; reason = some "Forbidden" });
  has_patch_type = false;
  patch = none;
}

abbrev patching : AdmissionResponse
patching = record {
  uid = "u1";
  allowed = true;
  result = none;
  has_patch_type = true;
  patch = some "[p]";
}

abbrev generate : ReviewRequest → ℕ → String → Outcome String
generate r o k = ok "[p]"

handle_validate_http-Reaches_example :
    (r : Reaches read simple text parse never server.validating_controllers
      server.default_validating_controller
      (post "review"))
    × IsValidated read simple text parse never r.review (r.controller r.request) refusal
unfolding handle_validate_http handle_review choose lookup translate_kubernetes_admission_request
    read_raw validated
handle_validate_http-Reaches_example =
    handle_validate_http-Reaches read simple text parse never server (post "review") refusal refl

handle_mutate_http-Reaches_example :
    (r : Reaches read simple text parse never server.mutating_controllers
      server.default_mutating_controller
      (post "review"))
    × IsMutated read simple text parse never r.review r.kind
        (λ o. generate r.review o r.kind)
        (r.controller r.request)
        patching
unfolding handle_mutate_http handle_review choose lookup translate_kubernetes_admission_request
    read_raw mutated respond
handle_mutate_http-Reaches_example =
    handle_mutate_http-Reaches read simple text parse never generate server (post "review") patching
      refl

abbrev typed : String → Outcome TypeMeta
typed raw = ok (record { api_version = "g/v1"; kind = raw; group = "g"; version = "v1" })

abbrev conversion : String → Option ConversionReview
conversion body = some (record {
  uid = "u2";
  desired_api_version = "g/v2";
  objects = "Widget" ∷ "Gadget" ∷ [];
  response = some (record { message = "m"; converted_objects = "old" ∷ [] });
})

abbrev always : ConversionResponse → Bool
always r = false

abbrev converters : List (String × Converter)
converters = ("Widget.g", λ r desired. ok desired) ∷ []

abbrev half : ConversionResponse
half = record {
  uid = "u2";
  code = 422;
  message = "No converter registered for kind Gadget";
  converted_objects = "old" ∷ "g/v2" ∷ [];
}

handle_convert_http-Conversion_example :
    (body : String) × (r : ConversionReview) × (outs : List String) × (end : Option (ℕ × String))
    × ((post "x").body ≡ some body)
    × (conversion body ≡ some r)
    × Conversion typed conversion always converters r.desired_api_version r.objects outs end
    × (half
        ≡ completed typed conversion always converters
            (initial typed conversion always converters r)
            outs
            end)
unfolding handle_convert_http convert_all convert_one lookup gk no_converter
handle_convert_http-Conversion_example =
    handle_convert_http-Conversion typed conversion always converters (post "x") half refl
