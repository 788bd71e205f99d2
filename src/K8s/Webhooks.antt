-- ===== src/K8s/Webhooks.antt =====
-- k8s/webhooks.go: the handlers of the webhook server. JSON, codecs and `jsonpatch` are parameters.
-- Controllers and converters are functions, and a review has a request with a kind.
use grafana_app_sdk.Base.{
  ℕ, String, List, [], ◌∷◌, ◌++◌, Bool, true, false, Option, none, some, if◌then◌else◌, ◌==◌,
}
use grafana_app_sdk.K8s.Admission.{
  AdmissionError, GroupVersionKind, ReviewRequest, AdmissionRequest, Outcome, ok, failed,
  translate_kubernetes_admission_request,
}
pub mod Reviews
pub mod Convert
pub mod Conversions
mod Tests

-- The part of an HTTP request that the handlers use; a body that cannot be read is `none`.
pub record HttpRequest : Type 0 where
  pub is_post : Bool
  pub body : Option String

pub record Status : Type 0 where
  pub message : String
  pub code : Option ℕ
  pub reason : Option String

pub record AdmissionResponse : Type 0 where
  pub uid : String
  pub allowed : Bool
  pub result : Option Status
  pub has_patch_type : Bool
  pub patch : Option String

-- What is written to an HTTP response.
pub data Answer (R : Type 0) : Type 0 where
  status : ℕ → Answer R
  no_controller : String → GroupVersionKind → Answer R
  reviewed : R → Answer R

pub add_admission_error : AdmissionError → AdmissionResponse → AdmissionResponse
add_admission_error e r = record r {
  allowed = false;
  result = some (record {
    message = e.text;
    code = elim e.status [ none ↦ none | some s ↦ some (s.0) ];
    reason = elim e.status [ none ↦ none | some s ↦ some (s.1) ];
  });
}

module _ {K : Type 0} where
  -- A map from the text of a group, a version and a kind.
  pub lookup : String → List (String × K) → Option K
  lookup key [] = none
  lookup key ((k, x) ∷ rest) = if k == key then some x else lookup key rest

  pub insert : String → K → List (String × K) → List (String × K)
  insert key x [] = (key, x) ∷ []
  insert key x ((k, y) ∷ rest) = if k == key then (key, x) ∷ rest else (k, y) ∷ insert key x rest

-- `Kind` are the kinds with their codecs, `simple_kind` is the one that is made for a default
-- controller, `patch` is `generatePatch` after the codec, and `text_of` is the text of a group, a
-- version and a kind.
module _ {Obj Kind : Type 0} (read : Kind → String → Outcome Obj)
    (simple_kind : GroupVersionKind → Kind) (text_of : GroupVersionKind → String) where
  abbrev pub ValidatingController : Type 0
  ValidatingController = AdmissionRequest Obj → Option AdmissionError

  -- A nil response and one without an object are the same to the handler.
  abbrev pub MutatingController : Type 0
  MutatingController = AdmissionRequest Obj → Option Obj × Option AdmissionError

  pub record WebhookServer : Type 0 where
    pub default_validating_controller : Option ValidatingController
    pub default_mutating_controller : Option MutatingController
    pub validating_controllers : List (String × (Kind × ValidatingController))
    pub mutating_controllers : List (String × (Kind × MutatingController))

  pub add_validating_admission_controller :
      ValidatingController → GroupVersionKind → Kind → WebhookServer → WebhookServer
  unfolding insert
  add_validating_admission_controller c g k w = record w {
    validating_controllers = insert (text_of g) (k, c) w.validating_controllers;
  }

  pub add_mutating_admission_controller :
      MutatingController → GroupVersionKind → Kind → WebhookServer → WebhookServer
  unfolding insert
  add_mutating_admission_controller c g k w = record w {
    mutating_controllers = insert (text_of g) (k, c) w.mutating_controllers;
  }

  -- The kind and the controller for a request.
  pub choose :
      {C : Type 0} → List (String × (Kind × C)) → Option C → GroupVersionKind → Option (Kind × C)
  unfolding lookup
  choose controllers default g = elim (lookup (text_of g) controllers) [
    | some chosen ↦ some chosen
    | none ↦ elim default [ none ↦ none | some c ↦ some (simple_kind g, c) ]
  ]

  module _ (unmarshal : String → Option ReviewRequest)
      (marshal_fails : AdmissionResponse → Bool) where
    abbrev allowing : ReviewRequest → AdmissionResponse
    allowing r = record {
      uid = r.uid;
      allowed = true;
      result = none;
      has_patch_type = false;
      patch = none;
    }

    abbrev pub answer : AdmissionResponse → Answer AdmissionResponse
    answer r = if marshal_fails r then status 500 else reviewed r

    -- What the two admission handlers do up to the call of a controller.
    pub handle_review :
        {C : Type 0}
        → String
        → List (String × (Kind × C))
        → Option C
        → (Kind → C → ReviewRequest → AdmissionRequest Obj → AdmissionResponse)
        → HttpRequest
        → Answer AdmissionResponse
    unfolding choose translate_kubernetes_admission_request
    handle_review purpose controllers default act req =
        if req.is_post
        then elim req.body [
          | none ↦ status 400
          | some body ↦ elim (unmarshal body) [
            | none ↦ status 400
            | some r ↦ elim (choose controllers default r.request_kind) [
              | none ↦ no_controller purpose r.request_kind
              | some chosen ↦ elim (translate_kubernetes_admission_request (read (chosen.0)) r) [
                | failed e ↦ status 400
                | ok request ↦ answer (act (chosen.0) (chosen.1) r request)
              ]
            ]
          ]
        ]
        else status 405

    pub validated :
        Kind → ValidatingController → ReviewRequest → AdmissionRequest Obj → AdmissionResponse
    unfolding add_admission_error
    validated k c r request = elim (c request) [
      | none ↦ allowing r
      | some e ↦ add_admission_error e (allowing r)
    ]

    pub handle_validate_http : WebhookServer → HttpRequest → Answer AdmissionResponse
    unfolding handle_review validated
    handle_validate_http w =
        handle_review "validating" w.validating_controllers w.default_validating_controller
          validated

    module _ (generate_patch : ReviewRequest → Obj → Kind → Outcome String) where
      -- The response after the controller's return.
      pub respond : Kind → ReviewRequest → Option Obj × Option AdmissionError → AdmissionResponse
      unfolding add_admission_error
      respond k r m = elim m.1 [
        | some e ↦ add_admission_error e (allowing r)
        | none ↦ elim m.0 [
          | none ↦ allowing r
          | some o ↦ elim (generate_patch r o k) [
            | ok p ↦ record (allowing r) { has_patch_type = true; patch = some p }
            | failed e ↦ add_admission_error e (record (allowing r) { has_patch_type = true })
          ]
        ]
      ]

      pub mutated :
          Kind → MutatingController → ReviewRequest → AdmissionRequest Obj → AdmissionResponse
      unfolding respond
      mutated k c r request = respond k r (c request)

      pub handle_mutate_http : WebhookServer → HttpRequest → Answer AdmissionResponse
      unfolding handle_review mutated
      handle_mutate_http w =
          handle_review "mutating" w.mutating_controllers w.default_mutating_controller mutated
