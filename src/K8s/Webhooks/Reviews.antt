-- ===== src/K8s/Webhooks/Reviews.antt =====
-- What an admission review is answered with.
use grafana_app_sdk.Base.{
  ℕ, String, List, ◌≡◌, ◌↔◌, refl, sym, subst, ◌∙◌, Bool, true, false, Option, none, some, ◌⊎◌, inl,
  inr, Bool-cases, Option-cases,
}
use grafana_app_sdk.K8s.Admission.{
  AdmissionError, GroupVersionKind, ReviewRequest, AdmissionRequest, Outcome, ok, failed,
  Outcome-cases, translate_kubernetes_admission_request,
}
use grafana_app_sdk.K8s.Webhooks.{
  HttpRequest, Status, AdmissionResponse, Answer, status, no_controller, reviewed,
  add_admission_error, ValidatingController, WebhookServer, choose, answer, handle_review,
  validated, handle_validate_http, respond, mutated, handle_mutate_http,
}

module _ {Obj Kind : Type 0} (read : Kind → String → Outcome Obj)
    (simple_kind : GroupVersionKind → Kind) (text_of : GroupVersionKind → String)
    (unmarshal : String → Option ReviewRequest) (marshal_fails : AdmissionResponse → Bool) where
  -- The way of a request to a controller: it is a post of a review, a controller is registered for
  -- the kind of the review's request or is the default one, and the request can be translated.
  pub record Reaches {C : Type 0} (controllers : List (String × (Kind × C))) (default : Option C)
      (req : HttpRequest) : Type 0 where
    pub body : String
    pub review : ReviewRequest
    pub kind : Kind
    pub controller : C
    pub request : AdmissionRequest Obj
    pub is_post : req.is_post ≡ true
    pub has_body : req.body ≡ some body
    pub is_review : unmarshal body ≡ some review
    pub chosen :
        choose read simple_kind text_of controllers default review.request_kind
        ≡ some (kind, controller)
    pub translated : translate_kubernetes_admission_request (read kind) review ≡ ok request

  abbrev Acts :
      {C : Type 0}
      → List (String × (Kind × C))
      → Option C
      → (Kind → C → ReviewRequest → AdmissionRequest Obj → AdmissionResponse)
      → HttpRequest
      → Answer AdmissionResponse
      → Type 0
  Acts controllers default act req (reviewed a) =
      (r : Reaches controllers default req) × (a ≡ act r.kind r.controller r.review r.request)
  Acts controllers default act req _ = Unit {0}

  module _ {C : Type 0} (purpose : String) (controllers : List (String × (Kind × C)))
      (default : Option C)
      (act : Kind → C → ReviewRequest → AdmissionRequest Obj → AdmissionResponse)
      (req : HttpRequest) where
    abbrev given : Answer AdmissionResponse
    given =
        handle_review read simple_kind text_of unmarshal marshal_fails purpose controllers default
          act req

    by_status : (n : ℕ) → given ≡ status n → Acts controllers default act req given
    by_status n e = subst (Acts controllers default act req) (sym e) tt

    by_no_controller :
        (g : GroupVersionKind)
        → given ≡ no_controller purpose g
        → Acts controllers default act req given
    by_no_controller g e = subst (Acts controllers default act req) (sym e) tt

    by_reviewed :
        (r : Reaches controllers default req)
        → given ≡ reviewed (act r.kind r.controller r.review r.request)
        → Acts controllers default act req given
    by_reviewed r e = subst (Acts controllers default act req) (sym e) (r, refl)

    by_answer :
        (r : Reaches controllers default req)
        → let a = act r.kind r.controller r.review r.request in
          given ≡ answer read simple_kind text_of unmarshal marshal_fails a
          → Acts controllers default act req given
    by_answer r e =
        let a = act r.kind r.controller r.review r.request in
        elim (Bool-cases (marshal_fails a)) [
          | inl f ↦ by_status 500 (e ∙ rw f refl)
          | inr f ↦ by_reviewed r (e ∙ rw f refl)
        ]

    by_review :
        (body : String) (review : ReviewRequest)
        → req.is_post ≡ true
        → req.body ≡ some body
        → unmarshal body ≡ some review
        → Acts controllers default act req given
    unfolding handle_review
    by_review body review p b u =
        elim (Option-cases
          (choose read simple_kind text_of controllers default review.request_kind)) [
            | inl c ↦
                by_no_controller review.request_kind
                  (rw (p, handle_review) (rw b (rw u (rw c refl))))
            | inr (chosen, c) ↦
                elim (Outcome-cases
                  (translate_kubernetes_admission_request (read (chosen.0)) review)) [
                    | inr (e, t) ↦
                        by_status 400 (rw (p, handle_review) (rw b (rw u (rw c (rw t refl)))))
                    | inl (request, t) ↦
                        by_answer
                          (record {
                            body = body;
                            review = review;
                            kind = chosen.0;
                            controller = chosen.1;
                            request = request;
                            is_post = p;
                            has_body = b;
                            is_review = u;
                            chosen = c;
                            translated = t;
                          })
                          (rw (p, handle_review) (rw b (rw u (rw c (rw t refl)))))
                  ]
          ]

    handle_review-Acts : Acts controllers default act req given
    unfolding handle_review
    handle_review-Acts = elim (Bool-cases req.is_post) [
      | inr p ↦ by_status 405 (rw (p, handle_review) refl)
      | inl p ↦ elim (Option-cases req.body) [
        | inl b ↦ by_status 400 (rw (p, handle_review) (rw b refl))
        | inr (body, b) ↦ elim (Option-cases (unmarshal body)) [
          | inl u ↦ by_status 400 (rw (p, handle_review) (rw b (rw u refl)))
          | inr (review, u) ↦ by_review body review p b u
        ]
      ]
    ]

  -- The response of a validating controller.
  abbrev pub IsValidated : ReviewRequest → Option AdmissionError → AdmissionResponse → Type 0
  IsValidated r e a = (a.uid ≡ r.uid) × ((a.allowed ≡ true) ↔ (e ≡ none))

  validated-IsValidated :
      (k : Kind) (c : ValidatingController read simple_kind text_of) (r : ReviewRequest)
      (request : AdmissionRequest Obj)
      → IsValidated r
          (c request)
          (validated read simple_kind text_of unmarshal marshal_fails k c r request)
  unfolding validated add_admission_error
  validated-IsValidated k c r request = elim (Option-cases (c request)) [
    | inl n ↦ rw (n, validated) (refl, (λ x. refl, λ x. refl))
    | inr (e, n) ↦ rw (n, validated) (refl, (λ x. cc x, λ x. cc x))
  ]

  -- The response of a mutating controller: it allows the request without a patch where the
  -- controller gave neither an object nor an error, it has the patch that was generated for the
  -- object, or it refuses it with the error of the controller or that of the patch's generation.
  abbrev pub IsMutated :
      ReviewRequest
      → Kind
      → (Obj → Outcome String)
      → Option Obj × Option AdmissionError
      → AdmissionResponse
      → Type 0
  IsMutated r k generate m a =
      (a.uid ≡ r.uid)
      × (((a.allowed ≡ true) × (m ≡ (none, none)) × (a.patch ≡ none))
          ⊎ ((o : Obj) × (p : String) × (a.allowed ≡ true)
              × (m ≡ (some o, none))
              × (generate o ≡ ok p)
              × (a.patch ≡ some p))
          ⊎ ((e : AdmissionError) × (s : Status) × (a.allowed ≡ false)
              × (((m.1 ≡ some e)) ⊎ ((o : Obj) × (m ≡ (some o, none)) × (generate o ≡ failed e)))
              × (a.patch ≡ none)
              × (a.result ≡ some s)
              × (s.message ≡ e.text)))

  respond-IsMutated :
      (generate_patch : ReviewRequest → Obj → Kind → Outcome String) (k : Kind) (r : ReviewRequest)
      (m : Option Obj × Option AdmissionError)
      → IsMutated r k
          (λ o. generate_patch r o k)
          m
          (respond read simple_kind text_of unmarshal marshal_fails generate_patch k r m)
  unfolding respond add_admission_error
  respond-IsMutated generate_patch k r (o, some e) =
      (refl, inr (inr (e, _, refl, inl refl, refl, refl, refl)))
  respond-IsMutated generate_patch k r (none, none) = (refl, inl (refl, refl, refl))
  respond-IsMutated generate_patch k r (some o, none) =
      elim (Outcome-cases (generate_patch r o k)) [
        | inl (p, g) ↦ rw (g, respond) (refl, inr (inl (o, p, refl, refl, g, refl)))
        | inr (e, g) ↦
            rw (g, respond) (refl, inr (inr (e, _, refl, inr (o, refl, g), refl, refl, refl)))
      ]

  -- A review is answered by `HandleValidateHTTP` only if its request was handed to the controller
  -- for its kind or the default one; the answer has the request's UID, and it allows the request
  -- exactly if that controller returned no error.
  pub handle_validate_http-Reaches :
      (w : WebhookServer read simple_kind text_of) (req : HttpRequest) (a : AdmissionResponse)
      → handle_validate_http read simple_kind text_of unmarshal marshal_fails w req ≡ reviewed a
      → (r : Reaches w.validating_controllers w.default_validating_controller req) × IsValidated
          r.review
          (r.controller r.request)
          a
  unfolding handle_validate_http
  handle_validate_http-Reaches w req a e =
      let (r, same) =
        subst
          (Acts w.validating_controllers w.default_validating_controller
            (validated read simple_kind text_of unmarshal marshal_fails) req)
          e
          (handle_review-Acts "validating" w.validating_controllers w.default_validating_controller
            (validated read simple_kind text_of unmarshal marshal_fails) req) in
      (
        r,
        subst (IsValidated r.review (r.controller r.request)) (sym same)
            (validated-IsValidated r.kind r.controller r.review r.request),
      )

  -- The same for `HandleMutateHTTP`: the answer has the request's UID, and it allows the request with
  -- the patch that is generated for the controller's object, or without a patch if the controller
  -- gave neither an object nor an error, and it refuses it, without a patch and with the error's
  -- message, only if the controller gave an error or the patch could not be generated.
  pub handle_mutate_http-Reaches :
      (generate_patch : ReviewRequest → Obj → Kind → Outcome String)
      (w : WebhookServer read simple_kind text_of) (req : HttpRequest) (a : AdmissionResponse)
      → handle_mutate_http read simple_kind text_of unmarshal marshal_fails generate_patch w req
        ≡ reviewed a
      → (r : Reaches w.mutating_controllers w.default_mutating_controller req) × IsMutated r.review
          r.kind
          (λ o. generate_patch r.review o r.kind)
          (r.controller r.request)
          a
  unfolding handle_mutate_http mutated
  handle_mutate_http-Reaches generate_patch w req a e =
      let act = mutated read simple_kind text_of unmarshal marshal_fails generate_patch in
      let (r, same) = subst (Acts w.mutating_controllers w.default_mutating_controller act req) e (
        handle_review-Acts "mutating" w.mutating_controllers w.default_mutating_controller act
          req) in
      (
        r,
        subst
            (IsMutated r.review r.kind (λ o. generate_patch r.review o r.kind)
              (r.controller r.request))
            (sym same) (respond-IsMutated generate_patch r.kind r.review (r.controller r.request)),
      )
