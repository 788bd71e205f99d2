-- ===== src/K8s/Admission.antt =====
-- k8s/translation.go: the translation of a Kubernetes admission request. Raw JSON is a text, and what
-- a kind's codec reads from it is a parameter.
use grafana_app_sdk.Base.{
  ◌≡◌, refl, ◌⊎◌, inl, inr, ℕ, String, List, Option, none, some, if◌then◌else◌, ◌==◌,
}

-- An error, with the status code and the reason of a `resource.AdmissionError`.
pub record AdmissionError : Type 0 where
  pub text : String
  pub status : Option (ℕ × String)

pub record GroupVersionKind : Type 0 where
  pub group : String
  pub version : String
  pub kind : String

pub record UserInfo : Type 0 where
  pub username : String
  pub uid : String
  pub groups : List String

-- The request in an admission review.
pub record ReviewRequest : Type 0 where
  pub uid : String
  pub kind : GroupVersionKind
  pub request_kind : GroupVersionKind
  pub operation : String
  pub user_info : UserInfo
  pub object_raw : String
  pub old_object_raw : String

pub data AdmissionAction : Type 0 where
  create update delete connect no_action : AdmissionAction

pub record AdmissionRequest (Obj : Type 0) : Type 0 where
  pub action : AdmissionAction
  pub kind : GroupVersionKind
  pub user_info : UserInfo
  pub object : Option Obj
  pub old_object : Option Obj

pub data Outcome (A : Type 0) : Type 0 where
  ok : A → Outcome A
  failed : AdmissionError → Outcome A

pub Outcome-cases :
    {A : Type 0} (x : Outcome A) → ((a : A) × (x ≡ ok a)) ⊎ ((e : AdmissionError) × (x ≡ failed e))
Outcome-cases (ok a) = inl (a, refl)
Outcome-cases (failed e) = inr (e, refl)

abbrev pub action_of : String → AdmissionAction
action_of operation =
    if operation == "CREATE"
    then create
    else (if operation == "UPDATE"
        then update
        else (if operation == "DELETE"
            then delete
            else (if operation == "CONNECT" then connect else no_action)))

module _ {Obj : Type 0} (read : String → Outcome Obj) where
  -- An empty text is no object.
  unfoldable pub read_raw : String → Outcome (Option Obj)
  read_raw raw =
      if raw == "" then ok none else elim (read raw) [ ok o ↦ ok (some o) | failed e ↦ failed e ]

  unfoldable pub translate_kubernetes_admission_request :
      ReviewRequest → Outcome (AdmissionRequest Obj)
  unfolding read_raw
  translate_kubernetes_admission_request r = elim (read_raw r.object_raw) [
    | failed e ↦ failed e
    | ok object ↦ elim (read_raw r.old_object_raw) [
      | failed e ↦ failed e
      | ok old ↦ ok (record {
        action = action_of r.operation;
        kind = r.kind;
        user_info = r.user_info;
        object = object;
        old_object = old;
      })
    ]
  ]
