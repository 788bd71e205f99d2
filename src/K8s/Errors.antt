-- ===== src/K8s/Errors.antt =====
-- k8s/errors.go: the error that a request to an API server gives. What `json.Unmarshal` reads of a
-- body as a `metav1.Status` is a parameter, none where it fails.
use grafana_app_sdk.Base.{
  ℕ, String, ◌≡◌, ◌≢◌, refl, sym, ◌∙◌, inl, inr, Bool, true, false, ◌&&◌, Option, none, some,
  if◌then◌else◌, ◌==◌, nat_eq, leb, Bool-cases, Option-cases, arith,
}
use grafana_app_sdk.Resource.Client.{
  Status, Failure, outside, message, formatted, wrapped, status, response,
}

-- `errors.As` for `*apierrors.StatusError`: the first one in the chain of wrapped errors.
unfoldable pub find_status : Failure → Option Status
find_status (outside n) = none
find_status (message t) = none
find_status (formatted t a) = none
find_status (wrapped t e) = find_status e
find_status (status s) = some s
find_status (response e n) = find_status e

-- The first error of the chain that is an `apierrors.APIStatus`.
pub api_status : Failure → Option Failure
api_status (outside n) = none
api_status (message t) = none
api_status (formatted t a) = none
api_status (wrapped t e) = api_status e
api_status (status s) = some (status s)
api_status (response e n) = some (response e n)

-- The code of the first such error, by its `Status` method.
unfoldable pub code_of : Failure → Option ℕ
code_of (outside n) = none
code_of (message t) = none
code_of (formatted t a) = none
code_of (wrapped t e) = code_of e
code_of (status s) = some s.code
code_of (response e n) = some n

pub valid_status : Option Status → Option Status
valid_status none = none
valid_status (some s) = if s.api_version == "v1" && s.kind == "Status" then some s else none

-- Where neither the body nor the error has a status.
unfoldable pub by_code : ℕ → Failure → Failure
by_code n e = if nat_eq n 0 then response e 503 else (if leb 300 n then response e n else e)

unfoldable pub by_error : Option Status → ℕ → Failure → Failure
unfolding by_code
by_error none n e = by_code n e
by_error (some s) n e = status s

unfoldable pub by_body : Option Status → ℕ → Failure → Failure
unfolding by_error find_status
by_body none n e = by_error (find_status e) n e
by_body (some s) n e = status s

unfoldable pub parse_kubernetes_error : (String → Option Status) → String → ℕ → Failure → Failure
unfolding by_body valid_status
parse_kubernetes_error unmarshal body n e =
    by_body (if body == "" then none else valid_status (unmarshal body)) n e

unfoldable pub status_from_error : Option Failure → Option Failure × Bool
unfolding api_status
status_from_error none = (none, false)
status_from_error (some e) = elim (api_status e) [
  | some s ↦ (some s, true)
  | none ↦ (some (response e 500), false)
]

valid_status-some : (x : Option Status) (s : Status) → valid_status x ≡ some s → x ≡ some s
unfolding valid_status
valid_status-some none s h = cc
valid_status-some (some t) s h = elim (Bool-cases (t.api_version == "v1" && t.kind == "Status")) [
  | inl b ↦ sym (rw b refl) ∙ h
  | inr b ↦ absurd (none_some s (sym (rw b refl) ∙ h))
]
  where
    none_some : (s : Status) → none ≢ some s
    none_some s e = cc

-- No status in the body and in the error has this code, and neither has the answer.
abbrev pub LacksCode : (String → Option Status) → ℕ → String → ℕ → Failure → Type 0
LacksCode unmarshal m body n e =
    (n ≢ m)
    × (code_of e ≢ some m)
    × ((s : Status) → find_status e ≡ some s → s.code ≢ m)
    × ((s : Status) → unmarshal body ≡ some s → s.code ≢ m)

some_ne : (m n : ℕ) → n ≢ m → some n ≢ some m
some_ne m n h e = ground arith

-- The parsed error has a code only if the answer has it; 503 stands for no code.
pub parse-LacksCode :
    (unmarshal : String → Option Status) (m : ℕ) (body : String) (n : ℕ) (e : Failure)
    → m ≢ 503
    → LacksCode unmarshal m body n e
    → code_of (parse_kubernetes_error unmarshal body n e) ≢ some m
unfolding parse_kubernetes_error by_body by_error by_code code_of
parse-LacksCode unmarshal m body n e other lacks = elim (Bool-cases (body == "")) [
  | inl b ↦ rw b no_body
  | inr b ↦ rw b (elim (Option-cases (valid_status (unmarshal body))) [
    | inl v ↦ rw v no_body
    | inr (s, v) ↦ rw v (some_ne m s.code (lacks.3 s (valid_status-some (unmarshal body) s v)))
  ])
]
  where
    no_status : code_of (by_code n e) ≢ some m
    no_status = elim (Bool-cases (nat_eq n 0)) [
      | inl z ↦ rw z (some_ne m 503 (λ x. other (sym x)))
      | inr z ↦ rw z (elim (Bool-cases (leb 300 n)) [
        | inl l ↦ rw l (some_ne m n (lacks.0))
        | inr l ↦ rw l (lacks.1)
      ])
    ]

    no_body : code_of (by_body none n e) ≢ some m
    no_body = elim (Option-cases (find_status e)) [
      | inl f ↦ rw f no_status
      | inr (s, f) ↦ rw f (some_ne m s.code (lacks.2 s f))
    ]
