-- ===== src/Resource/Patch.antt =====
-- resource/client.go: JSON patch requests, with the paths and the values that finalizers.go uses.
use grafana_app_sdk.Base.{ℕ, zero, suc, String, Option, none, some, List, [], ◌∷◌, ◌++◌}

-- The `Path` strings "/metadata/finalizers", "/metadata/finalizers/-",
-- "/metadata/finalizers/<index>" and "/metadata/resourceVersion".
pub data PatchPath : Type 0 where
  finalizers : PatchPath
  finalizers_end : PatchPath
  finalizer_at : ℕ → PatchPath
  resource_version : PatchPath

pub data PatchOp : Type 0 where
  add remove replace move copy test : PatchOp

-- `Value any`: a text or a list of texts here.
pub data PatchValue : Type 0 where
  text : String → PatchValue
  texts : List String → PatchValue

pub record PatchOperation : Type 0 where
  pub operation : PatchOp
  pub path : PatchPath
  pub value : PatchValue

pub record PatchRequest : Type 0 where
  pub operations : List PatchOperation

-- What RFC 6902 says of these operations on the finalizer list of an object that has one or has
-- none (the API server reads a missing list as empty): `none` is a refused patch.
abbrev pub set_finalizer : List String → ℕ → String → Option (List String)
set_finalizer [] i f = none
set_finalizer (x ∷ xs) zero f = some (f ∷ xs)
set_finalizer (x ∷ xs) (suc i) f = elim (set_finalizer xs i f) [
  | none ↦ none
  | some ys ↦ some (x ∷ ys)
]

abbrev pub apply_at : PatchOp → PatchPath → PatchValue → List String → Option (List String)
apply_at PatchOp.add PatchPath.finalizers (PatchValue.texts fs) xs = some fs
apply_at PatchOp.replace PatchPath.finalizers (PatchValue.texts fs) xs = some fs
apply_at PatchOp.add PatchPath.finalizers_end (PatchValue.text f) xs = some (xs ++ f ∷ [])
apply_at PatchOp.replace (PatchPath.finalizer_at i) (PatchValue.text f) xs = set_finalizer xs i f
apply_at PatchOp.replace PatchPath.resource_version v xs = some xs
apply_at _ _ _ xs = none

abbrev pub apply_operations : List PatchOperation → List String → Option (List String)
apply_operations [] xs = some xs
apply_operations (o ∷ os) xs = elim (apply_at o.operation o.path o.value xs) [
  | none ↦ none
  | some ys ↦ apply_operations os ys
]
