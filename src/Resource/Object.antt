-- ===== src/Resource/Object.antt =====
-- resource/object.go and resource/typedobject.go: the metadata that operators and stores read. The
-- update timestamp, which is an annotation there, is a field.
-- The spec and the subresources are opaque to that code and stand in one field, `content`.
use grafana_app_sdk.Base.{ℕ, String, List, Option}

-- `metadata.generation` is never negative in an API server, and a negative one would be treated
-- as 0 is by the test `GetGeneration() > 0`. A nil finalizer list reads as the empty one.
pub record Object : Type 0 where
  pub group : String
  pub version : String
  pub kind : String
  pub namespace : String
  pub name : String
  pub resource_version : String
  pub generation : ℕ
  pub deletion_timestamp : Option ℕ
  pub update_timestamp : ℕ
  pub finalizers : List String
  pub content : ℕ
