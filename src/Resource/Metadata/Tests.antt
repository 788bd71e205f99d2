-- ===== src/Resource/Metadata/Tests.antt =====
-- A text in an annotation.
use grafana_app_sdk.Base.{
  ℕ, String, ◌≡◌, refl, true, Option, none, some, if◌then◌else◌, ◌==◌, eq_iff, arith,
}
use grafana_app_sdk.Resource.Metadata.{
  sanitize_annotation_field_name, get_grafana_annotation_field, trim, trim_left, trim_right,
  Annotations, Marshaled, marshaled, annotation_missing, write_grafana_annotation,
  read_grafana_annotation,
}
use grafana_app_sdk.Resource.Metadata.RoundTrip.{read_grafana_annotation-write_grafana_annotation}

abbrev to_json : String → Marshaled
to_json v = marshaled (if v == "me" then "\"me\"" else "\"\"")

abbrev of_json : String → String × Option ℕ
of_json s = (if s == "\"me\"" then "me" else "", none)

abbrev others : Annotations
others k = some "x"

sanitized : sanitize_annotation_field_name "create d/By" ≡ "createdBy"
unfolding sanitize_annotation_field_name
sanitized = refl

-- The encoding of a text that ends with a quote loses that quote, and keeps its escape.
quote_lost : trim "\"a\\\"\"" ≡ "a\\"
unfolding trim_left trim_right
quote_lost = refl

read_grafana_annotation-write_grafana_annotation_example :
    let write = write_grafana_annotation to_json of_json true "" others "createdBy" in
    let read = read_grafana_annotation to_json of_json true "" in
    ((write (some "me")).1 ≡ none)
    × (read (write (some "me")).0 "createdBy" ≡ ("me", none))
    × (read (write (some "me")).0 "updatedBy" ≡ read others "updatedBy")
    × (read (write none).0 "createdBy" ≡ ("", some annotation_missing))
    × (read (write none).0 "updatedBy" ≡ read others "updatedBy")
unfolding get_grafana_annotation_field trim_left trim_right
read_grafana_annotation-write_grafana_annotation_example =
    read_grafana_annotation-write_grafana_annotation to_json of_json true "" others "createdBy"
      "updatedBy" "me" "\"me\"" refl refl ("me", refl, refl)
      (ground (arith, eq_iff "grafana.com/updatedBy" "grafana.com/createdBy"))
