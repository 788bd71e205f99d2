-- ===== src/Resource/Metadata.antt =====
-- resource/metadata.go: values in annotations. The map is a function and is not nil; `json.Marshal`
-- and `json.Unmarshal` at the type of the value are parameters, with errors by a number.
use Prim.Native.Nat.{ℕ}
use Prim.Native.Char.{Char, code}
use Prim.Native.String.{String, [], ◌∷◌, ◌++◌}
use grafana_app_sdk.Base.{
  Bool, true, false, ◌&&◌, ◌||◌, Option, none, some, if◌then◌else◌, ◌==◌, leb, nat_eq,
}
pub mod RoundTrip
mod Tests

-- What the regular expression `[^a-zA-z0-9\-_\.]` does not match.
abbrev pub is_allowed : ℕ → Bool
is_allowed c =
    (leb 97 c && leb c 122)
    || ((leb 65 c && leb c 122)
        || ((leb 48 c && leb c 57) || (nat_eq c 45 || (nat_eq c 95 || nat_eq c 46))))

pub sanitize_annotation_field_name : String → String
sanitize_annotation_field_name [] = []
sanitize_annotation_field_name (c ∷ s) =
    let rest = sanitize_annotation_field_name s in if is_allowed (code c) then c ∷ rest else rest

pub get_grafana_annotation_field : String → String
unfolding sanitize_annotation_field_name
get_grafana_annotation_field field = "grafana.com/" ++ sanitize_annotation_field_name field

abbrev pub is_quote : Char → Bool
is_quote c = nat_eq (code c) 34

-- `strings.Trim` of the quotes, from the left and from the right.
pub trim_left : String → String
trim_left [] = []
trim_left (c ∷ s) = let rest = trim_left s in if is_quote c then rest else c ∷ s

pub trim_right : String → String
trim_right [] = []
trim_right (c ∷ s) = let rest = trim_right s in if is_quote c && rest == [] then [] else c ∷ rest

abbrev pub trim : String → String
trim s = trim_right (trim_left s)

abbrev pub Annotations : Type 0
Annotations = String → Option String

pub data Marshaled : Type 0 where
  marshaled : String → Marshaled
  marshal_failed : ℕ → Marshaled

pub data ReadError : Type 0 where
  annotation_missing : ReadError
  unmarshal_failed : ℕ → ReadError

-- `marshal` and `unmarshal` at a type, whose kind is a text or a time if `is_text` is true, and
-- whose zero value is `zero_value`.
module _ {V : Type 0} (marshal : V → Marshaled) (unmarshal : String → V × Option ℕ) (is_text : Bool)
    (zero_value : V) where
  pub write_grafana_annotation : Annotations → String → Option V → Annotations × Option ℕ
  unfolding get_grafana_annotation_field
  write_grafana_annotation annotations field value =
      let key = get_grafana_annotation_field field in
      elim value [
        | none ↦ (λ k. if k == key then none else annotations k, none)
        | some v ↦ elim (marshal v) [
          | marshal_failed e ↦ (annotations, some e)
          | marshaled s ↦ (λ k. if k == key then some (trim s) else annotations k, none)
        ]
      ]

  abbrev pub decode : String → V × Option ReadError
  decode s =
      ((unmarshal s).0, elim (unmarshal s).1 [ none ↦ none | some e ↦ some (unmarshal_failed e) ])

  pub read_grafana_annotation : Annotations → String → V × Option ReadError
  unfolding get_grafana_annotation_field
  read_grafana_annotation annotations field =
      elim (annotations (get_grafana_annotation_field field)) [
        | none ↦ (zero_value, some annotation_missing)
        | some val ↦ decode (if is_text then "\"" ++ (val ++ "\"") else val)
      ]
