-- ===== src/K8s/Client/Paths.antt =====
-- The resource that a request of k8s/gvclient.go names. `strings.TrimSpace`, and with it
-- `unicode.IsSpace`, only tells whether a namespace is blank.
use Prim.Native.Char.{code}
use Prim.Native.String.{String, [], ◌∷◌}
use grafana_app_sdk.Base.{
  ℕ, Bool, true, ◌&&◌, ◌||◌, if◌then◌else◌, ◌==◌, nat_eq, leb, ◌≡◌, refl, eq_refl,
}
use grafana_app_sdk.Resource.Client.{Identifier, Kind}

between : ℕ → ℕ → ℕ → Bool
between a b n = leb a n && leb n b

is_space : ℕ → Bool
unfolding between
is_space n =
    between 9 13 n
    || nat_eq n 32
    || nat_eq n 133
    || nat_eq n 160
    || nat_eq n 5760
    || between 8192 8202 n
    || between 8232 8233 n
    || nat_eq n 8239
    || nat_eq n 8287
    || nat_eq n 12288

-- `strings.TrimSpace(s) == ""`.
pub is_blank : String → Bool
unfolding is_space
is_blank [] = true
is_blank (c ∷ s) = is_space (code c) && is_blank s

-- What names a resource in a request's URL; a collection has no name, and a request without a
-- namespace the empty one.
pub record ResourcePath : Type 0 where
  pub group : String
  pub version : String
  pub plural : String
  pub namespace : String
  pub name : String

-- The namespace of a request, which is set only if it is not blank.
unfoldable pub in_url : String → String
unfolding is_blank
in_url namespace = if is_blank namespace then "" else namespace

module _ (plural : Kind → String) where
  abbrev pub path : Kind → Identifier → ResourcePath
  path k i = record {
    group = k.group;
    version = k.version;
    plural = plural k;
    namespace = in_url i.namespace;
    name = i.name;
  }

  abbrev pub collection : Kind → String → ResourcePath
  collection k namespace = path k (record { namespace = namespace; name = "" })

-- A resource has one identity in all versions.
unfoldable pub same_resource : ResourcePath → ResourcePath → Bool
same_resource p q =
    p.group == q.group && (p.plural == q.plural && (p.namespace == q.namespace && p.name == q.name))

pub same_resource_refl : (p : ResourcePath) → same_resource p p ≡ true
unfolding same_resource
same_resource_refl p =
    rw (eq_refl p.group, eq_refl p.plural, eq_refl p.namespace, eq_refl p.name) refl
