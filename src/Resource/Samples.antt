-- ===== src/Resource/Samples.antt =====
-- A client that keeps the objects of the calls in its history and gives lists in two pages.
use text.Mathlib.TextEquality.{eq_iff}
use grafana_app_sdk.Base.{
  ℕ, String, [], ◌∷◌, ◌≡◌, ◌≢◌, refl, ap, eq_refl, Bool, true, false, not, ◌&&◌, ◌||◌, Option, none,
  some, if◌then◌else◌, ◌==◌, nat_eq, arith,
}
use grafana_app_sdk.Resource.Object.{Object}
use grafana_app_sdk.Resource.Client.{
  Identifier, Kind, UpdateOptions, Failure, outside, message, formatted, wrapped, status, response,
  Call, Response, History, Server, Objects, written, IsClient,
}

abbrev pub is_404 : Failure → Bool
is_404 (outside n) = nat_eq n 404
is_404 (message s) = false
is_404 (formatted s t) = false
is_404 (wrapped s e) = false
is_404 (status s) = nat_eq s.code 404
is_404 (response e n) = nat_eq n 404

abbrev pub is_409 : Failure → Bool
is_409 (outside n) = nat_eq n 409
is_409 (message s) = false
is_409 (formatted s t) = false
is_409 (wrapped s e) = false
is_409 (status s) = nat_eq s.code 409
is_409 (response e n) = nat_eq n 409

abbrev pub issues : Kind
issues = record { group = "g"; version = "v1"; kind = "Issue"; cluster_scoped = false }

abbrev pub issue : String → String → ℕ → Object
issue name resource_version content = record {
  group = "g";
  version = "v1";
  kind = "Issue";
  namespace = "default";
  name = name;
  resource_version = resource_version;
  generation = 1;
  deletion_timestamp = none;
  update_timestamp = 0;
  finalizers = [];
  content = content;
}

abbrev pub key : String → Identifier
key name = record { namespace = "default"; name = name }

abbrev pub failing : ℕ → Response
failing n = record {
  object = none;
  error = some (outside n);
  items = [];
  continue = "";
  resource_version = "";
}

abbrev answering : Object → Response
answering o = record {
  object = some o;
  error = none;
  items = [];
  continue = "";
  resource_version = "";
}

abbrev paging : Object → String → Response
paging o continue = record {
  object = none;
  error = none;
  items = o ∷ [];
  continue = continue;
  resource_version = o.resource_version;
}

abbrev same_identifier : Identifier → Identifier → Bool
same_identifier a b = a.namespace == b.namespace && a.name == b.name

abbrev same_kind : Kind → Kind → Bool
same_kind a b = a.group == b.group && (a.version == b.version && a.kind == b.kind)

abbrev same_key : Kind → Identifier → Kind → Identifier → Bool
same_key k i l j = same_kind k l && same_identifier i j

same_key_refl : (k : Kind) (i : Identifier) → same_key k i k i ≡ true
same_key_refl k i =
    rw (eq_refl k.group, eq_refl k.version, eq_refl k.kind, eq_refl i.namespace, eq_refl i.name)
      refl

-- The objects after a call with its answer.
abbrev after : Call → Response → Objects → Objects
after (Call.get k i) r s l j = s l j
after (Call.create k i o) r s l j =
    if same_key k i l j then written r.error r.object (s l j) else s l j
after (Call.update k i o opts) r s l j =
    if not opts.dry_run && same_key k i l j then written r.error r.object (s l j) else s l j
after (Call.delete k i) r s l j = if same_key k i l j then written r.error none (s l j) else s l j
after (Call.list k n opts) r s l j = s l j

pub after_own :
    (k : Kind) (i : Identifier) (x y : Option Object) → (if same_key k i k i then x else y) ≡ x
after_own k i x y = ap (λ b. if b then x else y) (same_key_refl k i)

pub after_real :
    (k : Kind) (i : Identifier) (dry : Bool) (x y : Option Object)
    → dry ≡ false
    → (if not dry && same_key k i k i then x else y) ≡ x
after_real k i true x y e = cc
after_real k i false x y e = after_own k i x y

pub after_apart : (b c : Bool) (x y : Option Object) → b ≡ false → (if c && b then x else y) ≡ y
after_apart b true x y e = ap (λ b. if b then x else y) e
after_apart b false x y e = refl

-- Everywhere there is an object of version 2 at first.
abbrev pub kept : History → Objects
kept [] k i = some (issue i.name "2" 0)
kept ((c, r) ∷ h) k i = after c r (kept h) k i

abbrev put : Object → UpdateOptions → Option Object → Response
put o opts none = failing 404
put o opts (some old) =
    if (opts.resource_version == "") || (opts.resource_version == old.resource_version)
    then answering o
    else failing 409

abbrev got : Option Object → Response
got none = failing 404
got (some o) = answering o

abbrev made : Object → Option Object → Response
made o none = answering o
made o (some old) = failing 409

abbrev pub memory : Server
memory h (Call.get k i) = got (kept h k i)
memory h (Call.create k i o) = made o (kept h k i)
memory h (Call.update k i o opts) = put o opts (kept h k i)
memory h (Call.delete k i) = answering (issue i.name "2" 0)
memory h (Call.list k n o) =
    if o.continue == "" then paging (issue "one" "2" 0) "next" else paging (issue "two" "3" 0) ""

pub got_ok :
    (x : Option Object)
    → (got x).error ≡ none
    → (o : Object) × ((got x).object ≡ some o) × (x ≡ some o)
got_ok none e = cc
got_ok (some o) e = (o, refl, refl)

pub got_failed : (x : Option Object) (e : Failure) → (got x).error ≡ some e → (got x).object ≡ none
got_failed none e h = refl
got_failed (some o) e h = cc

pub got_missing : (x : Option Object) (e : Failure) → (got x).error ≡ some e → x ≡ none
got_missing none e h = refl
got_missing (some o) e h = cc

pub put_mismatch :
    (o old : Object) (opts : UpdateOptions) (x : Option Object)
    → x ≡ some old
    → opts.resource_version ≢ ""
    → opts.resource_version ≢ old.resource_version
    → (put o opts x).error ≢ none
put_mismatch o old opts x e ne differ = rw e (
    ground
      (arith, eq_iff opts.resource_version "", eq_iff opts.resource_version old.resource_version))

unfoldable pub memory_client : IsClient memory is_404 is_409
memory_client = record {
  stored = kept;
  related = same_key;
  after_get = λ h k i l j. refl;
  after_create = λ h k i o. after_own k i _ _;
  after_update = λ h k i o opts real. after_real k i opts.dry_run _ _ real;
  create_apart = λ h k i o l j b. after_apart (same_key k i l j) true _ _ b;
  update_apart = λ h k i o opts l j b. after_apart (same_key k i l j) (not opts.dry_run) _ _ b;
  get_ok = λ h k i. got_ok (kept h k i);
  get_failed = λ h k i. got_failed (kept h k i);
  get_missing = λ h k i e s b. got_missing (kept h k i) e s;
  update_mismatch = λ h k i o old opts. put_mismatch o old opts (kept h k i);
}
