-- ===== src/K8s/Client/Samples.antt =====
-- An API server that keeps what is written, for a codec whose text is the letter v and the version
-- of an object, or the letter n and its name where it has none.
use Prim.Native.Char.{code}
use Prim.Native.String.{[], ◌∷◌}
use mathlib.Core.List.{[], ◌∷◌}
use grafana_app_sdk.Base.{
  ℕ, String, ◌≡◌, ◌≢◌, ◌⊎◌, inl, inr, refl, sym, ap, ◌∙◌, Bool, true, false, not, ◌&&◌, ◌||◌,
  Option, none, some, if◌then◌else◌, ◌==◌, nat_eq, ==_of_ne, Bool-cases, Option-cases, arith,
}
use grafana_app_sdk.Resource.Object.{Object}
use grafana_app_sdk.Resource.Samples.{issue}
use grafana_app_sdk.Resource.Client.{
  Failure, outside, message, formatted, wrapped, status, response, written,
}
use grafana_app_sdk.K8s.Errors.{code_of, LacksCode}
use grafana_app_sdk.K8s.Client.{
  ResourcePath, same_resource, same_resource_refl, Request, Reply, Api, Requests, Codecs, send,
}
use grafana_app_sdk.K8s.Client.Requests.{IsApi}

abbrev pub is_missing : Failure → Bool
is_missing (outside n) = false
is_missing (message t) = false
is_missing (formatted t a) = false
is_missing (wrapped t e) = false
is_missing (status s) = nat_eq s.code 404
is_missing (response e n) = nat_eq n 404

abbrev has_name : String → Bool
has_name [] = false
has_name (c ∷ s) = nat_eq (code c) 110

abbrev text_of : String → String
text_of [] = ""
text_of (c ∷ s) = s

abbrev version_of : String → String
version_of b = if has_name b then "1" else text_of b

abbrev write : Object → String
write o = if o.resource_version == "" then "n" ∷ o.name else "v" ∷ o.resource_version

abbrev pub codecs : Codecs
codecs = record {
  plural = λ k. k.kind;
  read = λ k b. inr (issue "one" (version_of b) 0);
  write = λ k o. inr (write o);
  label = λ t n. n;
  join = λ ts. "";
  itoa = λ n. "1";
  read_status = λ b. none;
  read_version = λ b. inr (version_of b);
  read_list = λ b. inl (outside 0);
}

abbrev refuse : ℕ → Reply
refuse n = record { code = n; raw = ""; error = some (outside n) }

abbrev accept : String → Reply
accept b = record { code = 200; raw = b; error = none }

abbrev named : ResourcePath → String → ResourcePath
named p name = record p { name = name }

abbrev change : Bool → Reply → Option String → Option String
change b r old = if b then written r.error (some r.raw) old else old

abbrev pub kept : Requests → ResourcePath → Option String
kept [] q = none
kept ((Request.get p, r) ∷ x) q = kept x q
kept ((Request.post p dry b, r) ∷ x) q =
    change (not dry && same_resource (named p (text_of b)) q) r (kept x q)
kept ((Request.put p sub dry b, r) ∷ x) q = change (not dry && same_resource p q) r (kept x q)
kept ((Request.delete p b, r) ∷ x) q = kept x q
kept ((Request.list p ps, r) ∷ x) q = kept x q

abbrev shown : Option String → Reply
shown none = refuse 404
shown (some b) = accept b

abbrev made : String → Option String → Reply
made b none = if has_name b then accept b else refuse 400
made b (some old) = refuse 409

abbrev replaced : String → Option String → Reply
replaced b none = refuse 404
replaced b (some old) = if has_name b || text_of b == version_of old then accept b else refuse 409

abbrev pub memory : Api
memory x (Request.get p) = shown (kept x p)
memory x (Request.post p dry b) = made b (kept x (named p (text_of b)))
memory x (Request.put p sub dry b) = replaced b (kept x p)
memory x (Request.delete p b) = refuse 405
memory x (Request.list p ps) = refuse 405

change_off : (b : Bool) (r : Reply) (old : Option String) → b ≡ false → change b r old ≡ old
change_off b r old e = ap (λ c. change c r old) e

change_on :
    (b : Bool) (r : Reply) (old : Option String)
    → b ≡ true
    → change b r old ≡ written r.error (some r.raw) old
change_on b r old e = ap (λ c. change c r old) e

change_dry :
    (dry b : Bool) (r : Reply) (old : Option String) → b ≡ false → change (not dry && b) r old ≡ old
change_dry true b r old e = refl
change_dry false b r old e = change_off b r old e

-- A post that is refused changes nothing.
change_refused :
    (b : Bool) (r : Reply) (old : Option String) → r.error ≢ none → change b r old ≡ old
change_refused true r old h = elim (Option-cases r.error) [
  | inl n ↦ absurd (h n)
  | inr (e, n) ↦ rw n refl
]
change_refused false r old h = refl

made_refused : (b : String) (x : Option String) → has_name b ≡ false → (made b x).error ≢ none
made_refused b none e = rw e (λ y. cc)
made_refused b (some old) e = λ y. cc

shown_stored : (x : Option String) → (shown x).error ≡ none → x ≡ some (shown x).raw
shown_stored none e = cc
shown_stored (some b) e = refl

shown_found :
    (x : Option String) (b : String) (e : Failure)
    → x ≡ some b
    → (shown x).error ≡ some e
    → LacksCode codecs.read_status 404 (shown x).raw (shown x).code e
shown_found none b e s h = cc
shown_found (some c) b e s h = cc

put_refused :
    (b : String) (x : Option String) (old : String)
    → x ≡ some old
    → has_name b ≡ false
    → text_of b ≢ version_of old
    → (replaced b x).error ≢ none
put_refused b none old s n d = λ y. cc
put_refused b (some c) old s n d =
    let e : (text_of b == version_of c) ≡ false =
      ==_of_ne (text_of b) (version_of c) (λ z. d (z ∙ ap version_of (same s))) in
    rw (n, e) (λ y. cc)
  where
    same : some c ≡ some old → c ≡ old
    same s = cc s

-- What is written of an object with a version, and of one without.
write_version : (o : Object) → o.resource_version ≢ "" → write o ≡ "v" ∷ o.resource_version
write_version o h = rw (==_of_ne o.resource_version "" h) refl

is_missing_code : (e : Failure) → is_missing e ≡ true → code_of e ≡ some 404
unfolding code_of
is_missing_code (outside n) h = cc
is_missing_code (message t) h = cc
is_missing_code (formatted t a) h = cc
is_missing_code (wrapped t e) h = cc
is_missing_code (status s) h = ground (arith, h)
is_missing_code (response e n) h = ground (arith, h)

write_cases : (o : Object) → (write o ≡ "n" ∷ o.name) ⊎ (has_name (write o) ≡ false)
write_cases o = elim (Bool-cases (o.resource_version == "")) [
  | inl b ↦ inl (rw b refl)
  | inr b ↦ inr (rw b refl)
]

written_refused :
    (r : Reply) (old : Option String) → r.error ≢ none → old ≡ written r.error (some r.raw) old
written_refused r old h = elim (Option-cases r.error) [
  | inl n ↦ absurd (h n)
  | inr (e, n) ↦ rw n refl
]

posted :
    (p : ResourcePath) (o : Object) (b : String) (old at_b : Option String)
    → write o ≡ b
    → let r = made b at_b in
      change (same_resource (named p (text_of b)) (named p o.name)) r old
      ≡ written r.error (some r.raw) old
posted p o b old at_b w = elim (write_cases o) [
  | inl n ↦ change_on (same_resource (named p (text_of b)) (named p o.name)) (made b at_b) old (
      ap (λ t. same_resource (named p (text_of t)) (named p o.name)) (sym w ∙ n)
      ∙ same_resource_refl (named p o.name))
  | inr n ↦
      let refused = made_refused b at_b (ap has_name (sym w) ∙ n) in
      change_refused (same_resource (named p (text_of b)) (named p o.name)) (made b at_b) old
        refused
      ∙ written_refused (made b at_b) old refused
]

posted_apart :
    (p q : ResourcePath) (o : Object) (b : String) (dry : Bool) (old at_b : Option String)
    → write o ≡ b
    → same_resource (named p o.name) q ≡ false
    → change (not dry && same_resource (named p (text_of b)) q) (made b at_b) old ≡ old
posted_apart p q o b dry old at_b w d = elim (write_cases o) [
  | inl n ↦
      change_dry dry (same_resource (named p (text_of b)) q) (made b at_b) old
        (ap (λ t. same_resource (named p (text_of t)) q) (sym w ∙ n) ∙ d)
  | inr n ↦
      change_refused (not dry && same_resource (named p (text_of b)) q) (made b at_b) old
        (made_refused b at_b (ap has_name (sym w) ∙ n))
]

abbrev sent : String → Failure ⊎ String
sent b = inr b

body_of : (a b : String) → sent a ≡ sent b → a ≡ b
body_of a b e = cc e

put_stale :
    (o : Object) (b old v : String) (x : Option String)
    → write o ≡ b
    → x ≡ some old
    → version_of old ≡ v
    → o.resource_version ≢ ""
    → o.resource_version ≢ v
    → (replaced b x).error ≢ none
put_stale o b old v x w s u named other =
    let t = sym w ∙ write_version o named in
    put_refused b x old s (ap has_name t) (λ z. other (sym (ap text_of t) ∙ z ∙ u))

pub memory_api : IsApi codecs memory is_missing
unfolding send
memory_api = record {
  stored = kept;
  get_keeps = λ x p q. refl;
  get_stored = λ x p. shown_stored (kept x p);
  get_found = λ x p b e. shown_found (kept x p) b e;
  post_stored = λ x p k o b w.
      posted p o b (kept x (named p o.name)) (kept x (named p (text_of b))) (body_of (write o) b w);
  post_apart = λ x p q k o b dry w d.
      posted_apart p q o b dry (kept x q) (kept x (named p (text_of b))) (body_of (write o) b w) d;
  put_stored = λ x p sub b.
      change_on (same_resource p p) (replaced b (kept x p)) (kept x p) (same_resource_refl p);
  put_apart =
      λ x p q sub b dry. change_dry dry (same_resource p q) (replaced b (kept x p)) (kept x q);
  put_mismatch = λ x p k o sub b old v dry w s u named other.
      put_stale o b old v (kept x p) (body_of (write o) b w) s (body_of (version_of old) v u) named
        other;
  readable = λ x k i b s. (issue "one" (version_of b) 0, refl, refl);
  not_found_code = is_missing_code;
}

-- What the server holds under the contract.
pub held : (x : Requests) (p : ResourcePath) → memory_api.stored x p ≡ kept x p
unfolding memory_api
held x p = refl
