-- ===== src/Base/Filters.antt =====
-- Filters of lists, and the list of the results of a partial function.
use mathlib.Core.Path.{◌≡◌, refl, sym, ap, ◌∙◌}
use mathlib.Core.Logic.{inl, inr}
use mathlib.Core.Bool.{Bool, true, false}
use mathlib.Core.List.{List, [], ◌∷◌, ◌++◌, map}
use grafana_app_sdk.Base.Lists.{filter, Bool-cases}

-- Both lists begin with their first elements, and go on with the others.
pub cons_parts {ℓ} : {A : Type ℓ} {x y : A} {xs ys : List A} → x ∷ xs ≡ y ∷ ys → (x ≡ y) × (xs ≡ ys)
cons_parts h = (cc h, cc h)

pub filter-append {ℓ} :
    {A : Type ℓ} (p : A → Bool) (xs ys : List A) → filter p (xs ++ ys) ≡ filter p xs ++ filter p ys
filter-append p [] ys = refl
filter-append p (x ∷ xs) ys = elim (Bool-cases (p x)) [
  | inl h ↦ rw h (ap (◌∷◌ x) (filter-append p xs ys))
  | inr h ↦ rw h (filter-append p xs ys)
]

-- A filter that keeps less, after another.
pub filter-filter {ℓ} :
    {A : Type ℓ} (p q : A → Bool)
    → ((x : A) → p x ≡ true → q x ≡ true)
    → (xs : List A) → filter p (filter q xs) ≡ filter p xs
filter-filter p q h [] = refl
filter-filter p q h (x ∷ xs) =
    let rest = filter-filter p q h xs in
    elim (Bool-cases (p x)) [
      | inl a ↦ rw (h x a, a) (ap (◌∷◌ x) rest)
      | inr a ↦ elim (Bool-cases (q x)) [ inl b ↦ rw (b, a) rest | inr b ↦ rw (b, a) rest ]
    ]

pub filter_kept {ℓ} :
    {A : Type ℓ} (p : A → Bool) (x : A) (xs : List A)
    → p x ≡ true
    → filter p (x ∷ xs) ≡ x ∷ filter p xs
filter_kept p x xs h = rw h refl

pub filter_left_out {ℓ} :
    {A : Type ℓ} (p : A → Bool) (x : A) (xs : List A)
    → p x ≡ false
    → filter p (x ∷ xs) ≡ filter p xs
filter_left_out p x xs h = rw h refl

-- What stands in the image of a filtered list is the image of something that passes the filter.
pub map-filter_member {ℓ κ} :
    {A : Type ℓ} {B : Type κ} (f : A → B) (p : A → Bool) (xs : List A) (before after : List B)
    (y : B)
    → map f (filter p xs) ≡ before ++ y ∷ after
    → (x : A) × (y ≡ f x) × (p x ≡ true)
map-filter_member f p [] [] after y h = cc
map-filter_member f p [] (z ∷ before) after y h = cc
map-filter_member f p (x ∷ xs) [] after y h = elim (Bool-cases (p x)) [
  | inr a ↦ map-filter_member f p xs [] after y (sym (ap (map f) (filter_left_out p x xs a)) ∙ h)
  | inl a ↦ (x, sym (cons_parts (sym (ap (map f) (filter_kept p x xs a)) ∙ h)).0, a)
]
map-filter_member f p (x ∷ xs) (z ∷ before) after y h = elim (Bool-cases (p x)) [
  | inr a ↦
      map-filter_member f p xs (z ∷ before) after y
        (sym (ap (map f) (filter_left_out p x xs a)) ∙ h)
  | inl a ↦
      map-filter_member f p xs before after y
        (cons_parts (sym (ap (map f) (filter_kept p x xs a)) ∙ h)).1
]
