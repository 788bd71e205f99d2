-- ===== src/Operator/ListMap/Laws.antt =====
-- What the operations of `ListMap` do to the lists of all keys.
use native.Mathlib.Numerals.{unary_clauses}
use grafana_app_sdk.Base.{
  ℕ, suc, ◌+◌, ◌≡◌, refl, sym, ap, ◌∙◌, List, [], ◌∷◌, ◌++◌, Bool, false, not, inl, inr, ltb,
  length, if◌then◌else◌, Bool-cases, filter, true, ◌&&◌, Option, none, some, Option-cases, String,
  ◌==◌, ==_cases, eq_refl, subst,
}
use grafana_app_sdk.Operator.ListMap.{
  MapOf, collect, remove_items, remove_item, first_match, range, add_item, remove_key,
}
use grafana_app_sdk.Operator.ListMap.Removal.{
  without_first, remove_backwards-collect, length-without_first, length-collect, erase_at,
  remove-erase_at,
}

abbrev next : Option ℕ → Option ℕ
next none = none
next (some i) = some (suc i)

abbrev found_count : Option ℕ → ℕ
found_count none = 0
found_count (some i) = 1

found_count-next : (o : Option ℕ) → found_count (next o) ≡ found_count o
found_count-next none = refl
found_count-next (some i) = refl

module _ {V : Type 0} where
  filter-none : (xs : List V) → filter (λ x. false) xs ≡ []
  filter-none [] = refl
  filter-none (x ∷ xs) = filter-none xs

  pub filter-all : (xs : List V) → filter (λ x. true) xs ≡ xs
  filter-all [] = refl
  filter-all (x ∷ xs) = ap (◌∷◌ x) (filter-all xs)

  -- Without a limit the items that stay are those that do not match.
  without_first-filter :
      (match : V → Bool) (found : ℕ) (xs : List V)
      → without_first match 0 found xs ≡ filter (λ x. not (match x)) xs
  without_first-filter match found [] = refl
  without_first-filter match found (x ∷ xs) = elim (Bool-cases (match x)) [
    | inl e ↦ rw e (without_first-filter match (found + 1) xs)
    | inr e ↦ rw e (ap (◌∷◌ x) (without_first-filter match found xs))
  ]

  abbrev erase_found : Option ℕ → List V → List V
  erase_found none xs = xs
  erase_found (some i) xs = erase_at xs i

  first_match_shift :
      (match : V → Bool) (i : ℕ) (xs : List V)
      → first_match match (suc i) xs ≡ next (first_match match i xs)
  unfolding first_match
  first_match_shift match i [] = refl
  first_match_shift match i (x ∷ xs) = elim (Bool-cases (match x)) [
    | inl e ↦ rw e refl
    | inr e ↦ rw e (simp unary_clauses (first_match_shift match (suc i) xs))
  ]

  erase_found-next :
      (o : Option ℕ) (x : V) (xs : List V) → erase_found (next o) (x ∷ xs) ≡ x ∷ erase_found o xs
  erase_found-next none x xs = refl
  erase_found-next (some i) x xs = refl

  -- The loop of `RemoveItem` finds what the loop of `RemoveItems` finds with a limit of 1.
  first_match-without_first :
      (match : V → Bool) (xs : List V)
      → (erase_found (first_match match 0 xs) xs ≡ without_first match 1 0 xs)
        × (found_count (first_match match 0 xs) ≡ length (collect match 1 0 0 xs))
  unfolding first_match collect
  first_match-without_first match [] = (refl, refl)
  first_match-without_first match (x ∷ xs) = elim (Bool-cases (match x)) [
    | inl e ↦ rw e (refl, refl)
    | inr e ↦
        let ih = first_match-without_first match xs in
        rw e (
          rw (first_match_shift match 0 xs) (
            erase_found-next (first_match match 0 xs) x xs ∙ ap (◌∷◌ x) (ih.0),
            found_count-next (first_match match 0 xs) ∙ ih.1 ∙ sym (length-collect match 1 0 0 xs),
          ))
  ]

module _ {V : Type 0} (maps : MapOf (List V)) where
  open maps use {Map, load, store, delete, load-store, load-delete}

  -- The list of a key after a new list is stored under some key.
  range-store :
      (m : Map) (key k : String) (xs : List V)
      → range maps (store m key xs) k ≡ (if key == k then xs else range maps m k)
  unfolding range
  range-store m key k xs = elim (Bool-cases (key == k)) [
    | inl e ↦ rw (load-store m key k xs) (rw e refl)
    | inr e ↦ rw (load-store m key k xs) (rw e refl)
  ]

  range-none : (m : Map) (k : String) → load m k ≡ none → range maps m k ≡ []
  unfolding range
  range-none m k h = rw h refl

  range-some : (m : Map) (k : String) (xs : List V) → load m k ≡ some xs → range maps m k ≡ xs
  unfolding range
  range-some m k xs h = rw h refl

  -- A change of one list that stores the result, seen at every key.
  range-change :
      (f : List V → List V) (m : Map) (key k : String) (xs : List V)
      → load m key ≡ some xs
      → range maps (store m key (f xs)) k
        ≡ (if key == k then f (range maps m k) else range maps m k)
  range-change f m key k xs h = elim (==_cases key k) [
    | inl e ↦
        subst
          (λ j.
            range maps (store m key (f xs)) j
            ≡ (if key == j then f (range maps m j) else range maps m j))
          e (range-store m key key (f xs) ∙ rw (eq_refl key) (ap f (sym (range-some m key xs h))))
    | inr e ↦ range-store m key k (f xs) ∙ rw e refl
  ]

  remove_items-none :
      (m : Map) (key : String) (match : V → Bool) (limit : ℕ)
      → load m key ≡ none
      → remove_items maps m key match limit ≡ (m, 0)
  unfolding remove_items
  remove_items-none m key match limit h = rw (h, remove_items) refl

  remove_items-some :
      (m : Map) (key : String) (match : V → Bool) (limit : ℕ) (xs : List V)
      → load m key ≡ some xs
      → remove_items maps m key match limit
        ≡ (store m key (without_first match limit 0 xs), length (collect match limit 0 0 xs))
  unfolding remove_items
  remove_items-some m key match limit xs h =
      rw (h, remove_items) (rw (remove_backwards-collect match limit 0 xs) refl)

  -- A key whose list is empty or missing has nothing to change.
  unchanged :
      (f : List V → List V) (m : Map) (key k : String)
      → f [] ≡ []
      → load m key ≡ none
      → range maps m k ≡ (if key == k then f (range maps m k) else range maps m k)
  unchanged f m key k e h = elim (==_cases key k) [
    | inl same ↦
        subst (λ j. range maps m j ≡ (if key == j then f (range maps m j) else range maps m j)) same
          (rw (eq_refl key) (rw (range-none m key h) (sym e)))
    | inr other ↦ rw other refl
  ]

  -- What a key holds after `RemoveItems`, for every key: the list of the given key loses its first
  -- matching items, as many as the limit says (all of them when the limit is 0), the others stay
  -- in order, and the lists of other keys do not change. The answer counts the lost items.
  pub remove_items_lem :
      (m : Map) (key k : String) (match : V → Bool) (limit : ℕ)
      → (range maps (remove_items maps m key match limit).0 k
          ≡ (if key == k then without_first match limit 0 (range maps m k) else range maps m k))
        × (length (without_first match limit 0 (range maps m key))
              + (remove_items maps m key match limit).1
            ≡ length (range maps m key))
  remove_items_lem m key k match limit = elim (Option-cases (load m key)) [
    | inl e ↦
        rw (remove_items-none m key match limit e)
          (unchanged (without_first match limit 0) m key k refl e, rw (range-none m key e) refl)
    | inr (xs, e) ↦ rw (remove_items-some m key match limit xs e) (
      range-change (without_first match limit 0) m key k xs e,
      rw (range-some m key xs e) (length-without_first match limit 0 xs),
    )
  ]

  -- With no limit (a limit of 0 here), `RemoveItems` leaves exactly the items of the key that do
  -- not match, in their order.
  pub remove_items-filter :
      (m : Map) (key : String) (match : V → Bool)
      → range maps (remove_items maps m key match 0).0 key
        ≡ filter (λ x. not (match x)) (range maps m key)
  remove_items-filter m key match =
      (remove_items_lem m key key match 0).0
      ∙ rw (eq_refl key) (without_first-filter match 0 (range maps m key))

  -- `AddItem` appends to the list of its key, which may be missing, and changes no other list;
  -- `RemoveKey` empties the list of its key only.
  pub add_item-remove_key :
      (m : Map) (key k : String) (items : List V)
      → (range maps (add_item maps m key items) k
          ≡ (if key == k then range maps m k ++ items else range maps m k))
        × (range maps (remove_key maps m key) k ≡ (if key == k then [] else range maps m k))
  unfolding add_item remove_key range
  add_item-remove_key m key k items = elim (==_cases key k) [
    | inl e ↦ (
      range-store m key k (range maps m key ++ items) ∙ rw (sym e) (rw (eq_refl key) refl),
      rw (load-delete m key k) (rw (sym e) (rw (eq_refl key) refl)),
    )
    | inr e ↦ (
      range-store m key k (range maps m key ++ items) ∙ rw e refl,
      rw (load-delete m key k) (rw e refl),
    )
  ]

  -- Storing the list that a key has changes no list.
  range-store_same :
      (m : Map) (key k : String) (xs : List V)
      → load m key ≡ some xs
      → range maps (store m key xs) k ≡ range maps m k
  range-store_same m key k xs h = elim (==_cases key k) [
    | inl e ↦ range-store m key k xs ∙ rw (sym e) (rw (eq_refl key) (sym (range-some m key xs h)))
    | inr e ↦ range-store m key k xs ∙ rw e refl
  ]

  remove_item-some :
      (m : Map) (key k : String) (match : V → Bool) (xs : List V)
      → load m key ≡ some xs
      → (range maps (remove_item maps m key match).0 k
          ≡ range maps (store m key (erase_found (first_match match 0 xs) xs)) k)
        × ((remove_item maps m key match).1 ≡ ltb 0 (found_count (first_match match 0 xs)))
  unfolding remove_item
  remove_item-some m key k match xs h = elim (Option-cases (first_match match 0 xs)) [
    | inl e ↦ rw (h, remove_item) (rw (e, remove_item) (sym (range-store_same m key k xs h), refl))
    | inr (i, e) ↦
        rw (h, remove_item) (rw (e, remove_item) (rw (remove-erase_at xs i) (refl, refl)))
  ]

  remove_item-none :
      (m : Map) (key : String) (match : V → Bool)
      → load m key ≡ none
      → remove_item maps m key match ≡ (m, false)
  unfolding remove_item
  remove_item-none m key match h = rw (h, remove_item) refl

  -- `RemoveItem` does to the list of every key what `RemoveItems` does with a limit of 1, and it
  -- answers true just when `RemoveItems` answers more than 0.
  pub remove_item-remove_items :
      (m : Map) (key k : String) (match : V → Bool)
      → (range maps (remove_item maps m key match).0 k
          ≡ range maps (remove_items maps m key match 1).0 k)
        × ((remove_item maps m key match).1 ≡ ltb 0 (remove_items maps m key match 1).1)
  remove_item-remove_items m key k match = elim (Option-cases (load m key)) [
    | inl e ↦
        rw (remove_items-none m key match 1 e) (rw (remove_item-none m key match e) (refl, refl))
    | inr (xs, e) ↦ rw (remove_items-some m key match 1 xs e) (
        rw (sym ((first_match-without_first match xs).0))
          (rw (sym ((first_match-without_first match xs).1)) (remove_item-some m key k match xs e)))
  ]

  -- What `RemoveItems` without a limit and `RemoveKey` leave at every key, as filters.
  pub removed-filter :
      (m : Map) (key k : String) (match : V → Bool)
      → (range maps (remove_items maps m key match 0).0 k
          ≡ filter (λ x. not ((key == k) && match x)) (range maps m k))
        × (range maps (remove_key maps m key) k
            ≡ filter (λ x. not ((key == k) && true)) (range maps m k))
  removed-filter m key k match = elim (Bool-cases (key == k)) [
    | inl e ↦ (
      (remove_items_lem m key k match 0).0 ∙ rw e (without_first-filter match 0 (range maps m k)),
      (add_item-remove_key m key k []).1 ∙ rw e (sym (filter-none (range maps m k))),
    )
    | inr e ↦ (
      (remove_items_lem m key k match 0).0 ∙ rw e (sym (filter-all (range maps m k))),
      (add_item-remove_key m key k []).1 ∙ rw e (sym (filter-all (range maps m k))),
    )
  ]
