-- ===== src/Operator/ListMap/Removal.antt =====
-- Removing items by their indices, last index first, is removing the items that match.
use grafana_app_sdk.Base.{
  ℕ, zero, suc, ◌+◌, ◌≤◌, ◌≡◌, refl, sym, ap, ◌∙◌, List, [], ◌∷◌, ◌++◌, Bool, ◌&&◌, inl, inr, ltb,
  leb, nat_eq, length, map, if◌then◌else◌, Bool-cases, arith,
}
use grafana_app_sdk.Operator.ListMap.{take, drop, remove, collect, remove_backwards}
use native.Mathlib.Numerals.{add-one}

length-map-suc : (is : List ℕ) → length (map suc is) ≡ length is
length-map-suc [] = refl
length-map-suc (i ∷ is) = omega (arith, length-map-suc is)

module _ {V : Type 0} where
  -- The list without the item at an index, by recursion.
  abbrev pub erase_at : List V → ℕ → List V
  erase_at [] i = []
  erase_at (x ∷ xs) zero = xs
  erase_at (x ∷ xs) (suc i) = x ∷ erase_at xs i

  -- The list without its first items that match, as many as the limit says (0 for all).
  abbrev pub without_first : (V → Bool) → ℕ → ℕ → List V → List V
  without_first match limit found [] = []
  without_first match limit found (x ∷ xs) =
      let hit = without_first match limit (found + 1) xs in
      let miss = without_first match limit found xs in
      if match x then (if ltb 0 limit && leb limit (found + 1) then xs else hit) else x ∷ miss

  take_all : (xs : List V) → take (length xs) xs ≡ xs
  unfolding take
  take_all [] = refl
  take_all (x ∷ xs) = ap (◌∷◌ x) (take_all xs)

  take-drop_erase : (xs : List V) (i : ℕ) → take i xs ++ drop (suc i) xs ≡ erase_at xs i
  unfolding take drop
  take-drop_erase [] zero = refl
  take-drop_erase [] (suc i) = refl
  take-drop_erase (x ∷ xs) zero = refl
  take-drop_erase (x ∷ xs) (suc i) = ap (◌∷◌ x) (take-drop_erase xs i)

  erase_beyond : (xs : List V) (i : ℕ) → length xs ≤ i → erase_at xs i ≡ xs
  erase_beyond [] i h = refl
  erase_beyond (x ∷ xs) zero h = absurd (omega arith)
  erase_beyond (x ∷ xs) (suc i) h = ap (◌∷◌ x) (erase_beyond xs i (omega arith))

  take_erase_last : (xs : List V) (i : ℕ) → suc i ≡ length xs → take i xs ≡ erase_at xs i
  unfolding take
  take_erase_last [] i h = absurd (omega arith)
  take_erase_last (x ∷ []) zero h = refl
  take_erase_last (x ∷ y ∷ xs) zero h = absurd (omega arith)
  take_erase_last (x ∷ xs) (suc i) h = ap (◌∷◌ x) (take_erase_last xs i (omega arith))

  first_erase : (xs : List V) → (if ltb 1 (length xs) then drop 1 xs else []) ≡ erase_at xs 0
  unfolding drop
  first_erase [] = refl
  first_erase (x ∷ []) = refl
  first_erase (x ∷ y ∷ xs) = ground arith

  -- The four cases of `remove` are one function: the list without the item at the index.
  pub remove-erase_at : (xs : List V) (i : ℕ) → remove xs i ≡ erase_at xs i
  unfolding remove
  remove-erase_at xs zero = elim (Bool-cases (leb (length xs) 0)) [
    | inl e ↦ rw e (sym (erase_beyond xs 0 (ground arith)))
    | inr e ↦ rw e (first_erase xs)
  ]
  remove-erase_at xs (suc i) = elim (Bool-cases (leb (length xs) (suc i))) [
    | inl e ↦ rw e (sym (erase_beyond xs (suc i) (ground arith)))
    | inr e ↦ elim (Bool-cases (nat_eq (suc i + 1) (length xs))) [
      | inl l ↦ ground (arith, take_erase_last xs (suc i))
      | inr l ↦ ground (
        arith,
        ap (λ (n : ℕ). take (suc i) xs ++ drop n xs) (add-one (suc i)),
        take-drop_erase xs (suc i),
      )
    ]
  ]

  collect_shift :
      (match : V → Bool) (limit found i : ℕ) (xs : List V)
      → collect match limit found (suc i) xs ≡ map suc (collect match limit found i xs)
  unfolding collect
  collect_shift match limit found i [] = refl
  collect_shift match limit found i (x ∷ xs) = ground (
    arith,
    add-one i,
    add-one (suc i),
    collect_shift match limit (found + 1) (suc i) xs,
    collect_shift match limit found (suc i) xs,
  )

  remove_backwards_under :
      (is : List ℕ) (x : V) (xs : List V)
      → remove_backwards (map suc is) (x ∷ xs) ≡ x ∷ remove_backwards is xs
  unfolding remove_backwards
  remove_backwards_under [] x xs = refl
  remove_backwards_under (i ∷ is) x xs = rw (remove_backwards_under is x xs) (
      remove-erase_at (x ∷ remove_backwards is xs) (suc i)
      ∙ ap (◌∷◌ x) (sym (remove-erase_at (remove_backwards is xs) i)))

  remove_first :
      (is : List ℕ) (x : V) (xs : List V)
      → remove (remove_backwards (map suc is) (x ∷ xs)) 0 ≡ remove_backwards is xs
  remove_first is x xs =
      rw (remove_backwards_under is x xs) (remove-erase_at (x ∷ remove_backwards is xs) 0)

  -- The two loops of `RemoveItems` together: they remove the first matching items, as many as the
  -- limit says, and keep the order of the others.
  pub remove_backwards-collect :
      (match : V → Bool) (limit found : ℕ) (xs : List V)
      → remove_backwards (collect match limit found 0 xs) xs ≡ without_first match limit found xs
  unfolding collect remove_backwards
  remove_backwards-collect match limit found [] = refl
  remove_backwards-collect match limit found (x ∷ xs) = elim (Bool-cases (match x)) [
    | inl h ↦ elim (Bool-cases (ltb 0 limit && leb limit (found + 1))) [
      | inl full ↦ rw h (rw full (remove-erase_at (x ∷ xs) 0))
      | inr room ↦ rw h (
          rw room (
            rw (collect_shift match limit (found + 1) 0 xs) (
              remove_first (collect match limit (found + 1) 0 xs) x xs
              ∙ remove_backwards-collect match limit (found + 1) xs)))
    ]
    | inr m ↦ rw m (
        rw (collect_shift match limit found 0 xs) (
          remove_backwards_under (collect match limit found 0 xs) x xs
          ∙ ap (◌∷◌ x) (remove_backwards-collect match limit found xs)))
  ]

  pub length-collect :
      (match : V → Bool) (limit found i : ℕ) (xs : List V)
      → length (collect match limit found (suc i) xs) ≡ length (collect match limit found i xs)
  length-collect match limit found i xs =
      ap length (collect_shift match limit found i xs)
      ∙ length-map-suc (collect match limit found i xs)

  -- The count that `RemoveItems` answers is the number of items that it removes.
  pub length-without_first :
      (match : V → Bool) (limit found : ℕ) (xs : List V)
      → length (without_first match limit found xs) + length (collect match limit found 0 xs)
        ≡ length xs
  unfolding collect
  length-without_first match limit found [] = refl
  length-without_first match limit found (x ∷ xs) = elim (Bool-cases (match x)) [
    | inl h ↦ elim (Bool-cases (ltb 0 limit && leb limit (found + 1))) [
      | inl full ↦ rw h (rw full (omega arith))
      | inr room ↦ rw h (
          rw room (
            omega (
              arith,
              length-collect match limit (found + 1) 0 xs,
              length-without_first match limit (found + 1) xs,
            )))
    ]
    | inr m ↦ rw m (
        omega
          (arith, length-collect match limit found 0 xs, length-without_first match limit found xs))
  ]
