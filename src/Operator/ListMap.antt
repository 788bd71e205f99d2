-- ===== src/Operator/ListMap.antt =====
-- operator/util.go: a map of lists. `xsync.MapOf` is a parameter with its documented behaviour.
-- Each method holds the lock of its key throughout, so it is one step; the locks themselves and
-- the sharing of memory between slices are left out.
use grafana_app_sdk.Base.{
  ℕ, zero, suc, ◌+◌, ◌-◌, ◌≡◌, ◌≢◌, ◌↔◌, String, List, [], ◌∷◌, ◌++◌, Bool, true, false, ◌&&◌,
  Option, none, some, ltb, leb, nat_eq, length, get_elem?, if◌then◌else◌, ◌==◌, map,
}
pub mod Removal
pub mod Laws
pub mod Association
mod Tests

pub record MapOf (V : Type 0) : Type 1 where
  pub Map : Type 0
  pub empty : Map
  pub load : Map → String → Option V
  pub store : Map → String → V → Map
  pub delete : Map → String → Map
  pub load-empty : (k : String) → load empty k ≡ none
  pub load-store :
      (m : Map) (j k : String) (v : V)
      → load (store m j v) k ≡ (if j == k then some v else load m k)
  pub load-delete :
      (m : Map) (j k : String) → load (delete m j) k ≡ (if j == k then none else load m k)

module _ {V : Type 0} where
  take : ℕ → List V → List V
  take zero xs = []
  take (suc n) [] = []
  take (suc n) (x ∷ xs) = x ∷ take n xs

  drop : ℕ → List V → List V
  drop zero xs = xs
  drop (suc n) [] = []
  drop (suc n) (x ∷ xs) = drop n xs

  -- The helper `remove`: the list without the item at an index.
  pub remove : List V → ℕ → List V
  unfolding take drop
  remove list i =
      if leb (length list) i
      then list
      else (if nat_eq i 0
          then (if ltb 1 (length list) then drop 1 list else [])
          else (if nat_eq (i + 1) (length list)
              then take i list
              else take i list ++ drop (i + 1) list))

  -- The first loop of `RemoveItems`: the indices to remove, from the index `i` on, where `found`
  -- have been found before. A limit below 1 is 0 here and means that there is none.
  pub collect : (V → Bool) → ℕ → ℕ → ℕ → List V → List ℕ
  collect match limit found i [] = []
  collect match limit found i (x ∷ xs) =
      let hit = collect match limit (found + 1) (i + 1) xs in
      let miss = collect match limit found (i + 1) xs in
      if match x then i ∷ (if ltb 0 limit && leb limit (found + 1) then [] else hit) else miss

  -- The second loop, from the last index to the first.
  pub remove_backwards : List ℕ → List V → List V
  unfolding remove
  remove_backwards [] list = list
  remove_backwards (i ∷ is) list = remove (remove_backwards is list) i

  -- The loop of `RemoveItem`: the index of the first match.
  first_match : (V → Bool) → ℕ → List V → Option ℕ
  first_match match i [] = none
  first_match match i (x ∷ xs) =
      let rest = first_match match (i + 1) xs in if match x then some i else rest

module _ {V : Type 0} (maps : MapOf (List V)) where
  open maps use {Map, empty, load, store, delete}

  abbrev list_or_empty : Option (List V) → List V
  list_or_empty none = []
  list_or_empty (some list) = list

  pub new_list_map : Map
  new_list_map = empty

  pub item_at : Map → String → ℕ → Option V
  item_at m key index = elim (load m key) [ none ↦ none | some list ↦ get_elem? list index ]

  pub key_size : Map → String → ℕ
  key_size m key = elim (load m key) [ none ↦ 0 | some list ↦ length list ]

  -- The items that `Range` hands to its function, in order.
  unfoldable pub range : Map → String → List V
  range m key = list_or_empty (load m key)

  pub add_item : Map → String → List V → Map
  add_item m key items = store m key (list_or_empty (load m key) ++ items)

  pub remove_key : Map → String → Map
  remove_key m key = delete m key

  pub remove_item_at : Map → String → ℕ → Map
  unfolding remove
  remove_item_at m key index = elim (load m key) [
    | none ↦ m
    | some list ↦ store m key (remove list index)
  ]

  pub remove_item : Map → String → (V → Bool) → Map × Bool
  unfolding remove first_match
  remove_item m key match = elim (load m key) [
    | none ↦ (m, false)
    | some list ↦ elim (first_match match 0 list) [
      | none ↦ (m, false)
      | some i ↦ (store m key (remove list i), true)
    ]
  ]

  pub remove_items : Map → String → (V → Bool) → ℕ → Map × ℕ
  remove_items m key match limit = elim (load m key) [
    | none ↦ (m, 0)
    | some list ↦
        let indices = collect match limit 0 0 list in
        (store m key (remove_backwards indices list), length indices)
  ]
