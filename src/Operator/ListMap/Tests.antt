-- ===== src/Operator/ListMap/Tests.antt =====
-- The theorems about list maps at concrete inputs.
use grafana_app_sdk.Base.{ℕ, ◌+◌, ◌≡◌, List, [], ◌∷◌, Bool, ltb, String}
use grafana_app_sdk.Operator.ListMap.{remove_items, range}
use grafana_app_sdk.Operator.ListMap.Association.{assoc}
use grafana_app_sdk.Operator.ListMap.Laws.{remove_items_lem}

abbrev numbers : List (String × List ℕ)
numbers = ("a", 1 ∷ 2 ∷ 3 ∷ 4 ∷ []) ∷ ("b", 2 ∷ []) ∷ []

abbrev small : ℕ → Bool
small n = ltb n 4

remove_items_lem_example :
    (range (assoc (List ℕ)) (remove_items (assoc (List ℕ)) numbers "a" small 2).0 "a" ≡ 3 ∷ 4 ∷ [])
    × (2 + (remove_items (assoc (List ℕ)) numbers "a" small 2).1 ≡ 4)
unfolding range remove_items
remove_items_lem_example = remove_items_lem (assoc (List ℕ)) numbers "a" "a" small 2
