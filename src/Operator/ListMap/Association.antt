-- ===== src/Operator/ListMap/Association.antt =====
-- An association list has the behaviour that is documented of `xsync.MapOf`.
use grafana_app_sdk.Base.{
  ◌≡◌, refl, sym, subst, ◌∙◌, List, [], ◌∷◌, false, inl, inr, if◌then◌else◌, ==_cases, Bool-cases,
  Option, none, some, String, ◌==◌, eq_refl,
}
use grafana_app_sdk.Operator.ListMap.{MapOf}

-- The test for equal texts fails in both directions or in none.
j_i : (i j : String) → (i == j) ≡ false → (j == i) ≡ false
j_i i j h = elim (==_cases j i) [
  | inl e ↦ subst (λ x. (j == x) ≡ false) e (subst (λ x. (x == j) ≡ false) (sym e) h)
  | inr e ↦ e
]

module _ {V : Type 0} where
  abbrev pub lookup : List (String × V) → String → Option V
  lookup [] k = none
  lookup ((j, v) ∷ m) k = if j == k then some v else lookup m k

  abbrev pub without : List (String × V) → String → List (String × V)
  without [] k = []
  without ((j, v) ∷ m) k = if j == k then without m k else (j, v) ∷ without m k

  pub lookup-without :
      (m : List (String × V)) (j k : String)
      → lookup (without m j) k ≡ (if j == k then none else lookup m k)
  lookup-without [] j k = elim (Bool-cases (j == k)) [ inl e ↦ rw e refl | inr e ↦ rw e refl ]
  lookup-without ((i, v) ∷ m) j k = elim (==_cases i j) [
    | inl e ↦ rw e (
        rw (eq_refl j) (
          lookup-without m j k
          ∙ elim (Bool-cases (j == k)) [ inl h ↦ rw h refl | inr h ↦ rw h refl ]))
    | inr e ↦ elim (==_cases i k) [
      | inl h ↦ rw (sym h) (rw e (rw (eq_refl i) (rw (j_i i j e) refl)))
      | inr h ↦ rw e (rw h (lookup-without m j k))
    ]
  ]

abbrev pub assoc : (V : Type 0) → MapOf V
assoc V = record {
  Map = List (String × V);
  empty = [];
  load = lookup;
  store = λ m k v. (k, v) ∷ m;
  delete = without;
  load-empty = λ k. refl;
  load-store = λ m j k v. refl;
  load-delete = lookup-without;
}
