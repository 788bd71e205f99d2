-- ===== src/Operator/EventQueue/Samples.antt =====
-- A list has the documented behaviour of the ring buffer.
use grafana_app_sdk.Base.{List, [], ◌∷◌, ◌++◌, ◌≡◌, refl, Option, none, some}
use grafana_app_sdk.Operator.EventQueue.{RingGrowing}

abbrev read : {E : Type 0} → List E → Option E × List E
read [] = (none, [])
read (e ∷ es) = (some e, es)

pub read_nothing : {E : Type 0} (r : List E) → r ≡ [] → ((read r).0 ≡ none) × ((read r).1 ≡ [])
read_nothing r h = rw h (refl, refl)

pub read_first :
    {E : Type 0} (r : List E) (e : E) (es : List E)
    → r ≡ e ∷ es
    → ((read r).0 ≡ some e) × ((read r).1 ≡ es)
read_first r e es h = rw h (refl, refl)

abbrev pub list_ring : (E : Type 0) → RingGrowing E
list_ring E = record {
  Ring = List E;
  empty = [];
  write_one = λ r e. r ++ e ∷ [];
  read_one = read;
  contents = λ r. r;
  contents-empty = refl;
  contents-write_one = λ r e. refl;
  read_one_empty = read_nothing;
  read_one_full = read_first;
}
