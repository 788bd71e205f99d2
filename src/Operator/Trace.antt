-- ===== src/Operator/Trace.antt =====
-- What a run of the operator code adds to the history of outside calls.
use grafana_app_sdk.Base.{◌∷◌, ◌≡◌, refl, Bool, true, false, if◌then◌else◌}
use grafana_app_sdk.Resource.Object.{Object}
use grafana_app_sdk.Resource.Patch.{PatchRequest}
use grafana_app_sdk.Operator.Io.{Call, Response, Log}

-- The log `v` is `w` with more calls, each of which satisfies `P`.
pub data Grows (P : Call → Type 0) (w : Log) : Log → Type 0 where
  stay : Grows P w w
  more : {v : Log} {c : Call} {r : Response} → Grows P w v → P c → Grows P w ((c, r) ∷ v)

pub Grows-trans : {P : Call → Type 0} {u v w : Log} → Grows P u v → Grows P v w → Grows P u w
Grows-trans g stay = g
Grows-trans g (more h p) = more (Grows-trans g h) p

-- The two calls of a `PatchClient` satisfy `P`.
abbrev pub AllowsClient : (Call → Type 0) → Type 0
AllowsClient P =
    ((o : Object) (req : PatchRequest) → P (Call.patch_into o req))
    × ((o : Object) → P (Call.get_into o))

pub Grows-if :
    {P : Call → Type 0} {w : Log} {A : Type 0} (b : Bool) (x y : A × Log)
    → (b ≡ true → Grows P w x.1)
    → (b ≡ false → Grows P w y.1)
    → Grows P w (if b then x else y).1
Grows-if true x y f g = f refl
Grows-if false x y f g = g refl
