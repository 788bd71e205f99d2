-- ===== src/Operator/Action.antt =====
-- operator/informer_controller.go and operator/reconciler.go: the two enumerations of actions and
-- the conversions between them.
use grafana_app_sdk.Base.{◌≡◌, refl, String}
use grafana_app_sdk.Operator.Io.{ReconcileAction, unknown, created, updated, deleted, resynced}

-- `ResourceAction` is a string type with four constants; any other string is `other`.
pub data ResourceAction : Type 0 where
  create update delete resync : ResourceAction
  other : String → ResourceAction

pub reconcile_action_from_resource_action : ResourceAction → ReconcileAction
reconcile_action_from_resource_action create = created
reconcile_action_from_resource_action update = updated
reconcile_action_from_resource_action delete = deleted
reconcile_action_from_resource_action resync = resynced
reconcile_action_from_resource_action (other s) = unknown

pub resource_action_from_reconcile_action : ReconcileAction → ResourceAction
resource_action_from_reconcile_action created = create
resource_action_from_reconcile_action updated = update
resource_action_from_reconcile_action deleted = delete
resource_action_from_reconcile_action resynced = resync
resource_action_from_reconcile_action unknown = other ""

-- A reconcile action survives the way to a resource action and back.
pub reconcile_action_round_trip :
    (a : ReconcileAction)
    → reconcile_action_from_resource_action (resource_action_from_reconcile_action a) ≡ a
unfolding reconcile_action_from_resource_action resource_action_from_reconcile_action
reconcile_action_round_trip unknown = refl
reconcile_action_round_trip _ = refl
