-- ===== src/Operator/Samples.antt =====
-- Objects, an API server that applies JSON patches, and one that answers its first call by a
-- conflict.
use grafana_app_sdk.Base.{ℕ, String, List, [], ◌∷◌, Bool, false, Option, none, some, nat_eq, arith}
use grafana_app_sdk.Resource.Object.{Object}
use grafana_app_sdk.Resource.Patch.{PatchRequest, apply_operations}
use grafana_app_sdk.Operator.Io.{
  Err, outside, errorf, finalizer_operation, message, Call, add_func, update_func, delete_func,
  sync_func, reconcile, patch_into, get_into, Response, Env,
}
use grafana_app_sdk.Operator.Finalizers.Patches.{IsPatchServer}

abbrev pub object_with : List String → Option ℕ → Object
object_with fs deletion = record {
  group = "g";
  version = "v1";
  kind = "Issue";
  namespace = "default";
  name = "one";
  resource_version = "7";
  generation = 2;
  deletion_timestamp = deletion;
  finalizers = fs;
  update_timestamp = 0;
  content = 0;
}

-- `apierrors.IsConflict`, where the status code 409 is the error of that number.
abbrev pub is_409 : Err → Bool
is_409 (outside n) = nat_eq n 409
is_409 (message s) = false
is_409 (errorf s e) = is_409 e
is_409 (finalizer_operation e req) = is_409 e

abbrev pub answer : Object → Option Err → Response
answer o e = record { object = o; error = e; requeue_after = none; state = none }

abbrev pub patched : Object → PatchRequest → Response
patched o req = elim (apply_operations req.operations o.finalizers) [
  | none ↦ answer o (some (outside 422))
  | some fs ↦ answer (record o { finalizers = fs }) none
]

abbrev pub served : Call → Response
served (patch_into o req) = patched o req
served (get_into o) = answer o none
served (add_func o) = answer o none
served (update_func src tgt) = answer tgt none
served (delete_func o) = answer o none
served (sync_func o) = answer o none
served (reconcile request) = answer request.object none

abbrev pub server : Env
server w c = served c

-- The first call of all meets a conflict if it is a patch.
abbrev conflicting : Call → Response
conflicting (patch_into o req) = answer o (some (outside 409))
conflicting (get_into o) = answer o none
conflicting c = served c

abbrev pub racing : Env
racing [] c = conflicting c
racing (x ∷ w) c = served c

-- Every delete handler and every wrapped reconciler fails, and so does every patch.
abbrev pub broken : Env
broken w (delete_func o) = answer o (some (outside 500))
broken w (patch_into o req) = answer o (some (outside 500))
broken w c = served c

abbrev pub failing : Env
failing w c = answer (object_with [] none) (some (outside 500))

pub server-IsPatchServer : IsPatchServer server
server-IsPatchServer w o req h = ground arith

pub racing-IsPatchServer : IsPatchServer racing
racing-IsPatchServer [] o req h = absurd (ground arith)
racing-IsPatchServer (x ∷ w) o req h = ground arith
