-- ===== src/Operator/Io.antt =====
-- The calls that the operator package makes to code outside it: the user's handlers and the API
-- server behind `PatchClient`. The outside world is one function, which answers a call from the
-- history of all calls so far, so a handler or a server may behave in any way at all.
-- A `resource.Object` is passed by reference there: an answer holds the object after the call.
use grafana_app_sdk.Base.{ℕ, String, Option, List, ◌∷◌}
use grafana_app_sdk.Resource.Object.{Object}
use grafana_app_sdk.Resource.Patch.{PatchRequest}

-- Go errors: those that outside code returns, by a number, those of `errors.New`, the wrapping
-- `fmt.Errorf("...: %w", err)`, and `FinalizerOperationError`.
pub data Err : Type 0 where
  outside : ℕ → Err
  message : String → Err
  errorf : String → Err → Err
  finalizer_operation : Err → PatchRequest → Err

-- `map[string]any` of `ReconcileResult.State`: each key with its value, where a value of the
-- SDK's own keys is an error and any other is a number.
pub data Any : Type 0 where
  error : Err → Any
  other : ℕ → Any

abbrev pub State : Type 0
State = List (String × Any)

pub data ReconcileAction : Type 0 where
  unknown created updated deleted resynced : ReconcileAction

pub record ReconcileRequest : Type 0 where
  pub action : ReconcileAction
  pub object : Object
  pub state : Option State

pub data Call : Type 0 where
  add_func : Object → Call
  update_func : Object → Object → Call
  delete_func : Object → Call
  sync_func : Object → Call
  reconcile : ReconcileRequest → Call
  patch_into : Object → PatchRequest → Call
  get_into : Object → Call

pub record Response : Type 0 where
  pub object : Object
  pub error : Option Err
  pub requeue_after : Option ℕ
  pub state : Option State

-- The calls so far with their answers, the last one first.
abbrev pub Log : Type 0
Log = List (Call × Response)

abbrev pub Env : Type 0
Env = Log → Call → Response

abbrev pub Io : Type 0 → Type 0
Io A = Log → A × Log

abbrev pub pure : {A : Type 0} → A → Io A
pure a w = (a, w)

infixl 5 ◌>>=◌
abbrev pub ◌>>=◌ : {A B : Type 0} → Io A → (A → Io B) → Io B
◌>>=◌ m f w = f (m w).0 (m w).1

-- One call, with its answer added to the log.
abbrev pub perform : Env → Call → Io Response
perform env c w = (env w c, (c, env w c) ∷ w)

-- An object after an operation, and the error of the operation.
abbrev pub Outcome : Type 0
Outcome = Object × Option Err
