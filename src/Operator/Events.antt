-- ===== src/Operator/Events.antt =====
-- The calls that the informer controller makes: to watchers, reconcilers and the error handler,
-- which are outside code, known by numbers. Objects are shared by reference: a call names a
-- `resource.Object` by its pointer, and an answer holds all objects as they are after the call.
use grafana_app_sdk.Base.{ℕ, List, Option}
use grafana_app_sdk.Resource.Object.{Object}
use grafana_app_sdk.Operator.Io.{Err, State, ReconcileAction}

abbrev pub Pointer : Type 0
Pointer = ℕ

abbrev pub Objects : Type 0
Objects = Pointer → Object

pub record EventRequest : Type 0 where
  pub action : ReconcileAction
  pub object : Pointer
  pub state : Option State

pub data EventCall : Type 0 where
  watcher_add : ℕ → Pointer → EventCall
  watcher_update : ℕ → Option Pointer → Pointer → EventCall
  watcher_delete : ℕ → Pointer → EventCall
  reconcile : ℕ → EventRequest → EventCall
  handle_error : Err → EventCall

pub record Answer : Type 0 where
  pub error : Option Err
  pub requeue_after : Option ℕ
  pub state : Option State
  pub objects : Objects

-- The calls so far with their answers, the last one first.
abbrev pub History : Type 0
History = List (EventCall × Answer)

-- Outside code, and `time.Now`, both of which may depend on all that happened before.
pub record Outside : Type 0 where
  pub call : History → EventCall → Answer
  pub clock : History → ℕ
