-- ===== src/Api/Server/Requests.antt =====
-- internal/api/server.go: `Server`, and what a handler reads and answers.
use gi_con_mon.Model.{Time, Target, AlertStatus, Status, TargetState, Event, Alert, ProbeNode}
use gi_con_mon.Common.{none, some, String, Option, ℕ, ℤ, List, if◌then◌else◌, str_eq}
use gi_con_mon.Storage.{Fault, Page, StoreError}
use gi_con_mon.Storage.Store.{Store}
use gi_con_mon.Fsm.Machine.{Fsm}
use gi_con_mon.Alerter.Engine.{Engine}

-- The body of an answer. `counts` are the statuses with the number of their targets.
pub data Body (F : Type 0) : Type 0 where
  error_body : String → String → Body F
  message : String → Body F
  summary : ℕ → List (Status × ℕ) → Time → Body F
  target_page : Page (Target F) → Body F
  target_body : Target F → Body F
  target_and_state : Target F → Option (TargetState F) → Body F
  state_body : TargetState F → Body F
  event_page : Page (Event F) → Body F
  alert_page : Page Alert → Body F
  alert_body : Alert → Body F
  nodes_body : List ProbeNode → Body F
  no_body : Body F

-- An answer: the status of HTTP and the body.
pub record Response (F : Type 0) : Type 0 where
  pub code : ℕ
  pub body : Body F

-- The routes of `/api/v1` with their parameters; an absent query parameter is the empty text.
pub data Request (Raw : Type 0) : Type 0 where
  get_status : Request Raw
  list_targets : (protocol search limit offset : String) → Request Raw
  create_target : Raw → Request Raw
  get_target : (id : String) → Request Raw
  update_target : (id : String) → Raw → Request Raw
  delete_target : (id : String) → Request Raw
  target_status : (id : String) → Request Raw
  target_events : (id limit offset : String) → Request Raw
  probe_now : (id : String) → Request Raw
  silence_target : (id : String) → Request Raw
  unsilence_target : (id : String) → Request Raw
  list_alerts : (target_id status limit offset : String) → Request Raw
  get_alert : (id : String) → Request Raw
  ack_alert : (id : String) → Request Raw
  list_probes : Request Raw

-- What `ShouldBindJSON` makes of a target.
pub data Bound (F : Type 0) : Type 0 where
  bound : Target F → Bound F
  unbound : String → Bound F

-- What the server takes from gin and from fmt: the binding of a body to a target, the number at the
-- start of a text, and the status of an alert that a text names.
pub record Web (F Raw : Type 0) : Type 0 where
  pub bind : Raw → Target F → Bound F
  pub scan_int : String → Option ℤ
  pub alert_status : String → AlertStatus
  pub error_text : StoreError → String

-- What one request meets: the clock, a fresh identifier, and what goes wrong in the storage: in a saving,
-- a deletion or the first statement of a listing, and in the second statement or in the reading before a
-- saving.
pub record Env : Type 0 where
  pub now : Time
  pub new_id : String
  pub fault : Fault
  pub second_fault : Fault

-- `Server`, without the web page, the log and the hub.
pub record Server {F : Type 0} (S : Store F) : Type 0 where
  pub store : S.State
  pub fsm : Fsm F
  pub alerter : Engine F

abbrev pub ok_response : {F : Type 0} → Body F → Response F
ok_response b = record { code = 200; body = b }

-- `apiError`
unfoldable pub api_error : {F : Type 0} → ℕ → String → String → Response F
api_error code text msg = record { code = code; body = error_body text msg }

-- `intQuery`, of the text of the parameter
unfoldable pub int_query : (String → Option ℤ) → String → ℤ → ℤ
int_query scan_int s default =
    if str_eq s "" then default else (elim (scan_int s) [ none ↦ default | some v ↦ v ])
