-- ===== src/Storage/Sqlite/Rows.antt =====
-- internal/storage/sqlite/sqlite.go: the tables of `migrate`, and `boolToInt`.
use gi_con_mon.Common.{String, Bool, true, false, Option, ℤ, pos, int_eqb, ◌≡◌, refl}
use gi_con_mon.Model.{
  Time, Protocol, Priority, EventType, Status, AlertStatus, Severity, ProbeNodeStatus,
}

-- A row of `targets`
pub record TargetRow (Text : Type 0) : Type 0 where
  pub id : String
  pub name : String
  pub host : String
  pub port : ℤ
  pub protocol : Protocol
  pub interval_sec : ℤ
  pub timeout_ms : ℤ
  pub retries : ℤ
  pub priority : Priority
  pub tags : Text
  pub dependencies : Text
  pub probe_ids : Text
  pub alert_config : Text
  pub probe_config : Text
  pub hooks : Text
  pub maintenance : Text
  pub enabled : ℤ
  pub created_at : Time
  pub updated_at : Time
  pub created_by : String

-- A row of `events`
pub record EventRow (Text : Type 0) : Type 0 where
  pub id : String
  pub target_id : String
  pub probe_node_id : String
  pub type : EventType
  pub from_status : Status
  pub to_status : Status
  pub reason : String
  pub message : String
  pub duration_ms : ℤ
  pub tags : Text
  pub meta : Text
  pub timestamp : Time
  pub acknowledged : ℤ
  pub acked_by : String
  pub acked_at : Option Time

-- A row of `alerts`
pub record AlertRow (Text : Type 0) : Type 0 where
  pub id : String
  pub event_id : String
  pub target_id : String
  pub rule_name : String
  pub severity : Severity
  pub status : AlertStatus
  pub title : String
  pub body : String
  pub channels : Text
  pub sent_at : Time
  pub resolved_at : Option Time
  pub escalation_level : ℤ
  pub next_escalate_at : Option Time
  pub group_id : String

-- A row of `probe_nodes`
pub record NodeRow (Text : Type 0) : Type 0 where
  pub id : String
  pub name : String
  pub location : String
  pub isp : String
  pub tags : Text
  pub ip_address : String
  pub version : String
  pub status : ProbeNodeStatus
  pub last_heartbeat : Time
  pub assigned_targets : ℤ
  pub capabilities : Text
  pub registered_at : Time

-- `boolToInt`
abbrev pub bool_to_int : Bool → ℤ
bool_to_int true = pos 1
bool_to_int false = pos 0

-- `enabled == 1`
abbrev pub is_one : ℤ → Bool
is_one n = int_eqb n (pos 1)

pub is_one-bool_to_int : (b : Bool) → is_one (bool_to_int b) ≡ b
is_one-bool_to_int true = refl
is_one-bool_to_int false = refl
