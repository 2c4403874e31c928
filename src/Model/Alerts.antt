-- ===== src/Model/Alerts.antt =====
-- `Alert` of internal/model/model.go.
use gi_con_mon.Common.{String, Option, List, ℤ}
use gi_con_mon.Model.Instants.{Time}
use gi_con_mon.Model.Names.{Severity, AlertStatus}

pub record Alert : Type 0 where
  pub id : String
  pub event_id : String
  pub target_id : String
  pub rule_name : String
  pub severity : Severity
  pub status : AlertStatus
  pub title : String
  pub body : String
  pub channels : List String
  pub sent_at : Time
  pub resolved_at : Option Time
  pub escalation_level : ℤ
  pub next_escalate_at : Option Time
  pub group_id : String
