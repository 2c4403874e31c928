-- ===== src/Model/Events.antt =====
-- `Event`.
use gi_con_mon.Common.{String, Bool, Option, List, ℤ}
use gi_con_mon.Model.Instants.{Time}
use gi_con_mon.Model.Values.{AnyMap}
use gi_con_mon.Model.Names.{Status, EventType}

pub record Event (F : Type 0) : Type 0 where
  pub id : String
  pub target_id : String
  pub probe_node_id : String
  pub type : EventType
  pub from_status : Status
  pub to_status : Status
  pub reason : String
  pub message : String
  pub duration_ms : ℤ
  pub tags : List String
  pub meta : AnyMap F
  pub timestamp : Time
  pub acknowledged : Bool
  pub acked_by : String
  pub acked_at : Option Time
