-- ===== src/Model/Nodes.antt =====
-- `ProbeNode` of internal/model/model.go.
use gi_con_mon.Common.{String, List, ℤ}
use gi_con_mon.Model.Instants.{Time}

-- `ProbeNodeStatus`; `unset_node` is the empty string.
pub data ProbeNodeStatus : Type 0 where
  node_online node_offline node_degraded unset_node : ProbeNodeStatus

pub record ProbeNode : Type 0 where
  pub id : String
  pub name : String
  pub location : String
  pub isp : String
  pub tags : List String
  pub ip_address : String
  pub version : String
  pub status : ProbeNodeStatus
  pub last_heartbeat : Time
  pub assigned_targets : ℤ
  pub capabilities : List String
  pub registered_at : Time
