-- ===== src/Model/States.antt =====
-- `ProbeResult` and `TargetState`.
use gi_con_mon.Common.{String, Bool, ℤ}
use gi_con_mon.Model.Instants.{Time}
use gi_con_mon.Model.Values.{AnyMap}
use gi_con_mon.Model.Names.{Status}

pub record ProbeResult (F : Type 0) : Type 0 where
  pub target_id : String
  pub probe_node_id : String
  pub seq : ℤ
  pub timestamp : Time
  pub success : Bool
  pub latency_ms : F
  pub status_code : ℤ
  pub error_code : String
  pub error_msg : String
  pub detail : AnyMap F

pub record TargetState (F : Type 0) : Type 0 where
  pub target_id : String
  pub status : Status
  pub last_status : Status
  pub status_changed_at : Time
  pub last_probe_at : Time
  pub last_success_at : Time
  pub consecutive_fails : ℤ
  pub consecutive_success : ℤ
  pub avg_latency_ms : F
  pub p99_latency_ms : F
  pub packet_loss_pct : F
  pub cert_expiry_days : ℤ
  pub availability_7d : F
  pub flap_count_10m : ℤ
  pub suppressed_by : String
