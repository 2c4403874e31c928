-- ===== src/Model/Targets.antt =====
-- `Target`, its parts and its defaults.
use gi_con_mon.Common.{String, Bool, true, false, ◌&&◌, Option, none, some, List, [], ℤ, pos}
use gi_con_mon.Model.Instants.{Time, before, after}
use gi_con_mon.Model.Values.{FloatOps, AnyMap}
use gi_con_mon.Model.Names.{Protocol, Priority, priority_normal}

pub record AlertConfig (F : Type 0) : Type 0 where
  pub down_threshold : ℤ
  pub recovery_threshold : ℤ
  pub latency_warn_ms : ℤ
  pub packet_loss_warn_pct : F
  pub alert_channels : List String
  pub cert_warn_days : ℤ

pub record HookConfig : Type 0 where
  pub on_down : String
  pub on_up : String
  pub on_degraded : String
  pub timeout_sec : ℤ

pub record MaintenanceWindow : Type 0 where
  pub start : Time
  pub end : Time
  pub recurring : String
  pub reason : String

-- `(m *MaintenanceWindow) IsActive(now)`; `none` is the nil pointer.
unfoldable pub is_active : Option MaintenanceWindow → Time → Bool
is_active none now = false
is_active (some m) now = after now m.start && before now m.end

pub record Target (F : Type 0) : Type 0 where
  pub id : String
  pub name : String
  pub host : String
  pub port : ℤ
  pub protocol : Protocol
  pub interval_sec : ℤ
  pub timeout_ms : ℤ
  pub retries : ℤ
  pub priority : Priority
  pub tags : List String
  pub dependencies : List String
  pub probe_ids : List String
  pub alert_config : AlertConfig F
  pub probe_config : AnyMap F
  pub hooks : Option HookConfig
  pub maintenance : Option MaintenanceWindow
  pub enabled : Bool
  pub created_at : Time
  pub updated_at : Time
  pub created_by : String

module _ {F : Type 0} ⦃fl : FloatOps F⦄ where
  unfoldable pub default_target : Target F
  default_target = record {
    id = "";
    name = "";
    host = "";
    port = pos 0;
    protocol = "";
    interval_sec = pos 30;
    timeout_ms = pos 5000;
    retries = pos 3;
    priority = priority_normal;
    tags = [];
    dependencies = [];
    probe_ids = [];
    alert_config = record {
      down_threshold = pos 3;
      recovery_threshold = pos 2;
      latency_warn_ms = pos 0;
      packet_loss_warn_pct = fl.zero;
      alert_channels = [];
      cert_warn_days = pos 30;
    };
    probe_config = [];
    hooks = none;
    maintenance = none;
    enabled = true;
    created_at = 0;
    updated_at = 0;
    created_by = "";
  }
