-- ===== src/Config/Types.antt =====
-- internal/config/config.go: the types of the configuration.
use gi_con_mon.Common.{String, Bool, Option, List, ℤ}
use gi_con_mon.Model.{Duration, AnyMap}

-- `TLSConfig`
pub record TlsConfig : Type 0 where
  pub enabled : Bool
  pub cert_file : String
  pub key_file : String
  pub ca_file : String
  pub min_version : String

-- `AuthConfig`
pub record AuthConfig : Type 0 where
  pub jwt_secret : String
  pub token_expire : Duration

-- `ClusterConfig`
pub record ClusterConfig : Type 0 where
  pub enabled : Bool
  pub node_id : String
  pub etcd_endpoints : List String

-- `ServerConfig`
pub record ServerConfig : Type 0 where
  pub bind : String
  pub external_url : String
  pub tls : TlsConfig
  pub auth : AuthConfig
  pub cluster : ClusterConfig

-- `TSConfig`
pub record TsConfig : Type 0 where
  pub type : String
  pub url : String
  pub token : String
  pub org : String
  pub bucket : String
  pub batch_size : ℤ
  pub flush_interval : Duration

-- `RetentionConfig`
pub record RetentionConfig : Type 0 where
  pub raw : Duration
  pub events : Duration
  pub alerts : Duration

-- `PGPoolConfig`
pub record PgPoolConfig : Type 0 where
  pub max_conns : ℤ
  pub min_conns : ℤ
  pub max_conn_lifetime : Duration
  pub max_conn_idle_time : Duration

-- `StorageConfig`
pub record StorageConfig : Type 0 where
  pub type : String
  pub path : String
  pub dsn : String
  pub timeseries : TsConfig
  pub retention : RetentionConfig
  pub postgresql : PgPoolConfig

-- `ProbeConfig`
pub record ProbeConfig : Type 0 where
  pub id : String
  pub name : String
  pub location : String
  pub isp : String
  pub tags : List String
  pub server_endpoints : List String
  pub concurrency : ℤ
  pub buffer_size : ℤ
  pub tls : TlsConfig

-- `AlertWhenSpec`
pub record AlertWhenSpec : Type 0 where
  pub down : Bool
  pub latency_gt : String
  pub packet_loss_gt : String
  pub channels : List String
  pub down_threshold : ℤ
  pub recov_threshold : ℤ

-- `HookSpec`
pub record HookSpec : Type 0 where
  pub on_down : String
  pub on_up : String
  pub on_degraded : String
  pub timeout_sec : ℤ

-- `MonitorSpec`; `none` is the nil pointer to the hooks.
pub record MonitorSpec (F : Type 0) : Type 0 where
  pub name : String
  pub id : String
  pub target : String
  pub protocol : String
  pub port : ℤ
  pub interval : Duration
  pub timeout : Duration
  pub retries : ℤ
  pub priority : String
  pub tags : List String
  pub dependencies : List String
  pub probe_ids : List String
  pub probe_config : AnyMap F
  pub alert_when : AlertWhenSpec
  pub hooks : Option HookSpec

-- `ChannelConfig`
pub record ChannelConfig (F : Type 0) : Type 0 where
  pub name : String
  pub type : String
  pub config : AnyMap F

-- `RuleConfig`
pub record RuleConfig : Type 0 where
  pub name : String
  pub condition : String
  pub channels : List String
  pub severity : String
  pub throttle : Duration
  pub escalate_after : Duration
  pub template : String

-- `AlertingConfig`
pub record AlertingConfig (F : Type 0) : Type 0 where
  pub channels : List (ChannelConfig F)
  pub rules : List RuleConfig

-- `LogFile`
pub record LogFile : Type 0 where
  pub path : String
  pub max_size_mb : ℤ
  pub max_backups : ℤ

-- `LogConfig`
pub record LogConfig : Type 0 where
  pub level : String
  pub format : String
  pub output : String
  pub file : LogFile

-- `DebugConfig`
pub record DebugConfig : Type 0 where
  pub pprof : Bool
  pub pprof_addr : String

-- `Config`
pub record Config (F : Type 0) : Type 0 where
  pub server : ServerConfig
  pub storage : StorageConfig
  pub probe : ProbeConfig
  pub monitors : List (MonitorSpec F)
  pub alerting : AlertingConfig F
  pub log : LogConfig
  pub debug : DebugConfig
