-- ===== src/Examples/Commands.antt =====
-- The theorems about cmd/conmon and internal/config at a concrete configuration.
use gi_con_mon.Common.{◌≡◌, refl, some, none, [], ◌∷◌, map, pos, if◌then◌else◌, ℕ, false, true}
use gi_con_mon.Config.{MonitorSpec, Config, AlertWhenSpec, TlsConfig}
use gi_con_mon.Alerter.Rules.{went_down}
use gi_con_mon.Alerter.Engine.{Engine, new_engine}
use gi_con_mon.Alerter.Process.{process}
use gi_con_mon.Cmd.Alerting.{build_rules}
use gi_con_mon.Cmd.Alerting.Silence.{default_rule_sends_nothing}
use gi_con_mon.Examples.Samples.{milli, web, formats, reading, ops, webhook, outage}

abbrev when : AlertWhenSpec
when = record {
  down = true;
  latency_gt = "";
  packet_loss_gt = "";
  channels = [];
  down_threshold = pos 5;
  recov_threshold = pos 0;
}

abbrev pub monitor : MonitorSpec ℕ
monitor = record {
  name = "shop";
  id = "";
  target = "shop.example";
  protocol = "https";
  port = pos 443;
  interval = pos 60_000_000_000;
  timeout = pos 0;
  retries = pos 0;
  priority = "";
  tags = "prod" ∷ [];
  dependencies = [];
  probe_ids = [];
  probe_config = [];
  alert_when = when;
  hooks = none;
}

abbrev no_tls : TlsConfig
no_tls = record { enabled = false; cert_file = ""; key_file = ""; ca_file = ""; min_version = "" }

abbrev pub settings : Config ℕ
settings = record {
  server = record {
    bind = "0.0.0.0:11080";
    external_url = "";
    tls = no_tls;
    auth = record { jwt_secret = ""; token_expire = pos 0 };
    cluster = record { enabled = false; node_id = ""; etcd_endpoints = [] };
  };
  storage = record {
    type = "sqlite";
    path = "conmon.db";
    dsn = "";
    timeseries = record {
      type = "";
      url = "";
      token = "";
      org = "";
      bucket = "";
      batch_size = pos 1000;
      flush_interval = pos 0;
    };
    retention = record { raw = pos 0; events = pos 0; alerts = pos 0 };
    postgresql = record {
      max_conns = pos 50;
      min_conns = pos 5;
      max_conn_lifetime = pos 0;
      max_conn_idle_time = pos 0;
    };
  };
  probe = record {
    id = "";
    name = "";
    location = "";
    isp = "";
    tags = [];
    server_endpoints = [];
    concurrency = pos 100;
    buffer_size = pos 0;
    tls = no_tls;
  };
  monitors = monitor ∷ [];
  alerting = record { channels = []; rules = [] };
  log = record {
    level = "info";
    format = "json";
    output = "stdout";
    file = record { path = ""; max_size_mb = pos 0; max_backups = pos 0 };
  };
  debug = record { pprof = false; pprof_addr = "" };
}

-- The server's engine where no rule is configured.
abbrev plain : Engine ℕ
plain = new_engine (build_rules []) (ops ∷ []) (webhook ∷ [])

default_rule_sends_nothing_example :
    map (λ d. d.deliveries) (process formats (λ id. some web) (λ i. reading 100 "1") outage plain).1
    ≡ (if went_down outage then [] ∷ [] else [])
unfolding new_engine
default_rule_sends_nothing_example =
    default_rule_sends_nothing formats (λ id. some web) (λ i. reading 100 "1") outage web plain refl
      refl
