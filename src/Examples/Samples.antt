-- ===== src/Examples/Samples.antt =====
-- Test data: floats as thousandths, a target, its results and its rules.
use gi_con_mon.Common.{
  String, Bool, false, none, some, [], ◌∷◌, ℕ, ℤ, pos, negsuc, ltb, ◌==◌, ◌+◌, ◌-◌, ◌*◌, ◌/◌,
}
use gi_con_mon.Model.{
  Time, FloatOps, Target, default_target, ProbeResult, up, down, Event, status_changed,
}
use gi_con_mon.Fsm.Machine.{Config, default_config}
use gi_con_mon.Fsm.Runs.{Call, probe}
use gi_con_mon.Alerter.Rules.{RuleConfig}
use gi_con_mon.Alerter.Engine.{Reading, Formats, ChannelConfig, Notifier}

-- A float as its number of thousandths, at least 0; those from 10^12 on stand for the infinity.
abbrev pub thousandths : ℤ → ℕ
thousandths (pos n) = 1000 * n
thousandths (negsuc n) = 0

abbrev pub of_nanoseconds : ℤ → ℕ
of_nanoseconds (pos n) = n / 1_000_000
of_nanoseconds (negsuc n) = 0

instance abbrev pub milli : FloatOps ℕ
milli = record {
  zero = 0;
  one = 1000;
  tenth = 100;
  gt = λ a b. ltb b a;
  eq = λ a b. a == b;
  add = λ a b. a + b;
  sub = λ a b. a - b;
  mul = λ a b. a * b / 1000;
  div = λ a b. 1000 * a / b;
  to_int64 = λ a. pos (a / 1000);
  of_int = thousandths;
  finite = λ a. ltb a 1_000_000_000_000;
  seconds = of_nanoseconds;
}

abbrev pub config : Config ℕ
config = default_config

abbrev pub web : Target ℕ
web = record default_target { id = "web"; name = "web" }

-- A maintenance window from 10 s to 20 s.
abbrev pub serviced : Target ℕ
serviced = record web {
  maintenance =
      some (record { start = 10_000_000_000; end = 20_000_000_000; recurring = ""; reason = "" });
}

abbrev pub result : Time → Bool → ProbeResult ℕ
result at success = record {
  target_id = "web";
  probe_node_id = "local";
  seq = pos 0;
  timestamp = at;
  success = success;
  latency_ms = 12_000;
  status_code = pos 0;
  error_code = "";
  error_msg = "";
  detail = [];
}

-- A probe of the target at so many seconds.
abbrev pub probed : Target ℕ → ℕ → Bool → Call ℕ
probed t seconds success =
    probe (seconds * 1_000_000_000) "1" (result (seconds * 1_000_000_000) success) t

abbrev pub formats : Formats
formats = record { decimal = λ n. "n"; date_time = λ t. "t" }

abbrev pub reading : Time → String → Reading
reading at uuid = record { checked = at; stored = at; uuid = uuid; sent = at }

abbrev pub down_rule : RuleConfig
down_rule = record {
  name = "outage";
  condition = "DOWN";
  channels = "ops" ∷ "missing" ∷ [];
  severity = "error";
  throttle = pos 60_000_000_000;
  escalate_after = pos 0;
  template = "";
}

abbrev pub other_rule : RuleConfig
other_rule = record down_rule { name = "again"; throttle = pos 0 }

abbrev pub ops : ChannelConfig ℕ
ops = record { name = "ops"; type = "webhook"; config = [] }

abbrev pub webhook : Notifier
webhook = record { name = "webhook"; type = "webhook" }

abbrev pub outage : Event ℕ
outage = record {
  id = "event-1";
  target_id = "web";
  probe_node_id = "local";
  type = status_changed;
  from_status = up;
  to_status = down;
  reason = "";
  message = "";
  duration_ms = pos 0;
  tags = [];
  meta = [];
  timestamp = 5;
  acknowledged = false;
  acked_by = "";
  acked_at = none;
}
