-- ===== src/Cmd/Agent.antt =====
-- cmd/conmon/probe.go: `runProbe`, the agent that probes the monitors of a configuration on its own and
-- writes each result to the log. Viper and what goes on until the signal are arguments.
pub mod Scheduled
use gi_con_mon.Config.{MonitorSpec}
use gi_con_mon.Common.{List, String, if◌then◌else◌, ◌∷◌, str_eq, []}
use gi_con_mon.Model.{FloatOps, ProbeResult}
use gi_con_mon.Config
use gi_con_mon.Config.Load.{Viper, Loaded, loaded, load}
use gi_con_mon.Cmd.Targets.{spec_to_target_from_probe}
use gi_con_mon.Probe.Scheduler.{Scheduler, new_scheduler, add, stop}

-- The node's name for itself.
unfoldable pub agent_id_of : String → String
agent_id_of id = if str_eq id "" then "probe-local" else id

-- What the log says of a result; the latency is printed with one digit, which is an argument.
pub record LogEntry : Type 0 where
  pub target_id : String
  pub status : String
  pub latency_ms : String
  pub error : String

-- How `runProbe` ends.
pub data AgentEnd (F : Type 0) : Type 0 where
  load_failed : Loaded F → AgentEnd F
  stopped : Scheduler F → AgentEnd F

module _ {F : Type 0} ⦃fl : FloatOps F⦄ where
  -- `resultHandler`
  unfoldable pub log_result : (F → String) → ProbeResult F → LogEntry
  log_result tenths r = record {
    target_id = r.target_id;
    status = if r.success then "✓" else "✗";
    latency_ms = tenths r.latency_ms;
    error = r.error_code;
  }

  -- The loop over the monitors.
  unfoldable pub schedule_all : List (MonitorSpec F) → Scheduler F → Scheduler F
  schedule_all [] s = s
  schedule_all (spec ∷ specs) s = schedule_all specs (add (spec_to_target_from_probe spec) s)

  -- The scheduler of an agent that begins to wait for the signal.
  unfoldable pub begun_agent : Config.Config F → Scheduler F
  unfolding schedule_all agent_id_of
  begun_agent cfg =
      schedule_all cfg.monitors (new_scheduler cfg.probe.concurrency (agent_id_of cfg.probe.id))

  unfoldable pub run_agent : (Scheduler F → Scheduler F) → Loaded F → AgentEnd F
  unfolding begun_agent
  run_agent probing (loaded cfg) = stopped (stop (probing (begun_agent cfg)))
  run_agent probing other = load_failed other

  -- `runProbe`
  unfoldable pub run_probe : Viper F → (Scheduler F → Scheduler F) → String → AgentEnd F
  unfolding run_agent
  run_probe v probing path = run_agent probing (load v path)
