-- ===== src/Cmd/Targets/Agreement.antt =====
-- The two conversions of cmd/conmon against each other and against the state machine.
use gi_con_mon.Common.{◌≡◌, refl, arith, if◌then◌else◌, pos}
use gi_con_mon.Model.{FloatOps, default_target}
use gi_con_mon.Config.{MonitorSpec}
use gi_con_mon.Fsm.Machine.{Config}
use gi_con_mon.Fsm.Derive.{override, down_threshold_of, recovery_threshold_of}
use gi_con_mon.Cmd.Targets.{is_positive, spec_to_target, spec_to_target_from_probe}

module _ {F : Type 0} ⦃fl : FloatOps F⦄ (spec : MonitorSpec F) where
  -- The target that the probe agent makes of a monitor is the one that the server makes, but with the
  -- defaults for retries, priority, thresholds and channels, and without dependencies, probe
  -- identifiers and hooks.
  pub probe_agrees : spec_to_target_from_probe spec ≡ record (spec_to_target spec) {
    retries = (default_target {F = F}).retries;
    priority = (default_target {F = F}).priority;
    dependencies = (default_target {F = F}).dependencies;
    probe_ids = (default_target {F = F}).probe_ids;
    alert_config = (default_target {F = F}).alert_config;
    hooks = (default_target {F = F}).hooks;
  }
  unfolding spec_to_target spec_to_target_from_probe default_target
  probe_agrees = refl

  -- For a target of the configuration the thresholds of the machine's own configuration are never in
  -- force: they are those of the monitor, and where these are not positive 3 and 2.
  pub thresholds-spec_to_target :
      (cfg : Config F)
      → (down_threshold_of cfg (spec_to_target spec) ≡ (
          if is_positive spec.alert_when.down_threshold
          then spec.alert_when.down_threshold
          else pos 3))
        × (recovery_threshold_of cfg (spec_to_target spec) ≡ (
            if is_positive spec.alert_when.recov_threshold
            then spec.alert_when.recov_threshold
            else pos 2))
  unfolding spec_to_target default_target down_threshold_of recovery_threshold_of override
  thresholds-spec_to_target cfg = ground arith
