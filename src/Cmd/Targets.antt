-- ===== src/Cmd/Targets.antt =====
-- cmd/conmon/server.go `specToTarget` and cmd/conmon/probe.go `specToTargetFromProbe`.
pub mod Agreement
use gi_con_mon.Common.{
  String, ◌≡◌, refl, arith, Option, none, some, List, [], ◌∷◌, if◌then◌else◌, str_eq, str_append, ℤ,
  pos, int_ltb, Bool, true, false,
}
use gi_con_mon.Model.{FloatOps, Target, AlertConfig, HookConfig, default_target, milliseconds}
use gi_con_mon.Config.{MonitorSpec, HookSpec}

-- `n > 0`
abbrev pub is_positive : ℤ → Bool
is_positive n = int_ltb (pos 0) n

-- `len(xs) == 0`
abbrev pub is_empty : List String → Bool
is_empty [] = true
is_empty (x ∷ xs) = false

-- The copy of the hooks, field by field; `none` is the nil pointer.
unfoldable pub copy_hooks : Option HookSpec → Option HookConfig
copy_hooks none = none
copy_hooks (some h) = some (record {
  on_down = h.on_down;
  on_up = h.on_up;
  on_degraded = h.on_degraded;
  timeout_sec = h.timeout_sec;
})

module _ {F : Type 0} ⦃fl : FloatOps F⦄ where
  -- The identifier: the one given, or "target-" and the name.
  unfoldable pub id_of : MonitorSpec F → String
  id_of spec = if str_eq spec.id "" then str_append "target-" spec.name else spec.id

  -- `int(spec.Interval.Seconds())`, or the default
  unfoldable pub interval_of : MonitorSpec F → Target F → ℤ
  interval_of spec def =
      if is_positive spec.interval then fl.to_int64 (fl.seconds spec.interval) else def.interval_sec

  -- `int(spec.Timeout.Milliseconds())`, or the default
  unfoldable pub timeout_of : MonitorSpec F → Target F → ℤ
  timeout_of spec def =
      if is_positive spec.timeout then milliseconds spec.timeout else def.timeout_ms

  -- `specToTarget`
  unfoldable pub spec_to_target : MonitorSpec F → Target F
  unfolding id_of interval_of timeout_of copy_hooks default_target
  spec_to_target spec =
      let def = default_target in
      record def {
        id = id_of spec;
        name = spec.name;
        host = spec.target;
        port = spec.port;
        protocol = spec.protocol;
        tags = spec.tags;
        dependencies = spec.dependencies;
        probe_ids = spec.probe_ids;
        probe_config = spec.probe_config;
        interval_sec = interval_of spec def;
        timeout_ms = timeout_of spec def;
        retries = if is_positive spec.retries then spec.retries else def.retries;
        priority = if str_eq spec.priority "" then def.priority else spec.priority;
        alert_config = record def.alert_config {
          down_threshold =
              if is_positive spec.alert_when.down_threshold
              then spec.alert_when.down_threshold
              else def.alert_config.down_threshold;
          recovery_threshold =
              if is_positive spec.alert_when.recov_threshold
              then spec.alert_when.recov_threshold
              else def.alert_config.recovery_threshold;
          alert_channels =
              if is_empty spec.alert_when.channels
              then def.alert_config.alert_channels
              else spec.alert_when.channels;
        };
        hooks = copy_hooks spec.hooks;
      }

  -- `specToTargetFromProbe`
  unfoldable pub spec_to_target_from_probe : MonitorSpec F → Target F
  unfolding id_of interval_of timeout_of default_target
  spec_to_target_from_probe spec =
      let def = default_target in
      record def {
        id = id_of spec;
        name = spec.name;
        host = spec.target;
        port = spec.port;
        protocol = spec.protocol;
        tags = spec.tags;
        probe_config = spec.probe_config;
        interval_sec = interval_of spec def;
        timeout_ms = timeout_of spec def;
      }
