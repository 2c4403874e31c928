-- ===== src/Fsm/Derive.antt =====
-- internal/fsm/fsm.go: `derive`, the status that the counters and the thresholds ask for.
use gi_con_mon.Common.{
  Bool, true, false, ◌&&◌, Option, none, some, if◌then◌else◌, lookup, ℤ, pos, int_ltb, int_leb,
}
use gi_con_mon.Model.{
  FloatOps, as_float, Status, unknown, up, down, degraded, flapping, Target, ProbeResult,
  TargetState,
}
use gi_con_mon.Fsm.Machine.{Config}

-- A target's own threshold, if it is positive, in place of the machine's.
unfoldable pub override : ℤ → ℤ → ℤ
override own common = if int_ltb (pos 0) own then own else common

module _ {F : Type 0} ⦃fl : FloatOps F⦄ where
  unfoldable pub down_threshold_of : Config F → Target F → ℤ
  down_threshold_of cfg t = override t.alert_config.down_threshold cfg.down_threshold

  unfoldable pub recovery_threshold_of : Config F → Target F → ℤ
  recovery_threshold_of cfg t = override t.alert_config.recovery_threshold cfg.recovery_threshold

  unfoldable pub is_lossy : F → Option F → Bool
  is_lossy limit none = false
  is_lossy limit (some loss) = fl.gt limit fl.zero && fl.gt loss limit

  -- `isDegraded`
  unfoldable pub is_degraded : Config F → ProbeResult F → Target F → Bool
  unfolding override is_lossy
  is_degraded cfg r t =
      let latency_limit = override t.alert_config.latency_warn_ms cfg.degraded_latency_ms in
      let own_loss = t.alert_config.packet_loss_warn_pct in
      let loss_limit = if fl.gt own_loss fl.zero then own_loss else cfg.degraded_loss_pct in
      if r.success
      then if int_ltb (pos 0) latency_limit && int_ltb latency_limit (fl.to_int64 r.latency_ms)
        then true
        else is_lossy loss_limit (as_float (lookup "packet_loss_pct" r.detail))
      else false

  -- The cases of `derive`'s switch for UP and DEGRADED, and for DOWN and FLAPPING.
  unfoldable pub derive_up : Config F → TargetState F → ProbeResult F → Target F → Status
  derive_up cfg s r t =
      if int_leb (down_threshold_of cfg t) s.consecutive_fails
      then down
      else if is_degraded cfg r t
      then degraded
      else up

  unfoldable pub derive_down : Config F → TargetState F → Target F → Status
  derive_down cfg s t =
      if int_leb (recovery_threshold_of cfg t) s.consecutive_success then up else down

  -- The switch of `derive`; the last clause is the `return` below the switch.
  unfoldable pub derive_from : Status → Config F → TargetState F → ProbeResult F → Target F → Status
  unfolding derive_up derive_down
  derive_from unknown cfg s r t = if r.success then up else unknown
  derive_from up cfg s r t = derive_up cfg s r t
  derive_from degraded cfg s r t = derive_up cfg s r t
  derive_from down cfg s r t = derive_down cfg s t
  derive_from flapping cfg s r t = derive_down cfg s t
  derive_from other cfg s r t = other

  unfoldable pub derive : Config F → TargetState F → ProbeResult F → Target F → Status
  unfolding derive_from
  derive cfg s r t = derive_from s.status cfg s r t
