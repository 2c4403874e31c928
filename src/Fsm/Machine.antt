-- ===== src/Fsm/Machine.antt =====
-- internal/fsm/fsm.go: the state of every target, and the transition that a probe result makes. A
-- method under the mutex is one step, from the state of the machine to the next. The wall clock
-- (`time.Now`) and a fresh identifier (`uuid.New`) are arguments.
use gi_con_mon.Common.{
  String, none, some, if◌then◌else◌, Assoc, lookup, insert, ℤ, pos, negsuc, increment, ◌*◌,
}
use gi_con_mon.Model.{
  Time, Duration, nanoseconds_per_minute, FloatOps, as_int, unknown, unset, ProbeResult,
  TargetState,
}
use gi_con_mon.Fsm.Flap.{FlapTracker}

-- `Config`
pub record Config (F : Type 0) : Type 0 where
  pub down_threshold : ℤ
  pub recovery_threshold : ℤ
  pub flap_window : Duration
  pub flap_threshold : ℤ
  pub degraded_latency_ms : ℤ
  pub degraded_loss_pct : F

-- `FSM`
pub record Fsm (F : Type 0) : Type 0 where
  pub states : Assoc (TargetState F)
  pub cfg : Config F
  pub flapper : FlapTracker

module _ {F : Type 0} where
  -- The state is shared by pointer: what `Process` writes stands in the map.
  unfoldable pub put_state : String → TargetState F → Fsm F → Fsm F
  put_state target_id s f = record f { states = insert target_id s f.states }

module _ {F : Type 0} ⦃fl : FloatOps F⦄ where
  unfoldable pub default_config : Config F
  default_config = record {
    down_threshold = pos 3;
    recovery_threshold = pos 2;
    flap_window = pos (10 * nanoseconds_per_minute);
    flap_threshold = pos 5;
    degraded_latency_ms = pos 1000;
    degraded_loss_pct = fl.tenth;
  }

  -- `ewma`
  unfoldable pub ewma : F → F → F → F
  ewma prev next alpha =
      if fl.eq prev fl.zero
      then next
      else fl.add (fl.mul alpha next) (fl.mul (fl.sub fl.one alpha) prev)

  -- The entry that `getOrCreate` makes at the instant `now`.
  unfoldable pub fresh_state : Time → String → TargetState F
  fresh_state now target_id = record {
    target_id = target_id;
    status = unknown;
    last_status = unset;
    status_changed_at = now;
    last_probe_at = 0;
    last_success_at = 0;
    consecutive_fails = pos 0;
    consecutive_success = pos 0;
    avg_latency_ms = fl.zero;
    p99_latency_ms = fl.zero;
    packet_loss_pct = fl.zero;
    cert_expiry_days = negsuc 0;
    availability_7d = fl.zero;
    flap_count_10m = pos 0;
    suppressed_by = "";
  }

  -- `getOrCreate`, the entry alone: each caller writes the entry back.
  unfoldable pub get_or_create : Time → String → Fsm F → TargetState F
  get_or_create now target_id f = elim (lookup target_id f.states) [
    | none ↦ fresh_state now target_id
    | some s ↦ s
  ]

  -- The first part of `Process`: the counters, the times and the certificate's days.
  unfoldable pub count_result : ProbeResult F → TargetState F → TargetState F
  count_result r s =
      if r.success
      then record s {
        last_probe_at = r.timestamp;
        consecutive_fails = pos 0;
        consecutive_success = increment s.consecutive_success;
        last_success_at = r.timestamp;
        avg_latency_ms =
            if fl.gt r.latency_ms fl.zero
            then ewma s.avg_latency_ms r.latency_ms fl.tenth
            else s.avg_latency_ms;
      }
      else record s {
        last_probe_at = r.timestamp;
        consecutive_success = pos 0;
        consecutive_fails = increment s.consecutive_fails;
      }

  unfoldable pub update_cert : ProbeResult F → TargetState F → TargetState F
  update_cert r s = elim (as_int (lookup "cert_expiry_days" r.detail)) [
    | none ↦ s
    | some days ↦ record s { cert_expiry_days = days }
  ]

  unfoldable pub observe : ProbeResult F → TargetState F → TargetState F
  unfolding count_result update_cert
  observe r s = update_cert r (count_result r s)
