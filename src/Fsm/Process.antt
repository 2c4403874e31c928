-- ===== src/Fsm/Process.antt =====
-- internal/fsm/fsm.go: `Process` and the other methods of the machine. A method under the mutex is one
-- step, from the state of the machine to the next.
pub mod Branches
pub mod Outcome
pub mod Guards
pub mod Frame
pub mod Stored
use gi_con_mon.Common.{
  String, Bool, true, false, Option, none, some, List, [], ◌∷◌, if◌then◌else◌, lookup, delete,
  values, ℤ, pos, int_leb, str_eq, str_append,
}
use gi_con_mon.Model.{
  Time, sub, milliseconds, FloatOps, int, float, Status, unknown, flapping, maintenance, silent,
  status_name, status_eq, status_changed, Target, is_active, ProbeResult, TargetState, Event,
}
use gi_con_mon.Fsm.Machine.{Config, Fsm, get_or_create, observe, put_state}
use gi_con_mon.Fsm.Derive.{derive}
use gi_con_mon.Fsm.Flap
use gi_con_mon.Fsm.Flap.{FlapTracker, record_change}

-- What flap detection leaves: the tracker, the state with its count, and the status to commit.
pub record Detected (F : Type 0) : Type 0 where
  pub flapper : FlapTracker
  pub state : TargetState F
  pub status : Status

module _ {F : Type 0} where
  -- `buildMessage`
  unfoldable pub build_message : Status → Status → ProbeResult F → String
  build_message from to r =
      let arrow = str_append (status_name from) (str_append " → " (status_name to)) in
      if str_eq r.error_msg "" then arrow else str_append arrow (str_append ": " r.error_msg)

  -- The part of `Process` under `if newStatus != prev`.
  unfoldable pub detect_flap :
      Config F → FlapTracker → ProbeResult F → Status → TargetState F → Status → Detected F
  detect_flap cfg ft r prev s new_status =
      if status_eq new_status prev
      then record { flapper = ft; state = s; status = new_status }
      else let (ft', n) =
          Flap.count r.target_id r.timestamp (record_change r.target_id r.timestamp ft) in
        record {
          flapper = ft';
          state = record s { flap_count_10m = pos n };
          status = if int_leb cfg.flap_threshold (pos n) then flapping else new_status;
        }

  -- The event of a transition. `id` is the text of the new UUID.
  unfoldable pub make_event :
      String → ProbeResult F → Target F → Status → Status → TargetState F → ℤ → Event F
  make_event id r t prev new_status s duration_ms = record {
    id = str_append "event-" id;
    target_id = r.target_id;
    probe_node_id = r.probe_node_id;
    type = status_changed;
    from_status = prev;
    to_status = new_status;
    reason = r.error_code;
    message = build_message prev new_status r;
    duration_ms = duration_ms;
    tags = t.tags;
    meta =
        ("consecutive_fails", int s.consecutive_fails)
        ∷ ("consecutive_success", int s.consecutive_success)
        ∷ ("latency_ms", float r.latency_ms)
        ∷ [];
    timestamp = r.timestamp;
    acknowledged = false;
    acked_by = "";
    acked_at = none;
  }

  unfoldable pub commit_state : ProbeResult F → Status → Status → TargetState F → TargetState F
  commit_state r prev new_status s = record s {
    last_status = prev;
    status = new_status;
    status_changed_at = r.timestamp;
  }

  -- `Process` from the result of flap detection on: no change, or a transition and its event.
  unfoldable pub conclude :
      String
      → ProbeResult F
      → Target F
      → Status
      → Detected F
      → Fsm F
      → Fsm F × Bool × Option (Event F)
  unfolding make_event commit_state
  conclude id r t prev d f =
      let f' = record f { flapper = d.flapper } in
      let duration_ms = milliseconds (sub r.timestamp d.state.status_changed_at) in
      if status_eq d.status prev then (put_state r.target_id d.state f', false, none) else (
        put_state r.target_id (commit_state r prev d.status d.state) f',
        true,
        some (make_event id r t prev d.status d.state duration_ms),
      )

  -- `GetState`; the copy is the value.
  unfoldable pub get_state : String → Fsm F → Option (TargetState F)
  get_state target_id f = lookup target_id f.states

  -- `AllStates`
  unfoldable pub all_states : Fsm F → List (TargetState F)
  all_states f = values f.states

  -- `Remove`
  unfoldable pub remove_target : String → Fsm F → Fsm F
  remove_target target_id f = record f {
    states = delete target_id f.states;
    flapper = Flap.remove target_id f.flapper;
  }

  -- `New`
  unfoldable pub new_fsm : Config F → Fsm F
  new_fsm cfg = record { states = []; cfg = cfg; flapper = Flap.new_flap_tracker cfg.flap_window }

module _ {F : Type 0} ⦃fl : FloatOps F⦄ where
  -- `Process`. `prev` is the status of the entry before the call, which counting leaves alone.
  unfoldable pub process :
      Time → String → ProbeResult F → Target F → Fsm F → Fsm F × Bool × Option (Event F)
  process now id r t f =
      let old = get_or_create now r.target_id f in
      let s = observe r old in
      if is_active t.maintenance r.timestamp
      then (put_state r.target_id (record s { status = maintenance }) f, false, none)
      else if status_eq s.status silent
      then (put_state r.target_id s f, false, none)
      else conclude id r t old.status
          (detect_flap f.cfg f.flapper r old.status s (derive f.cfg s r t)) f

  -- `SetSilent`
  unfoldable pub set_silent : Time → String → Bool → Fsm F → Fsm F
  set_silent now target_id silence f =
      let s = get_or_create now target_id f in
      if silence
      then put_state target_id (record s { status = silent }) f
      else if status_eq s.status silent
      then put_state target_id (record s { status = unknown }) f
      else put_state target_id s f
