-- ===== src/Fsm/Process/Frame.antt =====
-- What the methods of internal/fsm/fsm.go leave alone: the other targets and the configuration.
use gi_con_mon.Fsm.Flap.History.{history_of-count, history_of-record_change, history_of-remove}
use gi_con_mon.Fsm.Process.Branches.{
  process-maintained, previous, process-silent, process-concludes, detected, counted,
}
use gi_con_mon.Common.{
  String, ◌≡◌, ◌≢◌, refl, Bool, arith, lookup-insert_ne, Bool-cases, inl, inr, eq_iff,
  lookup-delete_ne, false, true,
}
use gi_con_mon.Model.{
  Time, FloatOps, Status, Target, ProbeResult, TargetState, status_cases, status_eq_iff,
  status_eq-false, is_active, silent, status_eq,
}
use gi_con_mon.Fsm.Flap.{FlapTracker, history_of}
use gi_con_mon.Fsm.Machine.{Config, Fsm, put_state, get_or_create}
use gi_con_mon.Fsm.Process.{
  Detected, detect_flap, conclude, process, get_state, set_silent, remove_target,
}

-- `f'` has the entry, the flap history and the configuration that `f` has for the target `id`.
pub record Untouched {F : Type 0} (id : String) (f f' : Fsm F) : Type 0 where
  pub same_state : get_state id f' ≡ get_state id f
  pub same_history : history_of f'.flapper id ≡ history_of f.flapper id
  pub same_config : f'.cfg ≡ f.cfg

module _ {F : Type 0} (id : String) where
  put_state-Untouched :
      (k : String) (s : TargetState F) (f : Fsm F) → k ≢ id → Untouched id f (put_state k s f)
  unfolding put_state get_state
  put_state-Untouched k s f h = record {
    same_state = lookup-insert_ne k id s f.states h;
    same_history = refl;
    same_config = refl;
  }

  history_of-detect_flap :
      (cfg : Config F) (ft : FlapTracker) (r : ProbeResult F) (p : Status) (s : TargetState F)
      (n : Status)
      → r.target_id ≢ id
      → history_of (detect_flap cfg ft r p s n).flapper id ≡ history_of ft id
  unfolding detect_flap
  history_of-detect_flap cfg ft r p s n h = elim (status_cases n p) [
    | inl same ↦ rw ((status_eq_iff n p).1 same)
    | inr moved ↦
        rw (status_eq-false n p moved)
          (grind (arith, history_of-count, history_of-record_change, eq_iff r.target_id id))
  ]

  conclude-Untouched :
      (uuid : String) (r : ProbeResult F) (t : Target F) (p : Status) (d : Detected F) (f : Fsm F)
      → r.target_id ≢ id
      → history_of d.flapper id ≡ history_of f.flapper id
      → Untouched id f (conclude uuid r t p d f).0
  unfolding conclude put_state get_state
  conclude-Untouched uuid r t p d f h k = elim (status_cases d.status p) [
    | inl same ↦
        rw ((status_eq_iff d.status p).1 same)
          (record { same_state = lookup-insert_ne _ _ _ _ h; same_history = k; same_config = refl })
    | inr moved ↦
        rw (status_eq-false d.status p moved)
          (record { same_state = lookup-insert_ne _ _ _ _ h; same_history = k; same_config = refl })
  ]

module _ {F : Type 0} ⦃fl : FloatOps F⦄ (id : String) (f : Fsm F) where
  -- `Process` for one target leaves every other target as it was: entry, flap history, configuration.
  pub process-Untouched :
      (now : Time) (uuid : String) (r : ProbeResult F) (t : Target F)
      → r.target_id ≢ id
      → Untouched id f (process now uuid r t f).0
  process-Untouched now uuid r t h = elim (Bool-cases (is_active t.maintenance r.timestamp)) [
    | inl active ↦ rw (process-maintained now uuid r t f active) (put_state-Untouched id _ _ f h)
    | inr open_hours ↦ elim (status_cases (previous now r f) silent) [
      | inl mute ↦
          rw (process-silent now uuid r t f open_hours mute) (put_state-Untouched id _ _ f h)
      | inr live ↦ rw (process-concludes now uuid r t f open_hours live) (
          conclude-Untouched id uuid r t (previous now r f) (detected now r t f) f h
            (history_of-detect_flap id f.cfg f.flapper r (previous now r f) (counted now r f) _ h))
    ]
  ]

  -- `SetSilent` and `Remove` for another target.
  pub set_silent-Untouched :
      (now : Time) (k : String) (silence : Bool)
      → k ≢ id
      → Untouched id f (set_silent now k silence f)
  unfolding set_silent
  set_silent-Untouched now k true h = put_state-Untouched id k _ f h
  set_silent-Untouched now k false h =
      elim (Bool-cases (status_eq (get_or_create now k f).status silent)) [
        | inl mute ↦ rw mute (put_state-Untouched id k _ f h)
        | inr loud ↦ rw loud (put_state-Untouched id k _ f h)
      ]

  pub remove_target-Untouched : (k : String) → k ≢ id → Untouched id f (remove_target k f)
  unfolding remove_target get_state
  remove_target-Untouched k h = record {
    same_state = lookup-delete_ne k id f.states h;
    same_history = grind (arith, history_of-remove, eq_iff k id);
    same_config = refl;
  }

module _ {F : Type 0} ⦃fl : FloatOps F⦄ (f : Fsm F) where
  -- No method changes the configuration.
  pub cfg-process :
      (now : Time) (uuid : String) (r : ProbeResult F) (t : Target F)
      → (process now uuid r t f).0.cfg ≡ f.cfg
  unfolding process conclude put_state
  cfg-process now uuid r t = ground arith

  pub cfg-set_silent :
      (now : Time) (k : String) (silence : Bool) → (set_silent now k silence f).cfg ≡ f.cfg
  unfolding set_silent put_state
  cfg-set_silent now k silence = ground arith
