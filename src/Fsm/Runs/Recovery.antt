-- ===== src/Fsm/Runs/Recovery.antt =====
-- That `Process` of internal/fsm/fsm.go does report a recovery.
use gi_con_mon.Common.{
  List, ◌≢◌, String, arith, length, ◌≡◌, ◌<◌, false, max_int64, ◌≤ℤ◌, pos, some, sym, ◌∙◌, subst,
  ap,
}
use gi_con_mon.Fsm.Process.{make_event, detect_flap, get_state, process}
use gi_con_mon.Fsm.Derive.{derive, derive_from, derive_down, recovery_threshold_of}
use gi_con_mon.Model.{
  FloatOps, Time, ProbeResult, Target, Status, up, status_eq, down, flapping, TargetState,
  is_active, Event,
}
use gi_con_mon.Fsm.Runs.{Call}
use gi_con_mon.Fsm.Runs.Evidence.{streaks, machine, counted_streaks, cfg-machine}
use gi_con_mon.Fsm.Runs.Counters.{successes_in}
use gi_con_mon.Fsm.Runs.Events.{status_in, previous-eq-status_in}
use gi_con_mon.Fsm.Machine.{Config, get_or_create, Fsm}
use gi_con_mon.Fsm.Flap.{FlapTracker}
use gi_con_mon.Fsm.Process.Stored.{process-StoresCounted}
use gi_con_mon.Fsm.Process.Branches.{counted, previous, detected, process-concludes, status-observe}
use gi_con_mon.Fsm.Process.Outcome.{event_of, conclude-Moved}

-- Where a recovery leads to: UP, or FLAPPING if there were many changes.
pub data IsBack : Status → Type 0 where
  up_back : IsBack up
  flapping_back : IsBack flapping

back_not_down : (q : Status) → IsBack q → q ≢ down
back_not_down up b e = cc
back_not_down flapping b e = cc
back_not_down _ b e = elim b [ ]

module _ {F : Type 0} ⦃fl : FloatOps F⦄ where
  derive-up :
      (cfg : Config F) (r : ProbeResult F) (t : Target F) (s : TargetState F)
      → s.status ≡ down
      → recovery_threshold_of cfg t ≤ℤ s.consecutive_success
      → derive cfg s r t ≡ up
  unfolding derive derive_from derive_down
  derive-up cfg r t s e h = rw e (ground arith)

  detect_flap-IsBack :
      (cfg : Config F) (ft : FlapTracker) (r : ProbeResult F) (s : TargetState F)
      → IsBack (detect_flap cfg ft r down s up).status
  unfolding detect_flap status_eq
  detect_flap-IsBack cfg ft r s = grind (arith, up_back, flapping_back)

  -- One result: the threshold is reached, and an event is made.
  process_recovers :
      (now : Time) (uuid : String) (r : ProbeResult F) (t : Target F) (f : Fsm F)
      → is_active t.maintenance r.timestamp ≡ false
      → previous now r f ≡ down
      → recovery_threshold_of f.cfg t ≤ℤ (counted now r f).consecutive_success
      → (e : Event F) × ((process now uuid r t f).2 ≡ some e) × IsBack e.to_status
  unfolding make_event
  process_recovers now uuid r t f open_hours was h =
      let p = previous now r f in
      let s = counted now r f in
      let d = detected now r t f in
      let rises : derive f.cfg s r t ≡ up =
        derive-up f.cfg r t s (status-observe r (get_or_create now r.target_id f) ∙ was) h in
      let back : IsBack d.status =
        subst (λ q. IsBack (detect_flap f.cfg f.flapper r q s (derive f.cfg s r t)).status)
          (sym was)
          (subst (λ n. IsBack (detect_flap f.cfg f.flapper r down s n).status) (sym rises)
            (detect_flap-IsBack f.cfg f.flapper r s)) in
      rw (process-concludes now uuid r t f open_hours (λ mute. cc)) (
        event_of uuid r t p d,
        (conclude-Moved uuid r t p d f (λ same. back_not_down d.status back (same ∙ was))).event,
        back,
      )

  module _ (cfg : Config F) (cs : List (Call F)) (now : Time) (uuid : String) (r : ProbeResult F)
      (t : Target F) where
    -- A recovery is reported: after fewer calls on a new machine than the largest `int`, a result outside
    -- the maintenance window, for a target that is DOWN, makes an event to UP or FLAPPING as soon as the
    -- results of the target that succeeded in a row, this one included, reach the recovery threshold.
    pub enough_successes_reported :
        length cs < max_int64
        → is_active t.maintenance r.timestamp ≡ false
        → status_in (get_state r.target_id (machine cfg cs now uuid r t)) ≡ down
        → recovery_threshold_of cfg t ≤ℤ pos (streaks cfg cs now uuid r t).successes
        → (e : Event F) × ((process now uuid r t (machine cfg cs now uuid r t)).2 ≡ some e)
          × IsBack e.to_status
    enough_successes_reported short open_hours was h =
        let f = machine cfg cs now uuid r t in
        let (s, stored, same) = process-StoresCounted now uuid r t f in
        let counts = counted_streaks cfg cs now uuid r t short in
        let successes : (counted now r f).consecutive_success
            ≡ pos (streaks cfg cs now uuid r t).successes =
          sym same.success_is ∙ sym (ap successes_in stored) ∙ counts.successes_count in
        process_recovers now uuid r t f open_hours (previous-eq-status_in now r.target_id f ∙ was) (
          subst (λ c. recovery_threshold_of c t ≤ℤ (counted now r f).consecutive_success)
            (sym (cfg-machine cfg cs now uuid r t))
            (subst (λ n. recovery_threshold_of cfg t ≤ℤ n) (sym successes) h))
