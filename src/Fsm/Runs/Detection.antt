-- ===== src/Fsm/Runs/Detection.antt =====
-- That `Process` of internal/fsm/fsm.go does report an outage.
use gi_con_mon.Fsm.Runs.Counters.{fails_in}
use gi_con_mon.Fsm.Runs.Events.{status_in, previous-eq-status_in}
use gi_con_mon.Fsm.Runs.{Call}
use gi_con_mon.Common.{
  ◌≢◌, arith, ◌≤ℤ◌, ◌≡◌, subst, List, sym, String, length, ◌<◌, false, max_int64, some, pos, ◌∙◌,
  ap,
}
use gi_con_mon.Fsm.Flap.{FlapTracker}
use gi_con_mon.Fsm.Machine.{Config, get_or_create, Fsm}
use gi_con_mon.Fsm.Process.Guards.{IsLive, IsBroken, down_broken, flapping_broken}
use gi_con_mon.Fsm.Derive.{derive_from, derive, derive_up, down_threshold_of}
use gi_con_mon.Fsm.Process.{detect_flap, make_event, process, get_state}
use gi_con_mon.Model.{
  FloatOps, Status, Time, status_eq, ProbeResult, Target, TargetState, up, degraded, down, silent,
  flapping, is_active, Event,
}
use gi_con_mon.Fsm.Runs.Evidence.{streaks, machine, counted_streaks, cfg-machine}
use gi_con_mon.Fsm.Process.Stored.{process-StoresCounted}
use gi_con_mon.Fsm.Process.Branches.{counted, previous, detected, process-concludes, status-observe}
use gi_con_mon.Fsm.Process.Outcome.{event_of, conclude-Moved}

live_not_broken : (p q : Status) → IsLive p → IsBroken q → q ≢ p
live_not_broken up down l b e = cc
live_not_broken up flapping l b e = cc
live_not_broken degraded down l b e = cc
live_not_broken degraded flapping l b e = cc
live_not_broken up _ l b e = elim b [ ]
live_not_broken degraded _ l b e = elim b [ ]
live_not_broken _ _ l b e = elim l [ ]

live_not_silent : (p : Status) → IsLive p → p ≢ silent
live_not_silent up l e = cc
live_not_silent degraded l e = cc
live_not_silent _ l e = elim l [ ]

module _ {F : Type 0} ⦃fl : FloatOps F⦄ where
  derive_from-down :
      (cfg : Config F) (r : ProbeResult F) (t : Target F) (s : TargetState F) (p : Status)
      → IsLive p
      → down_threshold_of cfg t ≤ℤ s.consecutive_fails
      → derive_from p cfg s r t ≡ down
  unfolding derive_from derive_up
  derive_from-down cfg r t s up live h = ground arith
  derive_from-down cfg r t s degraded live h = ground arith
  derive_from-down cfg r t s _ live h = elim live [ ]

  detect_flap-IsBroken :
      (cfg : Config F) (ft : FlapTracker) (r : ProbeResult F) (s : TargetState F) (p : Status)
      → IsLive p
      → IsBroken (detect_flap cfg ft r p s down).status
  unfolding detect_flap status_eq
  detect_flap-IsBroken cfg ft r s up live = grind (arith, down_broken, flapping_broken)
  detect_flap-IsBroken cfg ft r s degraded live = grind (arith, down_broken, flapping_broken)
  detect_flap-IsBroken cfg ft r s _ live = elim live [ ]

  detected-IsBroken :
      (now : Time) (r : ProbeResult F) (t : Target F) (f : Fsm F)
      → IsLive (previous now r f)
      → down_threshold_of f.cfg t ≤ℤ (counted now r f).consecutive_fails
      → IsBroken (detected now r t f).status
  unfolding derive
  detected-IsBroken now r t f live h =
      let s = counted now r f in
      let live' : IsLive s.status =
        subst IsLive (sym (status-observe r (get_or_create now r.target_id f))) live in
      rw (derive_from-down f.cfg r t s s.status live' h)
        (detect_flap-IsBroken f.cfg f.flapper r s (previous now r f) live)

  -- One result: the threshold is reached, and an event is made.
  pub process_detects :
      (now : Time) (uuid : String) (r : ProbeResult F) (t : Target F) (f : Fsm F)
      → is_active t.maintenance r.timestamp ≡ false
      → IsLive (previous now r f)
      → down_threshold_of f.cfg t ≤ℤ (counted now r f).consecutive_fails
      → (e : Event F) × ((process now uuid r t f).2 ≡ some e) × IsBroken e.to_status
  unfolding make_event
  process_detects now uuid r t f open_hours live h =
      let p = previous now r f in
      let d = detected now r t f in
      let broken = detected-IsBroken now r t f live h in
      rw (process-concludes now uuid r t f open_hours (live_not_silent p live)) (
        event_of uuid r t p d,
        (conclude-Moved uuid r t p d f (live_not_broken p d.status live broken)).event,
        broken,
      )

  module _ (cfg : Config F) (cs : List (Call F)) (now : Time) (uuid : String) (r : ProbeResult F)
      (t : Target F) where
    -- An outage is reported: after fewer calls on a new machine than the largest `int`, a result outside
    -- the maintenance window, for a target that is UP or DEGRADED, makes an event to DOWN or FLAPPING as
    -- soon as the results of the target that failed in a row, this one included, reach the threshold.
    pub enough_failures_reported :
        length cs < max_int64
        → is_active t.maintenance r.timestamp ≡ false
        → IsLive (status_in (get_state r.target_id (machine cfg cs now uuid r t)))
        → down_threshold_of cfg t ≤ℤ pos (streaks cfg cs now uuid r t).fails
        → (e : Event F) × ((process now uuid r t (machine cfg cs now uuid r t)).2 ≡ some e)
          × IsBroken e.to_status
    enough_failures_reported short open_hours live h =
        let f = machine cfg cs now uuid r t in
        let (s, stored, same) = process-StoresCounted now uuid r t f in
        let counts = counted_streaks cfg cs now uuid r t short in
        let fails : (counted now r f).consecutive_fails ≡ pos (streaks cfg cs now uuid r t).fails =
          sym same.fails_is ∙ sym (ap fails_in stored) ∙ counts.fails_count in
        process_detects now uuid r t f open_hours
          (subst IsLive (sym (previous-eq-status_in now r.target_id f)) live)
          (subst (λ c. down_threshold_of c t ≤ℤ (counted now r f).consecutive_fails)
            (sym (cfg-machine cfg cs now uuid r t))
            (subst (λ n. down_threshold_of cfg t ≤ℤ n) (sym fails) h))
