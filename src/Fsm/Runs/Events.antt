-- ===== src/Fsm/Runs/Events.antt =====
-- The events that a run of the state machine of internal/fsm/fsm.go reports for one target.
use gi_con_mon.Fsm.Process.Frame.{process-Untouched}
use gi_con_mon.Common.{
  String, ◌≡◌, refl, Option, some, none, false, arith, ap, List, [], ◌∷◌, All, str_eq, eq_iff,
  if◌then◌else◌,
}
use gi_con_mon.Model.{Time, FloatOps, Target, ProbeResult, TargetState, Status, unknown, Event}
use gi_con_mon.Fsm.Machine.{Fsm, get_or_create, fresh_state}
use gi_con_mon.Fsm.Process.{process, get_state}
use gi_con_mon.Fsm.Runs.{Call, probe, silence, drop, run, run_all}

-- The status that the next call for a target finds; `getOrCreate` makes a missing entry UNKNOWN.
abbrev pub status_in : {F : Type 0} → Option (TargetState F) → Status
status_in none = unknown
status_in (some s) = s.status

module _ {F : Type 0} ⦃fl : FloatOps F⦄ where
  -- The event that a call reports for the target `id`.
  unfoldable pub reported : String → Call F → Fsm F → Option (Event F)
  reported id (probe now uuid r t) f =
      if str_eq r.target_id id then (process now uuid r t f).2 else none
  reported id (silence now j quiet) f = none
  reported id (drop j) f = none

  -- All events that a run reports for the target `id`.
  unfoldable pub events_for : String → List (Call F) → Fsm F → List (Event F)
  events_for id [] f = []
  events_for id (c ∷ cs) f =
      let rest = events_for id cs (run c f) in
      elim (reported id c f) [ none ↦ rest | some e ↦ e ∷ rest ]

  pub previous-eq-status_in :
      (now : Time) (id : String) (f : Fsm F)
      → (get_or_create now id f).status ≡ status_in (get_state id f)
  unfolding get_or_create fresh_state get_state
  previous-eq-status_in now id f = ground arith

  -- What every call keeps, if it reports nothing, holds at the end of a run that reports nothing.
  module _ (id : String) (P : Status → Type 0) (Q : Call F → Type 0)
      (step : (c : Call F) (f : Fsm F)
        → Q c
        → P (status_in (get_state id f))
        → (reported id c f ≡ none) × P (status_in (get_state id (run c f)))) where
    pub mute_run :
        (cs : List (Call F)) (f : Fsm F)
        → All Q cs
        → P (status_in (get_state id f))
        → (events_for id cs f ≡ []) × P (status_in (get_state id (run_all cs f)))
    unfolding events_for run_all
    mute_run [] f a p = (refl, p)
    mute_run (c ∷ cs) f a p =
        let (quiet, p') = step c f a.0 p in
        let (rest, end) = mute_run cs (run c f) a.1 p' in (rw (quiet, events_for) rest, end)

  pub other_target :
      (id : String) (now : Time) (uuid : String) (r : ProbeResult F) (t : Target F) (f : Fsm F)
      → str_eq r.target_id id ≡ false
      → status_in (get_state id (process now uuid r t f).0) ≡ status_in (get_state id f)
  other_target id now uuid r t f other =
      ap status_in
        (process-Untouched id f now uuid r t (ground (arith, eq_iff r.target_id id))).same_state
