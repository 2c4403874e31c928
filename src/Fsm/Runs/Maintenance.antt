-- ===== src/Fsm/Runs/Maintenance.antt =====
-- MAINTENANCE in the state machine of internal/fsm/fsm.go: no case of `derive` leaves it.
use gi_con_mon.Fsm.Process.Guards.{
  process-Transition, Transition, answer, fail, slow, heal, recover, relapse, flap, up_live,
  degraded_live, down_broken, flapping_broken, unknown_flaps, up_flaps, degraded_flaps, down_flaps,
}
use gi_con_mon.Fsm.Process.Outcome.{process_outcome}
use gi_con_mon.Fsm.Process.Frame.{set_silent-Untouched, remove_target-Untouched}
use gi_con_mon.Common.{
  String, ◌≡◌, ◌≢◌, refl, none, ◌∙◌, ap, List, [], inl, inr, Bool-cases, All, str_eq, eq_iff, subst,
}
use gi_con_mon.Model.{Time, FloatOps, Target, ProbeResult, TargetState, Status, maintenance}
use gi_con_mon.Fsm.Machine.{Config, Fsm}
use gi_con_mon.Fsm.Process.{process, get_state}
use gi_con_mon.Fsm.Runs.{Call, probe, silence, drop, run, run_all}
use gi_con_mon.Fsm.Runs.Events.{
  status_in, reported, events_for, previous-eq-status_in, mute_run, other_target,
}

module _ {F : Type 0} ⦃fl : FloatOps F⦄ where
  -- MAINTENANCE is the source of no transition.
  no_way_out :
      (cfg : Config F) (r : ProbeResult F) (t : Target F) (s : TargetState F) {p q : Status}
      → Transition cfg r t s p q
      → p ≢ maintenance
  no_way_out cfg r t s (answer h) e = cc
  no_way_out cfg r t s (fail up_live h) e = cc
  no_way_out cfg r t s (fail degraded_live h) e = cc
  no_way_out cfg r t s (slow h k) e = cc
  no_way_out cfg r t s (heal h k) e = cc
  no_way_out cfg r t s (recover down_broken h) e = cc
  no_way_out cfg r t s (recover flapping_broken h) e = cc
  no_way_out cfg r t s (relapse h) e = cc
  no_way_out cfg r t s (flap unknown_flaps h) e = cc
  no_way_out cfg r t s (flap up_flaps h) e = cc
  no_way_out cfg r t s (flap degraded_flaps h) e = cc
  no_way_out cfg r t s (flap down_flaps h) e = cc

  pub process-maintenance :
      (now : Time) (uuid : String) (r : ProbeResult F) (t : Target F) (f : Fsm F)
      → status_in (get_state r.target_id f) ≡ maintenance
      → ((process now uuid r t f).2 ≡ none)
        × (status_in (get_state r.target_id (process now uuid r t f).0) ≡ maintenance)
  process-maintenance now uuid r t f stuck = elim (process_outcome now uuid r t f) [
    | inl (s, quiet, inl stays) ↦ (
      quiet.no_event,
      ap status_in quiet.stored ∙ stays ∙ previous-eq-status_in now r.target_id f ∙ stuck,
    )
    | inl (s, quiet, inr (active, kept)) ↦ (quiet.no_event, ap status_in quiet.stored ∙ kept)
    | inr (e, s, moved, open_hours, live) ↦
        let (s', stored, transition) = process-Transition now uuid r t f e moved.event in
        absurd (
          no_way_out f.cfg r t s' transition
            (moved.from_is ∙ previous-eq-status_in now r.target_id f ∙ stuck))
  ]

  -- Any call but the ones that silence, un-silence or remove the target `id`.
  abbrev pub LeavesOn : String → Call F → Type 0
  LeavesOn id (probe now uuid r t) = Unit
  LeavesOn id (silence now j quiet) = j ≢ id
  LeavesOn id (drop j) = j ≢ id

  maintenance_step :
      (id : String) (c : Call F) (f : Fsm F)
      → LeavesOn id c
      → status_in (get_state id f) ≡ maintenance
      → (reported id c f ≡ none) × (status_in (get_state id (run c f)) ≡ maintenance)
  unfolding reported run
  maintenance_step id (probe now uuid r t) f q stuck = elim (Bool-cases (str_eq r.target_id id)) [
    | inl same ↦ rw same (
        subst
          (λ j.
            status_in (get_state j f) ≡ maintenance
            → ((process now uuid r t f).2 ≡ none)
              × (status_in (get_state j (process now uuid r t f).0) ≡ maintenance))
          ((eq_iff r.target_id id).0 same) (process-maintenance now uuid r t f) stuck)
    | inr other ↦ rw other (refl, other_target id now uuid r t f other ∙ stuck)
  ]
  maintenance_step id (silence now j quiet) f q stuck =
      (refl, ap status_in (set_silent-Untouched id f now j quiet q).same_state ∙ stuck)
  maintenance_step id (drop j) f q stuck =
      (refl, ap status_in (remove_target-Untouched id f j q).same_state ∙ stuck)

  -- A target in MAINTENANCE stays there, and reports no event, through any run that does not silence,
  -- un-silence or remove it: whether or not a window is active, and whatever the results are.
  pub maintenance_stuck :
      (id : String) (cs : List (Call F)) (f : Fsm F)
      → All (LeavesOn id) cs
      → status_in (get_state id f) ≡ maintenance
      → (events_for id cs f ≡ []) × (status_in (get_state id (run_all cs f)) ≡ maintenance)
  maintenance_stuck id cs f leaves stuck =
      mute_run id (λ p. p ≡ maintenance) (LeavesOn id) (maintenance_step id) cs f leaves stuck
