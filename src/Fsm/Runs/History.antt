-- ===== src/Fsm/Runs/History.antt =====
-- The events of the state machine of internal/fsm/fsm.go as the history of a target's status.
use gi_con_mon.Fsm.Process.Outcome.{process_outcome}
use gi_con_mon.Fsm.Process.Frame.{set_silent-Untouched, remove_target-Untouched}
use gi_con_mon.Common.{
  String, ◌≡◌, ◌≢◌, refl, none, some, ◌∙◌, ap, sym, List, [], ◌∷◌, Option, inl, inr, Bool-cases,
  All, str_eq, eq_iff, subst, false,
}
use gi_con_mon.Model.{Time, FloatOps, Target, ProbeResult, Status, Event, is_active}
use gi_con_mon.Fsm.Machine.{Fsm}
use gi_con_mon.Fsm.Process.{process, get_state}
use gi_con_mon.Fsm.Runs.{Call, probe, silence, drop, run, run_all}
use gi_con_mon.Fsm.Runs.Events.{
  status_in, reported, events_for, previous-eq-status_in, other_target,
}

module _ {F : Type 0} where
  -- The events lead from the first status to the last: each is of the target and leaves the status that the
  -- one before has reached, for another one.
  abbrev pub LeadsFrom : String → Status → List (Event F) → Status → Type 0
  LeadsFrom id first [] last = first ≡ last
  LeadsFrom id first (e ∷ es) last =
      (e.target_id ≡ id)
      × (e.from_status ≡ first)
      × (e.to_status ≢ first)
      × LeadsFrom id e.to_status es last

  -- What one call reports leads from the status before to the status behind it.
  abbrev pub LeadsBy : String → Status → Option (Event F) → Status → Type 0
  LeadsBy id first none last = first ≡ last
  LeadsBy id first (some e) last =
      (e.target_id ≡ id) × (e.from_status ≡ first) × (e.to_status ≢ first) × (e.to_status ≡ last)

  -- No call for the target but `Process`, and that outside its maintenance window.
  abbrev pub IsWatching : String → Call F → Type 0
  IsWatching id (probe now uuid r t) = is_active t.maintenance r.timestamp ≡ false
  IsWatching id (silence now j quiet) = j ≢ id
  IsWatching id (drop j) = j ≢ id

module _ {F : Type 0} ⦃fl : FloatOps F⦄ where
  process-LeadsBy :
      (now : Time) (uuid : String) (r : ProbeResult F) (t : Target F) (f : Fsm F)
      → is_active t.maintenance r.timestamp ≡ false
      → LeadsBy r.target_id
          (status_in (get_state r.target_id f))
          (process now uuid r t f).2
          (status_in (get_state r.target_id (process now uuid r t f).0))
  process-LeadsBy now uuid r t f open_hours =
      let same = previous-eq-status_in now r.target_id f in
      elim (process_outcome now uuid r t f) [
        | inl (s, quiet, inl stays) ↦ rw (quiet.no_event, quiet.stored) (sym (stays ∙ same))
        | inl (s, quiet, inr (active, kept)) ↦ absurd (cc (active, open_hours))
        | inr (e, s, moved, outside, live) ↦
            rw (moved.event, moved.stored)
              (
                moved.target_is,
                moved.from_is ∙ same,
                λ back. moved.differs (back ∙ sym same),
                moved.to_is,
              )
      ]

  run-LeadsBy :
      (id : String) (c : Call F) (f : Fsm F)
      → IsWatching id c
      → LeadsBy id
          (status_in (get_state id f))
          (reported id c f)
          (status_in (get_state id (run c f)))
  unfolding reported run
  run-LeadsBy id (probe now uuid r t) f open_hours = elim (Bool-cases (str_eq r.target_id id)) [
    | inl same ↦ rw same (
        subst
          (λ j.
            LeadsBy j (status_in (get_state j f)) (process now uuid r t f).2
              (status_in (get_state j (process now uuid r t f).0)))
          ((eq_iff r.target_id id).0 same) (process-LeadsBy now uuid r t f open_hours))
    | inr other ↦ rw other (sym (other_target id now uuid r t f other))
  ]
  run-LeadsBy id (silence now j quiet) f q =
      sym (ap status_in (set_silent-Untouched id f now j quiet q).same_state)
  run-LeadsBy id (drop j) f q = sym (ap status_in (remove_target-Untouched id f j q).same_state)

  -- One more event, or none, in front.
  joined :
      (id : String) (o : Option (Event F)) (es : List (Event F)) (first middle last : Status)
      → LeadsBy id first o middle
      → LeadsFrom id middle es last
      → LeadsFrom id first (elim o [ none ↦ es | some e ↦ e ∷ es ]) last
  joined id none es first middle last h rest = subst (λ p. LeadsFrom id p es last) (sym h) rest
  joined id (some e) es first middle last h rest =
      (h.0, h.1, h.2, subst (λ p. LeadsFrom id p es last) (sym h.3) rest)

  -- The events of a target are the whole history of its status: through any run that silences or removes
  -- only other targets, and probes outside maintenance windows, each event of the target leaves the
  -- status that the one before has reached, the first leaves the status at the start, and the last
  -- reaches the status at the end. No change is unreported, and none is reported twice.
  pub events_for-LeadsFrom :
      (id : String) (cs : List (Call F)) (f : Fsm F)
      → All (IsWatching id) cs
      → LeadsFrom id
          (status_in (get_state id f))
          (events_for id cs f)
          (status_in (get_state id (run_all cs f)))
  unfolding events_for run_all
  events_for-LeadsFrom id [] f ok = refl
  events_for-LeadsFrom id (c ∷ cs) f ok =
      joined id (reported id c f) (events_for id cs (run c f)) (status_in (get_state id f))
        (status_in (get_state id (run c f))) (status_in (get_state id (run_all cs (run c f))))
        (run-LeadsBy id c f ok.0) (events_for-LeadsFrom id cs (run c f) ok.1)
