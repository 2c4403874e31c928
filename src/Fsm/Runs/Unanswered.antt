-- ===== src/Fsm/Runs/Unanswered.antt =====
-- A target that never answers, in the state machine of internal/fsm/fsm.go: `derive` counts failures
-- against the threshold only from UP and DEGRADED.
use gi_con_mon.Fsm.Process.Frame.{set_silent-Untouched, remove_target-Untouched}
use gi_con_mon.Fsm.Flap.{FlapTracker}
use gi_con_mon.Fsm.Process.Outcome.{conclude-Quiet}
use gi_con_mon.Fsm.Process.Branches.{
  previous, counted, detected, status-observe, process-concludes, status-detected,
  process-maintained, get_state-put_state, process-silent, get_state-remove_target,
}
use gi_con_mon.Common.{
  String, ◌≡◌, ◌≢◌, ◌⊎◌, inl, inr, refl, false, arith, ◌∙◌, ap, List, [], All, Bool-cases, str_eq,
  eq_iff, none, sym, subst, lookup, Bool, true,
}
use gi_con_mon.Model.{
  Time, FloatOps, Target, ProbeResult, TargetState, Status, unknown, maintenance, silent, is_active,
  status_eq_iff, status_eq,
}
use gi_con_mon.Fsm.Machine.{Config, Fsm, get_or_create}
use gi_con_mon.Fsm.Derive.{derive, derive_from}
use gi_con_mon.Fsm.Process.{process, get_state, new_fsm, detect_flap, set_silent}
use gi_con_mon.Fsm.Runs.{Call, probe, silence, drop, run, run_all}
use gi_con_mon.Fsm.Runs.Events.{
  status_in, reported, events_for, previous-eq-status_in, mute_run, other_target,
}
use gi_con_mon.Fsm.Runs.Maintenance.{process-maintenance}

-- The statuses that a target has as long as it never answers.
abbrev pub NeverUp : Status → Type 0
NeverUp p = (p ≡ unknown) ⊎ (p ≡ maintenance) ⊎ (p ≡ silent)

module _ {F : Type 0} ⦃fl : FloatOps F⦄ where
  derive-unknown :
      (cfg : Config F) (s : TargetState F) (r : ProbeResult F) (t : Target F)
      → s.status ≡ unknown
      → r.success ≡ false
      → derive cfg s r t ≡ unknown
  unfolding derive derive_from
  derive-unknown cfg s r t e h = ground arith

  status-detect_flap_same :
      (cfg : Config F) (ft : FlapTracker) (r : ProbeResult F) (p : Status) (s : TargetState F)
      (n : Status)
      → n ≡ p
      → (detect_flap cfg ft r p s n).status ≡ p
  unfolding detect_flap
  status-detect_flap_same cfg ft r p s n e = rw ((status_eq_iff n p).1 e) e

  process-unknown :
      (now : Time) (uuid : String) (r : ProbeResult F) (t : Target F) (f : Fsm F)
      → is_active t.maintenance r.timestamp ≡ false
      → r.success ≡ false
      → previous now r f ≡ unknown
      → ((process now uuid r t f).2 ≡ none)
        × (status_in (get_state r.target_id (process now uuid r t f).0) ≡ unknown)
  process-unknown now uuid r t f open_hours failed e =
      let s = counted now r f in
      let same : (detected now r t f).status ≡ previous now r f =
        status-detect_flap_same f.cfg f.flapper r (previous now r f) s (derive f.cfg s r t) (
          derive-unknown f.cfg s r t (status-observe r (get_or_create now r.target_id f) ∙ e) failed
          ∙ sym e) in
      let quiet = conclude-Quiet uuid r t (previous now r f) (detected now r t f) f same in
      rw (process-concludes now uuid r t f open_hours (λ mute. cc))
        (quiet.no_event, ap status_in quiet.stored ∙ status-detected now r t f ∙ e)

  unanswered_probe :
      (now : Time) (uuid : String) (r : ProbeResult F) (t : Target F) (f : Fsm F)
      → r.success ≡ false
      → NeverUp (status_in (get_state r.target_id f))
      → ((process now uuid r t f).2 ≡ none)
        × NeverUp (status_in (get_state r.target_id (process now uuid r t f).0))
  unanswered_probe now uuid r t f failed p =
      elim (Bool-cases (is_active t.maintenance r.timestamp)) [
        | inl active ↦
            rw (process-maintained now uuid r t f active)
              (refl, inr (inl (ap status_in (get_state-put_state r.target_id _ f))))
        | inr open_hours ↦ elim p [
          | inl e ↦
              let (quiet, stays) =
                process-unknown now uuid r t f open_hours failed
                  (previous-eq-status_in now r.target_id f ∙ e) in
              (quiet, inl stays)
          | inr (inl e) ↦
              let (quiet, stays) = process-maintenance now uuid r t f e in (quiet, inr (inl stays))
          | inr (inr e) ↦
              let mute = previous-eq-status_in now r.target_id f ∙ e in
              rw (process-silent now uuid r t f open_hours mute) (
                refl,
                inr (
                    inr (
                      ap status_in (get_state-put_state r.target_id _ f)
                      ∙ status-observe r (get_or_create now r.target_id f)
                      ∙ mute)),
              )
        ]
      ]

  -- The call is not a successful probe of the target `id`.
  abbrev pub NoAnswer : String → Call F → Type 0
  NoAnswer id (probe now uuid r t) = (r.success ≡ false) ⊎ (r.target_id ≢ id)
  NoAnswer id (silence now j quiet) = Unit
  NoAnswer id (drop j) = Unit

  set_silent-NeverUp :
      (now : Time) (id : String) (quiet : Bool) (f : Fsm F)
      → NeverUp (status_in (get_state id f))
      → NeverUp (status_in (get_state id (set_silent now id quiet f)))
  unfolding set_silent
  set_silent-NeverUp now id true f p = inr (inr (ap status_in (get_state-put_state id _ f)))
  set_silent-NeverUp now id false f p =
      elim (Bool-cases (status_eq (get_or_create now id f).status silent)) [
        | inl mute ↦ rw mute (inl (ap status_in (get_state-put_state id _ f)))
        | inr loud ↦ rw loud (
            rw
              (ap status_in (get_state-put_state id (get_or_create now id f) f)
                ∙ previous-eq-status_in now id f)
              p)
      ]

  unanswered_step :
      (id : String) (c : Call F) (f : Fsm F)
      → NoAnswer id c
      → NeverUp (status_in (get_state id f))
      → (reported id c f ≡ none) × NeverUp (status_in (get_state id (run c f)))
  unfolding reported run
  unanswered_step id (probe now uuid r t) f q p = elim (Bool-cases (str_eq r.target_id id)) [
    | inl same ↦ rw same (
        subst
          (λ j.
            NeverUp (status_in (get_state j f))
            → ((process now uuid r t f).2 ≡ none)
              × NeverUp (status_in (get_state j (process now uuid r t f).0)))
          ((eq_iff r.target_id id).0 same)
          (unanswered_probe now uuid r t f (ground (arith, eq_iff r.target_id id))) p)
    | inr other ↦ rw (other, other_target id now uuid r t f other) (refl, p)
  ]
  unanswered_step id (silence now j quiet) f q p = elim (Bool-cases (str_eq j id)) [
    | inl same ↦ (
      refl,
      subst
          (λ i.
            NeverUp (status_in (get_state i f))
            → NeverUp (status_in (get_state i (set_silent now j quiet f))))
          ((eq_iff j id).0 same) (set_silent-NeverUp now j quiet f) p,
    )
    | inr other ↦ (
      refl,
      rw (set_silent-Untouched id f now j quiet (ground (arith, eq_iff j id))).same_state p,
    )
  ]
  unanswered_step id (drop j) f q p = elim (Bool-cases (str_eq j id)) [
    | inl same ↦ (refl, inl (ap status_in (get_state-remove_target id j f same)))
    | inr other ↦
        (refl, rw (remove_target-Untouched id f j (ground (arith, eq_iff j id))).same_state p)
  ]

  -- However often its probes fail, a target that has never answered a probe on a new machine reports
  -- no event, and none that takes it to DOWN: it stays UNKNOWN, MAINTENANCE or SILENT.
  pub unanswered_reports_nothing :
      (id : String) (cs : List (Call F)) (cfg : Config F)
      → All (NoAnswer id) cs
      → (events_for id cs (new_fsm cfg) ≡ [])
        × NeverUp (status_in (get_state id (run_all cs (new_fsm cfg))))
  unanswered_reports_nothing id cs cfg q =
      mute_run id NeverUp (NoAnswer id) (unanswered_step id) cs (new_fsm cfg) q
        (inl (unfold new_fsm get_state lookup in refl))
