-- ===== src/Fsm/Process/Branches.antt =====
-- The three ways through `Process` of internal/fsm/fsm.go, and what each part leaves alone.
use gi_con_mon.Common.{
  String, ◌≡◌, true, false, none, some, arith, Bool-cases, inl, inr, lookup-insert_self, ◌≢◌, ◌∙◌,
  ap, str_eq, lookup-delete, ℤ, pos,
}
use gi_con_mon.Model.{
  Time, FloatOps, Status, maintenance, silent, status_eq, status_eq-false, Target, is_active,
  ProbeResult, TargetState,
}
use gi_con_mon.Fsm.Machine.{Config, Fsm, get_or_create, observe, put_state}
use gi_con_mon.Fsm.Derive.{derive}
use gi_con_mon.Fsm.Flap
use gi_con_mon.Fsm.Flap.{FlapTracker}
use gi_con_mon.Fsm.Process.{Detected, detect_flap, conclude, process, get_state, remove_target}

module _ {F : Type 0} ⦃fl : FloatOps F⦄ where
  -- Counting a result changes neither the status nor what the last transition left.
  pub status-observe : (r : ProbeResult F) (s : TargetState F) → (observe r s).status ≡ s.status
  unfolding observe
  status-observe r s = ground arith

module _ {F : Type 0} where
  -- Flap detection writes the flap count of the entry and nothing else.
  pub state-detect_flap :
      (cfg : Config F) (ft : FlapTracker) (r : ProbeResult F) (prev : Status) (s : TargetState F)
      (new_status : Status)
      → (n : ℤ) × ((detect_flap cfg ft r prev s new_status).state ≡ record s { flap_count_10m = n })
  unfolding detect_flap
  state-detect_flap cfg ft r prev s new_status = elim (Bool-cases (status_eq new_status prev)) [
    | inl same ↦ (s.flap_count_10m, rw same)
    | inr other ↦ (
      pos (Flap.count r.target_id r.timestamp (Flap.record_change r.target_id r.timestamp ft)).1,
      rw other,
    )
  ]

  pub get_state-remove_target :
      (id j : String) (f : Fsm F) → str_eq j id ≡ true → get_state id (remove_target j f) ≡ none
  unfolding get_state remove_target
  get_state-remove_target id j f same = ground (arith, lookup-delete j id f.states)

  pub get_state-put_state :
      (id : String) (s : TargetState F) (f : Fsm F) → get_state id (put_state id s f) ≡ some s
  unfolding get_state put_state
  get_state-put_state id s f = lookup-insert_self id s f.states

module _ {F : Type 0} ⦃fl : FloatOps F⦄ where
  -- The entry as counted, the status before, and what flap detection makes of them.
  abbrev pub counted : Time → ProbeResult F → Fsm F → TargetState F
  counted now r f = observe r (get_or_create now r.target_id f)

  abbrev pub previous : Time → ProbeResult F → Fsm F → Status
  previous now r f = (get_or_create now r.target_id f).status

  abbrev pub detected : Time → ProbeResult F → Target F → Fsm F → Detected F
  detected now r t f =
      detect_flap f.cfg f.flapper r (previous now r f) (counted now r f)
        (derive f.cfg (counted now r f) r t)

  pub status-detected :
      (now : Time) (r : ProbeResult F) (t : Target F) (f : Fsm F)
      → (detected now r t f).state.status ≡ previous now r f
  status-detected now r t f =
      ap (λ s. s.status)
        (state-detect_flap f.cfg f.flapper r (previous now r f) (counted now r f)
          (derive f.cfg (counted now r f) r t)).1
      ∙ status-observe r (get_or_create now r.target_id f)

  module _ (now : Time) (id : String) (r : ProbeResult F) (t : Target F) (f : Fsm F) where
    pub process-maintained :
        is_active t.maintenance r.timestamp ≡ true
        → process now id r t f ≡ (
          put_state r.target_id (record (counted now r f) { status = maintenance }) f,
          false,
          none,
        )
    unfolding process
    process-maintained h = rw h

    pub process-silent :
        is_active t.maintenance r.timestamp ≡ false
        → previous now r f ≡ silent
        → process now id r t f ≡ (put_state r.target_id (counted now r f) f, false, none)
    unfolding process status_eq
    process-silent h e = rw (h, status-observe, e)

    pub process-concludes :
        is_active t.maintenance r.timestamp ≡ false
        → previous now r f ≢ silent
        → process now id r t f ≡ conclude id r t (previous now r f) (detected now r t f) f
    unfolding process
    process-concludes h e = rw (h, status-observe, status_eq-false (previous now r f) silent e)
