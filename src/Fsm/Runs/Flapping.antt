-- ===== src/Fsm/Runs/Flapping.antt =====
-- FLAPPING in the state machine of internal/fsm/fsm.go: `derive` never returns it, so that `Process` records
-- each result in this status as one more change.
use gi_con_mon.Fsm.Process.Outcome.{conclude-Quiet}
use gi_con_mon.Fsm.Process.Branches.{
  previous, counted, status-observe, detected, process-concludes, status-detected,
}
use gi_con_mon.Fsm.Runs.Events.{status_in, previous-eq-status_in, events_for, reported}
use gi_con_mon.Common.{
  String, ◌≡◌, arith, ℕ, refl, ◌≢◌, ◌≤ℤ◌, List, pos, [], false, ◌≤◌, ◌+◌, ◌∷◌, Bool, ap, ◌*◌, none,
  ◌∙◌, subst, sym, eq_iff, String,
}
use gi_con_mon.Fsm.Derive.{derive, derive_from, derive_down}
use gi_con_mon.Model.{
  FloatOps, ProbeResult, Target, Time, Status, TargetState, flapping, is_active, status_eq-false,
  FloatOps, ProbeResult, Target, Time,
}
use gi_con_mon.Fsm.Runs.{Call, probe, silence, drop, run, run_all}
use gi_con_mon.Fsm.Machine.{Config, Fsm, get_or_create, put_state}
use gi_con_mon.Fsm.Flap
use gi_con_mon.Fsm.Flap.{FlapTracker, record_change, history_of}
use gi_con_mon.Fsm.Flap.Pace.{
  Dense, length-recorded, length-next_history, history_of-recorded, Dense-next,
}
use gi_con_mon.Fsm.Process.{
  detect_flap, conclude, process, get_state, set_silent, remove_target, Detected,
}
use gi_con_mon.Fsm.Process.Frame.{
  Untouched, cfg-process, cfg-set_silent, process-Untouched, set_silent-Untouched,
  remove_target-Untouched,
}

-- The calls of a run as they concern the target `id`: its results come outside maintenance windows and in
-- order, each at most `d` after the one before, the first after `last`; it is not silenced nor removed.
pub data Paced {F : Type 0} (id : String) (d : ℕ) : Time → List (Call F) → Type 0 where
  paced_end : {last : Time} → Paced id d last []
  paced_probe :
      {last now : Time} {uuid : String} {r : ProbeResult F} {t : Target F} {cs : List (Call F)}
      → r.target_id ≡ id
      → is_active t.maintenance r.timestamp ≡ false
      → last ≤ r.timestamp
      → r.timestamp ≤ last + d
      → Paced id d r.timestamp cs
      → Paced id d last (probe now uuid r t ∷ cs)
  paced_other :
      {last now : Time} {uuid : String} {r : ProbeResult F} {t : Target F} {cs : List (Call F)}
      → r.target_id ≢ id
      → Paced id d last cs
      → Paced id d last (probe now uuid r t ∷ cs)
  paced_silence :
      {last now : Time} {j : String} {quiet : Bool} {cs : List (Call F)}
      → j ≢ id
      → Paced id d last cs
      → Paced id d last (silence now j quiet ∷ cs)
  paced_drop :
      {last : Time} {j : String} {cs : List (Call F)}
      → j ≢ id
      → Paced id d last cs
      → Paced id d last (drop j ∷ cs)

module _ {F : Type 0} where
  -- A change, and the status is FLAPPING if the count is at the threshold.
  detect_flap-recorded :
      (cfg : Config F) (ft : FlapTracker) (r : ProbeResult F) (p : Status) (s : TargetState F)
      (new_status : Status)
      → new_status ≢ p
      → let out = Flap.count r.target_id r.timestamp (record_change r.target_id r.timestamp ft) in
        cfg.flap_threshold ≤ℤ pos out.1
        → ((detect_flap cfg ft r p s new_status).status ≡ flapping)
          × ((detect_flap cfg ft r p s new_status).flapper ≡ out.0)
  unfolding detect_flap
  detect_flap-recorded cfg ft r p s new_status moved h =
      rw (status_eq-false new_status p moved) (ground arith, refl)

  flapper-conclude :
      (uuid : String) (r : ProbeResult F) (t : Target F) (p : Status) (d : Detected F) (f : Fsm F)
      → (conclude uuid r t p d f).0.flapper ≡ d.flapper
  unfolding conclude put_state
  flapper-conclude uuid r t p d f = ground arith

module _ {F : Type 0} ⦃fl : FloatOps F⦄ where
  derive-flapping :
      (cfg : Config F) (r : ProbeResult F) (t : Target F) (s : TargetState F)
      → s.status ≡ flapping
      → derive cfg s r t ≢ flapping
  unfolding derive derive_from derive_down
  derive-flapping cfg r t s e = rw e (ground arith)

  window-run : (c : Call F) (f : Fsm F) → (run c f).flapper.window ≡ f.flapper.window
  unfolding run process conclude put_state detect_flap record_change Flap.count set_silent
      remove_target Flap.remove
  window-run (probe now uuid r t) f = ground arith
  window-run (silence now j quiet) f = ground arith
  window-run (drop j) f = refl

  pub window-run_all :
      (cs : List (Call F)) (f : Fsm F) → (run_all cs f).flapper.window ≡ f.flapper.window
  unfolding run_all
  window-run_all [] f = refl
  window-run_all (c ∷ cs) f = window-run_all cs (run c f) ∙ window-run c f

  -- A call that reports nothing for the target.
  reported-quiet :
      (id : String) (now : Time) (uuid : String) (r : ProbeResult F) (t : Target F) (f : Fsm F)
      → (process now uuid r t f).2 ≡ none
      → reported id (probe now uuid r t) f ≡ none
  unfolding reported
  reported-quiet id now uuid r t f quiet = ground arith

  reported-other :
      (id : String) (now : Time) (uuid : String) (r : ProbeResult F) (t : Target F) (f : Fsm F)
      → r.target_id ≢ id
      → reported id (probe now uuid r t) f ≡ none
  unfolding reported
  reported-other id now uuid r t f other = ground (arith, eq_iff r.target_id id)

  events_for-quiet :
      (id : String) (c : Call F) (cs : List (Call F)) (f : Fsm F)
      → reported id c f ≡ none
      → events_for id cs (run c f) ≡ []
      → events_for id (c ∷ cs) f ≡ []
  unfolding events_for
  events_for-quiet id c cs f quiet rest = rw (quiet, events_for) rest

  cfg-run : (c : Call F) (f : Fsm F) → (run c f).cfg ≡ f.cfg
  unfolding run remove_target
  cfg-run (probe now uuid r t) f = cfg-process f now uuid r t
  cfg-run (silence now j quiet) f = cfg-set_silent f now j quiet
  cfg-run (drop j) f = refl

  -- The target is FLAPPING, and its recorded changes lie close enough for it to remain so: with the window
  -- `w`, a threshold of at most n + 1, and n changes before the last one within distances of `d`.
  pub record IsFlapping (d n w : ℕ) (id : String) (last : Time) (f : Fsm F) : Type 0 where
    pub status_is : status_in (get_state id f) ≡ flapping
    pub width : f.flapper.window ≡ pos w
    pub limit : f.cfg.flap_threshold ≤ℤ pos (n + 1)
    pub dense : Dense d n last (history_of f.flapper id)

  IsFlapping-Untouched :
      (d n w : ℕ) (id : String) (last : Time) (c : Call F) (f : Fsm F)
      → Untouched id f (run c f)
      → IsFlapping d n w id last f
      → IsFlapping d n w id last (run c f)
  IsFlapping-Untouched d n w id last c f u h = record {
    status_is = ap status_in u.same_state ∙ h.status_is;
    width = window-run c f ∙ h.width;
    limit = subst (λ cfg. cfg.flap_threshold ≤ℤ pos (n + 1)) (sym (cfg-run c f)) h.limit;
    dense = subst (Dense d n last) (sym u.same_history) h.dense;
  }

  module _ (d n w : ℕ) (fits : n * d ≤ w) where
    process-IsFlapping :
        (last now : Time) (uuid : String) (r : ProbeResult F) (t : Target F) (f : Fsm F)
        → is_active t.maintenance r.timestamp ≡ false
        → last ≤ r.timestamp
        → r.timestamp ≤ last + d
        → IsFlapping d n w r.target_id last f
        → ((process now uuid r t f).2 ≡ none)
          × IsFlapping d n w r.target_id r.timestamp (process now uuid r t f).0
    unfolding run
    process-IsFlapping last now uuid r t f open_hours on soon h =
        let id = r.target_id in
        let p = previous now r f in
        let s = counted now r f in
        let was : p ≡ flapping = previous-eq-status_in now id f ∙ h.status_is in
        let out = Flap.count id r.timestamp (record_change id r.timestamp f.flapper) in
        let often : f.cfg.flap_threshold ≤ℤ pos out.1 = ground (
          arith,
          h.limit,
          length-recorded id w r.timestamp f.flapper h.width,
          length-next_history d n w last r.timestamp (history_of f.flapper id) fits on soon h.dense,
        ) in
        let (stays, kept) =
          detect_flap-recorded f.cfg f.flapper r p s (derive f.cfg s r t)
            (λ e.
              derive-flapping f.cfg r t s (status-observe r (get_or_create now id f) ∙ was)
                (e ∙ was))
            often in
        let quiet = conclude-Quiet uuid r t p (detected now r t f) f (stays ∙ sym was) in
        let concluded = process-concludes now uuid r t f open_hours (λ mute. cc) in
        (
          ap (λ o. o.2) concluded ∙ quiet.no_event,
          record {
            status_is =
                ap (λ o. status_in (get_state id o.0)) concluded
                ∙ ap status_in quiet.stored
                ∙ status-detected now r t f
                ∙ was;
            width = window-run (probe now uuid r t) f ∙ h.width;
            limit =
                subst (λ cfg. cfg.flap_threshold ≤ℤ pos (n + 1)) (sym (cfg-process f now uuid r t))
                  h.limit;
            dense =
                subst (Dense d n r.timestamp)
                  (sym (
                    ap (λ o. history_of o.0.flapper id) concluded
                    ∙ ap (λ ft. history_of ft id)
                        (flapper-conclude uuid r t p (detected now r t f) f ∙ kept)
                    ∙ history_of-recorded id w r.timestamp f.flapper h.width))
                  (Dense-next d n w last r.timestamp (history_of f.flapper id) fits on soon
                    h.dense);
          },
        )

    -- A target that is FLAPPING stays so while it is probed often enough: no event is reported and the
    -- status at the end is FLAPPING, whether its results fail or succeed. Its results come outside
    -- maintenance windows, in order and at most `d` apart; it is not silenced nor removed; the window
    -- of the flap tracker is at least n times `d` long, for a threshold of at most n + 1; and the last
    -- n of the recorded changes before the run lie as close as that.
    pub flapping_stuck :
        (id : String) {last : Time} {cs : List (Call F)} (f : Fsm F)
        → Paced id d last cs
        → IsFlapping d n w id last f
        → (events_for id cs f ≡ []) × (status_in (get_state id (run_all cs f)) ≡ flapping)
    unfolding events_for run_all reported run
    flapping_stuck id f paced_end h = (refl, h.status_is)
    flapping_stuck id f
          (paced_probe {last = last} {now = now} {uuid = uuid} {r = r} {t = t} {cs = cs} same
            open_hours on soon rest)
          h =
        let c = probe now uuid r t in
        let h' = subst (λ j. IsFlapping d n w j last f) (sym same) h in
        let (quiet, kept) = process-IsFlapping last now uuid r t f open_hours on soon h' in
        let (others, end) =
          flapping_stuck id (run c f) rest
            (subst (λ j. IsFlapping d n w j r.timestamp (run c f)) same kept) in
        (events_for-quiet id c cs f (reported-quiet id now uuid r t f quiet) others, end)
    flapping_stuck id f
          (paced_other {last = last} {now = now} {uuid = uuid} {r = r} {t = t} {cs = cs} other rest)
          h =
        let c = probe now uuid r t in
        let (others, end) =
          flapping_stuck id (run c f) rest (
            IsFlapping-Untouched d n w id last c f (process-Untouched id f now uuid r t other) h) in
        (events_for-quiet id c cs f (reported-other id now uuid r t f other) others, end)
    flapping_stuck id f (paced_silence {last = last} {now = now} {j = j} {quiet = quiet} other rest)
          h =
        flapping_stuck id (set_silent now j quiet f) rest (
          IsFlapping-Untouched d n w id last (silence now j quiet) f
            (set_silent-Untouched id f now j quiet other) h)
    flapping_stuck id f (paced_drop {last = last} {j = j} other rest) h =
        flapping_stuck id (remove_target j f) rest
          (IsFlapping-Untouched d n w id last (drop j) f (remove_target-Untouched id f j other) h)
