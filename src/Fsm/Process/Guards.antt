-- ===== src/Fsm/Process/Guards.antt =====
-- The guarded transitions of the state machine of internal/fsm/fsm.go, as a relation, and that every
-- event of `Process` is one of them.

use gi_con_mon.Fsm.Process.Outcome.{conclude-Quiet, conclude-Moved}
use gi_con_mon.Fsm.Process.Branches.{
  previous, detected, process-concludes, status-observe, process-maintained, process-silent,
  counted,
}
use gi_con_mon.Common.{
  String, subst, ◌≡◌, refl, true, false, some, arith, Bool-cases, inl, inr, ◌≢◌, sym, ◌∙◌, ◌≤ℤ◌,
  ◌<ℤ◌, int_leb, pos, some_inj,
}
use gi_con_mon.Model.{
  Time, FloatOps, Status, unknown, up, down, degraded, flapping, silent, Target, is_active,
  ProbeResult, TargetState, Event, status_cases, status_eq_iff, status_eq-false,
}
use gi_con_mon.Fsm.Machine.{Config, Fsm, get_or_create, observe}
use gi_con_mon.Fsm.Flap
use gi_con_mon.Fsm.Flap.{FlapTracker}
use gi_con_mon.Fsm.Derive.{
  derive, derive_from, down_threshold_of, recovery_threshold_of, is_degraded,
}
use gi_con_mon.Fsm.Process.{detect_flap, process, get_state, commit_state, make_event}

-- The statuses in which failures are counted against the threshold.
pub data IsLive : Status → Type 0 where
  up_live : IsLive up
  degraded_live : IsLive degraded

-- The statuses in which successes are counted against the threshold.
pub data IsBroken : Status → Type 0 where
  down_broken : IsBroken down
  flapping_broken : IsBroken flapping

-- The statuses from which a change can be taken for flapping.
pub data CanFlap : Status → Type 0 where
  unknown_flaps : CanFlap unknown
  up_flaps : CanFlap up
  degraded_flaps : CanFlap degraded
  down_flaps : CanFlap down

module _ {F : Type 0} ⦃fl : FloatOps F⦄ where
  -- A transition, with the counters of the entry `s` as the result `r` left them.
  pub data Transition (cfg : Config F) (r : ProbeResult F) (t : Target F) (s : TargetState F)
      : Status → Status → Type 0 where
    answer : r.success ≡ true → Transition cfg r t s unknown up
    fail :
        {p : Status}
        → IsLive p
        → down_threshold_of cfg t ≤ℤ s.consecutive_fails
        → Transition cfg r t s p down
    slow :
        s.consecutive_fails <ℤ down_threshold_of cfg t
        → is_degraded cfg r t ≡ true
        → Transition cfg r t s up degraded
    heal :
        s.consecutive_fails <ℤ down_threshold_of cfg t
        → is_degraded cfg r t ≡ false
        → Transition cfg r t s degraded up
    recover :
        {p : Status}
        → IsBroken p
        → recovery_threshold_of cfg t ≤ℤ s.consecutive_success
        → Transition cfg r t s p up
    relapse :
        s.consecutive_success <ℤ recovery_threshold_of cfg t → Transition cfg r t s flapping down
    flap :
        {p : Status}
        → CanFlap p
        → cfg.flap_threshold ≤ℤ s.flap_count_10m
        → Transition cfg r t s p flapping

  ruleset statuses = (
    up_live, degraded_live, down_broken, flapping_broken, unknown_flaps, up_flaps, degraded_flaps,
    down_flaps,
  )

  ruleset transitions = (statuses, answer, fail, slow, heal, recover, relapse, flap)

  -- `s'` is `s` but for what the transitions do not read.
  abbrev SameCounters : TargetState F → TargetState F → Type 0
  SameCounters s s' =
      (s'.consecutive_fails ≡ s.consecutive_fails)
      × (s'.consecutive_success ≡ s.consecutive_success)

  derive_from-Transition :
      (cfg : Config F) (r : ProbeResult F) (t : Target F) (s s' : TargetState F) (p : Status)
      → SameCounters s s'
      → derive_from p cfg s r t ≢ p
      → Transition cfg r t s' p (derive_from p cfg s r t)
  unfolding derive_from
  derive_from-Transition cfg r t s s' unknown same h = grind (arith, transitions)
  derive_from-Transition cfg r t s s' up same h = grind (arith, transitions)
  derive_from-Transition cfg r t s s' down same h = grind (arith, transitions)
  derive_from-Transition cfg r t s s' degraded same h = grind (arith, transitions)
  derive_from-Transition cfg r t s s' flapping same h = grind (arith, transitions)
  derive_from-Transition cfg r t s s' _ same h = absurd (h refl)

  derive_from-CanFlap :
      (cfg : Config F) (r : ProbeResult F) (t : Target F) (s : TargetState F) (p : Status)
      → derive_from p cfg s r t ≢ p
      → p ≢ flapping
      → CanFlap p
  unfolding derive_from
  derive_from-CanFlap cfg r t s unknown h k = unknown_flaps
  derive_from-CanFlap cfg r t s up h k = up_flaps
  derive_from-CanFlap cfg r t s down h k = down_flaps
  derive_from-CanFlap cfg r t s degraded h k = degraded_flaps
  derive_from-CanFlap cfg r t s flapping h k = absurd (k refl)
  derive_from-CanFlap cfg r t s _ h k = absurd (h refl)

  -- Flap detection, where it leaves a status other than the one before.
  detect_flap-Transition :
      (cfg : Config F) (ft : FlapTracker) (r : ProbeResult F) (t : Target F) (s : TargetState F)
      (p : Status)
      → let d = detect_flap cfg ft r p s (derive_from p cfg s r t) in
        d.status ≢ p → Transition cfg r t (commit_state r p d.status d.state) p d.status
  unfolding detect_flap commit_state
  detect_flap-Transition cfg ft r t s p =
      let new_status = derive_from p cfg s r t in
      let n =
        (Flap.count r.target_id r.timestamp (Flap.record_change r.target_id r.timestamp ft)).1 in
      elim (status_cases new_status p) [
        | inl same ↦ rw ((status_eq_iff new_status p).1 same) (λ h. absurd (h same))
        | inr moved ↦
            rw (status_eq-false new_status p moved)
              (elim (Bool-cases (int_leb cfg.flap_threshold (pos n))) [
                | inl often ↦ rw often (λ h.
                    flap (derive_from-CanFlap cfg r t s p moved (λ e. h (sym e))) (ground arith))
                | inr rare ↦ rw rare (λ h. derive_from-Transition cfg r t s _ p (refl, refl) moved)
              ])
      ]

  detected-Transition :
      (now : Time) (r : ProbeResult F) (t : Target F) (f : Fsm F)
      → let d = detected now r t f in
        let p = previous now r f in
        d.status ≢ p → Transition f.cfg r t (commit_state r p d.status d.state) p d.status
  unfolding derive observe
  detected-Transition now r t f =
      rw (status-observe r (get_or_create now r.target_id f))
        (detect_flap-Transition f.cfg f.flapper r t (counted now r f) (previous now r f))

  module _ (now : Time) (id : String) (r : ProbeResult F) (t : Target F) (f : Fsm F)
      (e : Event F) where
    -- The entry that `Process` stored, with the transition that the event tells of.
    abbrev pub Justified : Type 0
    Justified =
        (s : TargetState F) × (get_state r.target_id (process now id r t f).0 ≡ some s)
        × Transition f.cfg r t s e.from_status e.to_status

    concludes-Justified :
        is_active t.maintenance r.timestamp ≡ false
        → previous now r f ≢ silent
        → (process now id r t f).2 ≡ some e
        → Justified
    unfolding make_event
    concludes-Justified h live =
        let d = detected now r t f in
        let p = previous now r f in
        rw (process-concludes now id r t f h live) (elim (status_cases d.status p) [
          | inl same ↦ λ reported. cc ((conclude-Quiet id r t p d f same).no_event)
          | inr moved ↦ λ reported.
              let m = conclude-Moved id r t p d f moved in
              (
                commit_state r p d.status d.state,
                m.stored,
                subst
                    (λ x.
                      Transition f.cfg r t (commit_state r p d.status d.state) x.from_status
                        x.to_status)
                    (some_inj (sym m.event ∙ reported)) (detected-Transition now r t f moved),
              )
        ])

    -- Every event that `Process` reports is a guarded transition of the machine, in the counters of the
    -- entry that it stores: DOWN only at the threshold of failures in a row (or as a relapse from
    -- FLAPPING), UP from DOWN or FLAPPING only at the threshold of successes in a row, DEGRADED only on a
    -- slow or lossy success below the threshold of failures, FLAPPING only at the threshold of changes.
    pub process-Transition : (process now id r t f).2 ≡ some e → Justified
    process-Transition = elim (Bool-cases (is_active t.maintenance r.timestamp)) [
      | inl active ↦ rw (process-maintained now id r t f active) (λ reported. cc)
      | inr open_hours ↦ elim (status_cases (previous now r f) silent) [
        | inl mute ↦ rw (process-silent now id r t f open_hours mute) (λ reported. cc)
        | inr live ↦ concludes-Justified open_hours live
      ]
    ]
