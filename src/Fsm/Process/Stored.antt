-- ===== src/Fsm/Process/Stored.antt =====
-- The entry that `Process` of internal/fsm/fsm.go stores, up to its status and flap count.
use gi_con_mon.Fsm.Derive.{derive}
use gi_con_mon.Common.{String, ◌≡◌, Bool, some, arith, Bool-cases, inl, inr, false, true}
use gi_con_mon.Model.{
  Time, FloatOps, Status, status_cases, silent, is_active, Target, ProbeResult, TargetState,
  status_eq,
}
use gi_con_mon.Fsm.Machine.{Fsm, get_or_create}
use gi_con_mon.Fsm.Process.{conclude, process, get_state, commit_state, set_silent}
use gi_con_mon.Fsm.Process.Branches.{
  counted, previous, detected, process-maintained, process-silent, process-concludes,
  get_state-put_state, state-detect_flap,
}
use gi_con_mon.Fsm.Process.Outcome.{conclude-Quiet, conclude-Moved}

-- `s'` has the counters and the averages of `s`.
pub record SameCounts {F : Type 0} (s s' : TargetState F) : Type 0 where
  pub target_is : s'.target_id ≡ s.target_id
  pub fails_is : s'.consecutive_fails ≡ s.consecutive_fails
  pub success_is : s'.consecutive_success ≡ s.consecutive_success
  pub latency_is : s'.avg_latency_ms ≡ s.avg_latency_ms
  pub cert_is : s'.cert_expiry_days ≡ s.cert_expiry_days
  pub probed_is : s'.last_probe_at ≡ s.last_probe_at
  pub succeeded_is : s'.last_success_at ≡ s.last_success_at

module _ {F : Type 0} ⦃fl : FloatOps F⦄ where
  SameCounts-detected :
      (now : Time) (r : ProbeResult F) (t : Target F) (f : Fsm F)
      → SameCounts (counted now r f) (detected now r t f).state
  SameCounts-detected now r t f =
      let (n, e) =
        state-detect_flap f.cfg f.flapper r (previous now r f) (counted now r f)
          (derive f.cfg (counted now r f) r t) in
      rw e (ground arith)

  SameCounts-commit_state :
      (r : ProbeResult F) (p n : Status) (c s : TargetState F)
      → SameCounts c s
      → SameCounts c (commit_state r p n s)
  unfolding commit_state
  SameCounts-commit_state r p n c s h = ground arith

  module _ (now : Time) (id : String) (r : ProbeResult F) (t : Target F) (f : Fsm F) where
    abbrev pub StoresCounted : Fsm F → Type 0
    StoresCounted f' =
        (s : TargetState F) × (get_state r.target_id f' ≡ some s) × SameCounts (counted now r f) s

    -- On every branch, `Process` stores the entry with the result counted in.
    pub process-StoresCounted : StoresCounted (process now id r t f).0
    process-StoresCounted = elim (Bool-cases (is_active t.maintenance r.timestamp)) [
      | inl active ↦
          rw (process-maintained now id r t f active)
            (_, get_state-put_state r.target_id _ f, ground arith)
      | inr open_hours ↦ elim (status_cases (previous now r f) silent) [
        | inl mute ↦
            rw (process-silent now id r t f open_hours mute)
              (_, get_state-put_state r.target_id _ f, ground arith)
        | inr live ↦ rw (process-concludes now id r t f open_hours live) concluded
      ]
    ]
      where
        concluded : StoresCounted (conclude id r t (previous now r f) (detected now r t f) f).0
        concluded = elim (status_cases (detected now r t f).status (previous now r f)) [
          | inl same ↦ (
            _,
            (conclude-Quiet id r t (previous now r f) (detected now r t f) f same).stored,
            SameCounts-detected now r t f,
          )
          | inr moved ↦ (
            _,
            (conclude-Moved id r t (previous now r f) (detected now r t f) f moved).stored,
            SameCounts-commit_state r _ _ _ _ (SameCounts-detected now r t f),
          )
        ]

  -- `SetSilent` stores the entry with the status that it asks for, its counters and averages kept.
  pub set_silent-stored :
      (now : Time) (id : String) (silence : Bool) (f : Fsm F)
      → (s : TargetState F) × (get_state id (set_silent now id silence f) ≡ some s)
        × SameCounts (get_or_create now id f) s
  unfolding set_silent
  set_silent-stored now id true f = (_, get_state-put_state id _ f, ground arith)
  set_silent-stored now id false f =
      elim (Bool-cases (status_eq (get_or_create now id f).status silent)) [
        | inl mute ↦ rw mute (_, get_state-put_state id _ f, ground arith)
        | inr loud ↦ rw loud (_, get_state-put_state id _ f, ground arith)
      ]
