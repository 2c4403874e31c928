-- ===== src/Fsm/Runs/Evidence.antt =====
-- What stands behind an event of internal/fsm/fsm.go: the results in a row that led to it.
use gi_con_mon.Fsm.Process.Frame.{cfg-process, cfg-set_silent}
use gi_con_mon.Common.{
  String, ◌≡◌, refl, some, arith, ◌∙◌, ap, pos, ◌<◌, List, [], ◌∷◌, length, max_int64, ◌≤ℤ◌, ◌++◌,
  subst, sym, length-append,
}
use gi_con_mon.Model.{Time, FloatOps, Target, ProbeResult, TargetState, Status, up, down, Event}
use gi_con_mon.Fsm.Machine.{Config, Fsm}
use gi_con_mon.Fsm.Derive.{down_threshold_of, recovery_threshold_of}
use gi_con_mon.Fsm.Process.{process, new_fsm, remove_target, set_silent}
use gi_con_mon.Fsm.Process.Guards.{
  Transition, answer, fail, slow, heal, recover, relapse, flap, IsLive, IsBroken, Justified,
  process-Transition,
}
use gi_con_mon.Fsm.Runs.{Call, probe, run, run_all, silence, drop}
use gi_con_mon.Fsm.Runs.Counters.{
  Counts, follow_all, no_streak, counters_count_streaks, Streaks, fails_in, successes_in,
}

module _ {F : Type 0} ⦃fl : FloatOps F⦄ (cfg : Config F) where
  down_from_live :
      (r : ProbeResult F) (t : Target F) (s : TargetState F) {p q : Status}
      → Transition cfg r t s p q
      → IsLive p
      → q ≡ down
      → down_threshold_of cfg t ≤ℤ s.consecutive_fails
  down_from_live r t s (answer h) live e = cc
  down_from_live r t s (fail l h) live e = h
  down_from_live r t s (slow h k) live e = cc
  down_from_live r t s (heal h k) live e = cc
  down_from_live r t s (recover b h) live e = cc
  down_from_live r t s (relapse h) live e = elim live [ ]
  down_from_live r t s (flap c h) live e = cc

  up_from_broken :
      (r : ProbeResult F) (t : Target F) (s : TargetState F) {p q : Status}
      → Transition cfg r t s p q
      → IsBroken p
      → q ≡ up
      → recovery_threshold_of cfg t ≤ℤ s.consecutive_success
  up_from_broken r t s (answer h) b e = elim b [ ]
  up_from_broken r t s (fail l h) b e = cc
  up_from_broken r t s (slow h k) b e = cc
  up_from_broken r t s (heal h k) b e = elim b [ ]
  up_from_broken r t s (recover b' h) b e = h
  up_from_broken r t s (relapse h) b e = cc
  up_from_broken r t s (flap c h) b e = cc

  pub cfg-run_all : (cs : List (Call F)) (f : Fsm F) → f.cfg ≡ cfg → (run_all cs f).cfg ≡ cfg
  unfolding run_all run remove_target
  cfg-run_all [] f e = e
  cfg-run_all (probe now uuid r t ∷ cs) f e =
      cfg-run_all cs (process now uuid r t f).0 (cfg-process {F = F} f now uuid r t ∙ e)
  cfg-run_all (silence now j quiet ∷ cs) f e =
      cfg-run_all cs (set_silent now j quiet f) (cfg-set_silent f now j quiet ∙ e)
  cfg-run_all (drop j ∷ cs) f e = cfg-run_all cs (remove_target j f) e

  run_all-snoc :
      (cs : List (Call F)) (c : Call F) (f : Fsm F)
      → run_all (cs ++ c ∷ []) f ≡ run c (run_all cs f)
  unfolding run_all
  run_all-snoc [] c f = refl
  run_all-snoc (d ∷ cs) c f = run_all-snoc cs c (run d f)

  module _ (cs : List (Call F)) (now : Time) (uuid : String) (r : ProbeResult F)
      (t : Target F) where
    -- The results of the target up to `r`.
    abbrev pub streaks : Streaks
    streaks = follow_all r.target_id (cs ++ probe now uuid r t ∷ []) no_streak

    abbrev pub machine : Fsm F
    machine = run_all cs (new_fsm cfg)

    pub counted_streaks :
        length cs < max_int64 → Counts r.target_id (process now uuid r t machine).0 streaks
    unfolding run
    counted_streaks short =
        subst (λ g. Counts r.target_id g streaks)
          (run_all-snoc cs (probe now uuid r t) (new_fsm cfg))
          (counters_count_streaks r.target_id cfg (cs ++ probe now uuid r t ∷ [])
            (omega (arith, length-append cs (probe now uuid r t ∷ []))))

    pub cfg-machine : machine.cfg ≡ cfg
    cfg-machine = cfg-run_all cs (new_fsm cfg) (unfold new_fsm in refl)

  module _ (cs : List (Call F)) (now : Time) (uuid : String) (r : ProbeResult F) (t : Target F)
      (e : Event F) (short : length cs < max_int64)
      (reported : (process now uuid r t (machine cs now uuid r t)).2 ≡ some e) where
    justified : Justified now uuid r t (machine cs now uuid r t) e
    justified = process-Transition now uuid r t (machine cs now uuid r t) e reported

    transition : Transition cfg r t justified.0 e.from_status e.to_status
    transition =
        subst (λ c. Transition c r t justified.0 e.from_status e.to_status)
          (cfg-machine cs now uuid r t) justified.2

    -- When an event takes a target from UP or DEGRADED to DOWN, then, whatever calls came before on a
    -- new machine, at least the threshold of its results in a row had failed. The calls are fewer than
    -- the largest `int`.
    pub down_needs_failures :
        IsLive e.from_status
        → e.to_status ≡ down
        → down_threshold_of cfg t ≤ℤ pos (streaks cs now uuid r t).fails
    down_needs_failures live to =
        subst (λ n. down_threshold_of cfg t ≤ℤ n)
          (sym (ap fails_in justified.1) ∙ (counted_streaks cs now uuid r t short).fails_count)
          (down_from_live r t justified.0 transition live to)

    -- When an event takes a target from DOWN or FLAPPING to UP, at least the recovery threshold of its
    -- results in a row had succeeded, whatever calls came before on a new machine. The calls are fewer
    -- than the largest `int`.
    pub up_needs_successes :
        IsBroken e.from_status
        → e.to_status ≡ up
        → recovery_threshold_of cfg t ≤ℤ pos (streaks cs now uuid r t).successes
    up_needs_successes broken to =
        subst (λ n. recovery_threshold_of cfg t ≤ℤ n)
          (sym (ap successes_in justified.1)
            ∙ (counted_streaks cs now uuid r t short).successes_count)
          (up_from_broken r t justified.0 transition broken to)
