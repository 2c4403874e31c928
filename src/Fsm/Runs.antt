-- ===== src/Fsm/Runs.antt =====
-- Runs of the state machine: any sequence of the calls of internal/fsm/fsm.go that change it.
pub mod Counters
pub mod Detection
pub mod Flapping
pub mod Evidence
pub mod Events
pub mod History
pub mod Maintenance
pub mod Recovery
pub mod Unanswered
use gi_con_mon.Common.{String, Bool, List, [], ◌∷◌}
use gi_con_mon.Model.{Time, FloatOps, Target, ProbeResult}
use gi_con_mon.Fsm.Machine.{Fsm}
use gi_con_mon.Fsm.Process.{process, set_silent, remove_target}

-- A call of `Process`, `SetSilent` or `Remove`; the first two read the wall clock.
pub data Call (F : Type 0) : Type 0 where
  probe : Time → String → ProbeResult F → Target F → Call F
  silence : Time → String → Bool → Call F
  drop : String → Call F

module _ {F : Type 0} ⦃fl : FloatOps F⦄ where
  unfoldable pub run : Call F → Fsm F → Fsm F
  run (probe now id r t) f = (process now id r t f).0
  run (silence now id quiet) f = set_silent now id quiet f
  run (drop id) f = remove_target id f

  unfoldable pub run_all : List (Call F) → Fsm F → Fsm F
  run_all [] f = f
  run_all (c ∷ cs) f = run_all cs (run c f)
