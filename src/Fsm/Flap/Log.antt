-- ===== src/Fsm/Flap/Log.antt =====
-- Calls of the flap tracker of internal/fsm/flap.go, and the log of the changes that they report.
use gi_con_mon.Common.{
  String, ◌≡◌, List, [], ◌∷◌, ◌++◌, ℕ, ◌≤◌, ◌-◌, All, if◌then◌else◌, str_eq, pos,
}
use gi_con_mon.Model.{Time}
use gi_con_mon.Fsm.Flap.{FlapTracker, skip_before, history_of, record_change, count, remove}
use gi_con_mon.Fsm.Flap.Window.{Ascending}

-- A call of the tracker: `Record`, `Count` or `Remove`.
pub data Call : Type 0 where
  change : String → Time → Call
  ask : String → Time → Call
  forget : String → Call

unfoldable pub perform : Call → FlapTracker → FlapTracker
perform (change id t) ft = record_change id t ft
perform (ask id t) ft = (count id t ft).0
perform (forget id) ft = remove id ft

unfoldable pub perform_all : List Call → FlapTracker → FlapTracker
perform_all [] ft = ft
perform_all (c ∷ cs) ft = perform_all cs (perform c ft)

-- The reference: every change of a target since it was last removed, never trimmed.
unfoldable pub log_call : String → Call → List Time → List Time
log_call id (change j t) log = if str_eq j id then log ++ t ∷ [] else log
log_call id (ask j t) log = log
log_call id (forget j) log = if str_eq j id then [] else log

unfoldable pub log_all : String → List Call → List Time → List Time
log_all id [] log = log
log_all id (c ∷ cs) log = log_all id cs (log_call id c log)

-- The instant at which a call is made, where it has one.
abbrev pub call_time : Time → Call → Time
call_time now (change id t) = t
call_time now (ask id t) = t
call_time now (forget id) = now

-- The calls come in the order of their instants, from `now` on and up to `end`.
abbrev pub InOrder : Time → List Call → Time → Type 0
InOrder now [] end = now ≤ end
InOrder now (c ∷ cs) end = (now ≤ call_time now c) × InOrder (call_time now c) cs end

-- Behind any cutoff from now on, the history and the log agree.
pub record Tracks (id : String) (w : ℕ) (now : Time) (ft : FlapTracker) (log : List Time)
    : Type 0 where
  pub window_is : ft.window ≡ pos w
  pub agree : (c : Time) → now - w ≤ c → skip_before c (history_of ft id) ≡ skip_before c log
  pub sorted : Ascending 0 log
  pub past : All (λ t. t ≤ now) log
