-- ===== src/Alerter/Calls.antt =====
-- Runs of the alert engine of internal/alerter/engine.go: any sequence of the calls that change it.
use gi_con_mon.Common.{String, Option, List, [], ◌∷◌, ℕ}
use gi_con_mon.Model.{Time, Target, Event}
use gi_con_mon.Alerter.Engine.{Engine, Reading, Formats}
use gi_con_mon.Alerter.Process.{process}
use gi_con_mon.Alerter.Lifecycle.{ack_alert, resolve_by_target}

-- A call of `Process`, `AckAlert` or `ResolveByTarget`.
pub data Call (F : Type 0) : Type 0 where
  notify : (ℕ → Reading) → Event F → Call F
  acknowledge : String → Call F
  resolve : Time → String → Call F

module _ {F : Type 0} (formats : Formats) (get_target : String → Option (Target F)) where
  unfoldable pub perform : Call F → Engine F → Engine F
  perform (notify readings event) e = (process formats get_target readings event e).0
  perform (acknowledge id) e = (ack_alert id e).0
  perform (resolve now target_id) e = resolve_by_target now target_id e

  unfoldable pub perform_all : List (Call F) → Engine F → Engine F
  perform_all [] e = e
  perform_all (c ∷ cs) e = perform_all cs (perform c e)
