-- ===== src/Alerter/Lifecycle.antt =====
-- internal/alerter/engine.go: `AckAlert`, `ResolveByTarget` and `ListAlerts`.
use gi_con_mon.Common.{
  String, Bool, ◌&&◌, Option, none, some, List, [], ◌∷◌, if◌then◌else◌, Assoc, lookup, insert,
  values, str_eq, keep, ◌||◌,
}
use gi_con_mon.Model.{
  Time, AlertStatus, firing, resolved, acknowledged, any_status, alert_status_eq, Alert,
}
use gi_con_mon.Alerter.Engine.{Engine}

-- `fmt.Errorf("alert %s not found", alertID)`
pub data AckError : Type 0 where
  alert_not_found : String → AckError

-- The body of the loop of `ResolveByTarget`.
unfoldable pub resolve_alert : Time → String → Alert → Alert
resolve_alert now target_id a =
    if str_eq a.target_id target_id && alert_status_eq a.status firing
    then record a { status = resolved; resolved_at = some now }
    else a

unfoldable pub resolve_alerts : Time → String → Assoc Alert → Assoc Alert
unfolding resolve_alert
resolve_alerts now target_id [] = []
resolve_alerts now target_id ((id, a) ∷ m) =
    (id, resolve_alert now target_id a) ∷ resolve_alerts now target_id m

-- The test of `ListAlerts`.
unfoldable pub is_listed : AlertStatus → Alert → Bool
is_listed status a = alert_status_eq status any_status || alert_status_eq a.status status

module _ {F : Type 0} where
  -- `AckAlert`; the user is only logged.
  unfoldable pub ack_alert : String → Engine F → Engine F × Option AckError
  ack_alert alert_id e = elim (lookup alert_id e.alerts) [
    | none ↦ (e, some (alert_not_found alert_id))
    | some a ↦
        (record e { alerts = insert alert_id (record a { status = acknowledged }) e.alerts }, none)
  ]

  -- `ResolveByTarget`
  unfoldable pub resolve_by_target : Time → String → Engine F → Engine F
  unfolding resolve_alerts
  resolve_by_target now target_id e = record e { alerts = resolve_alerts now target_id e.alerts }

  -- `ListAlerts`
  unfoldable pub list_alerts : AlertStatus → Engine F → List Alert
  unfolding is_listed
  list_alerts status e = keep (is_listed status) (values e.alerts)
