-- ===== src/Alerter/Alerts.antt =====
-- The life of the alerts of internal/alerter/engine.go: acknowledged, resolved and listed.
use gi_con_mon.Common.{
  String, ◌≡◌, refl, Option, some, none, Bool, not, arith, ◌∙◌, ap, [], ◌∷◌, inl, inr, str_eq,
  eq_iff, lookup, Assoc, values, keep, if◌then◌else◌, insert, Option-cases, lookup-insert_self,
  lookup-insert,
}
use gi_con_mon.Model.{Time, Alert, firing, acknowledged, alert_status_eq}
use gi_con_mon.Alerter.Engine.{Engine}
use gi_con_mon.Alerter.Lifecycle.{
  AckError, alert_not_found, resolve_alert, resolve_alerts, is_listed, ack_alert, resolve_by_target,
  list_alerts,
}

-- The alert belongs to another target.
abbrev pub of_other : String → Alert → Bool
of_other target_id a = not (str_eq a.target_id target_id)

listed_after_resolve :
    (now : Time) (target_id : String) (m : Assoc Alert)
    → keep (is_listed firing) (values (resolve_alerts now target_id m))
      ≡ keep (of_other target_id) (keep (is_listed firing) (values m))
unfolding keep values resolve_alerts is_listed alert_status_eq
listed_after_resolve now target_id [] = refl
listed_after_resolve now target_id ((id, a) ∷ m) =
    ground (arith, listed_after_resolve now target_id m)

resolve_alerts_again :
    (now later : Time) (target_id : String) (m : Assoc Alert)
    → resolve_alerts later target_id (resolve_alerts now target_id m)
      ≡ resolve_alerts now target_id m
unfolding resolve_alerts alert_status_eq
resolve_alerts_again now later target_id [] = refl
resolve_alerts_again now later target_id ((id, a) ∷ m) =
    ground (arith, resolve_alerts_again now later target_id m)

abbrev pub map_alert : (Alert → Alert) → Option Alert → Option Alert
map_alert f none = none
map_alert f (some a) = some (f a)

lookup-resolve_alerts :
    (now : Time) (target_id id : String) (m : Assoc Alert)
    → lookup id (resolve_alerts now target_id m)
      ≡ map_alert (resolve_alert now target_id) (lookup id m)
unfolding lookup resolve_alerts
lookup-resolve_alerts now target_id id [] = refl
lookup-resolve_alerts now target_id id ((j, a) ∷ m) =
    ground (arith, lookup-resolve_alerts now target_id id m)

module _ {F : Type 0} (target_id : String) (e : Engine F) where
  -- After `ResolveByTarget` the firing alerts that `ListAlerts` lists are those that fired before,
  -- without the target's.
  pub list_alerts-resolve_by_target :
      (now : Time)
      → list_alerts firing (resolve_by_target now target_id e)
        ≡ keep (of_other target_id) (list_alerts firing e)
  unfolding list_alerts resolve_by_target
  list_alerts-resolve_by_target now = listed_after_resolve now target_id e.alerts

  -- Resolving twice is resolving once: the alerts keep the instant of the first call.
  pub resolve_by_target_again :
      (now later : Time)
      → resolve_by_target later target_id (resolve_by_target now target_id e)
        ≡ resolve_by_target now target_id e
  unfolding resolve_by_target
  resolve_by_target_again now later =
      ap (λ m. record e { alerts = m }) (resolve_alerts_again now later target_id e.alerts)

  abbrev pub acked : Alert → Alert
  acked a = record a { status = acknowledged }

  abbrev pub ack_error : String → Option Alert → Option AckError
  ack_error id none = some (alert_not_found id)
  ack_error id (some a) = none

  -- `AckAlert` fails, with the identifier, exactly where there is no such alert; it changes the status
  -- of that alert alone, whatever the status was, and no other alert.
  pub lookup-ack_alert :
      (id j : String)
      → ((ack_alert id e).1 ≡ ack_error id (lookup id e.alerts))
        × (lookup j (ack_alert id e).0.alerts
            ≡ (if str_eq id j then map_alert acked (lookup j e.alerts) else lookup j e.alerts))
  unfolding ack_alert
  lookup-ack_alert id j = elim (Option-cases (lookup id e.alerts)) [
    | inl missing ↦ rw (missing, ack_alert) (refl, ground (arith, eq_iff id j))
    | inr (a, found) ↦
        rw (found, ack_alert)
          (refl, ground (arith, eq_iff id j, lookup-insert id j (acked a) e.alerts))
  ]

  -- An alert that was acknowledged is not resolved: it stays acknowledged when its target's alerts are
  -- resolved, and an alert that was resolved before counts as acknowledged again.
  pub acknowledged_not_resolved :
      (now : Time) (id : String) (a : Alert)
      → lookup id e.alerts ≡ some a
      → lookup id (resolve_by_target now target_id (ack_alert id e).0).alerts ≡ some (acked a)
  unfolding resolve_by_target ack_alert alert_status_eq resolve_alert
  acknowledged_not_resolved now id a found =
      rw (found, ack_alert)
        (lookup-resolve_alerts now target_id id (insert id (acked a) e.alerts)
          ∙ ap (map_alert (resolve_alert now target_id)) (lookup-insert_self id (acked a) e.alerts)
          ∙ ground arith)
