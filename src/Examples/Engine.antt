-- ===== src/Examples/Engine.antt =====
-- The theorems about internal/alerter/engine.go at a concrete engine.
use gi_con_mon.Alerter.Rules.{match_rule, went_down}
use gi_con_mon.Alerter.Build.{build_alert, alert_severity}
use gi_con_mon.Common.{
  String, ◌≡◌, refl, arith, some, Option, [], ◌∷◌, List, map, ◌≤◌, ◌+◌, lookup, str_eq,
  if◌then◌else◌, ℕ, eq_iff, saturate, insert,
}
use gi_con_mon.Model.{Target, Alert, alert_status_eq, sub, status_eq}
use gi_con_mon.Alerter.Engine.{
  Engine, new_engine, Reading, Dispatched, throttled, index_channels, index_notifiers,
}
use gi_con_mon.Alerter.Process.{process, process_rule, dispatch}
use gi_con_mon.Alerter.Lifecycle.{resolve_by_target, ack_alert, resolve_alerts, resolve_alert}
use gi_con_mon.Alerter.Calls.{Call, acknowledge, resolve, perform_all, perform}
use gi_con_mon.Alerter.Throttle.{throttle_spacing}
use gi_con_mon.Alerter.Alerts.{
  acked, ack_error, map_alert, lookup-ack_alert, acknowledged_not_resolved,
}
use gi_con_mon.Alerter.Dispatching.{notice, expected_notices, alerts-process}
use gi_con_mon.Examples.Samples.{
  milli, web, formats, reading, down_rule, other_rule, ops, webhook, outage,
}

abbrev pub engine : Engine ℕ
engine = new_engine (down_rule ∷ other_rule ∷ []) (ops ∷ []) (webhook ∷ [])

abbrev get_web : String → Option (Target ℕ)
get_web id = some web

abbrev readings : ℕ → Reading
readings i = reading 100 "1"

-- The engine after the first outage.
abbrev alerted : Engine ℕ
alerted = (process_rule formats (reading 100 "1") down_rule outage web engine).0

-- Acknowledged, and silent until the throttle has run: the second outage is 60 s later.
abbrev between : List (Call ℕ)
between = acknowledge "alert-1" ∷ resolve 200 "web" ∷ []

abbrev later : Reading
later = reading 60_000_000_100 "2"

abbrev first_alert : Alert
first_alert = build_alert formats (reading 100 "1") down_rule outage web

abbrev second_alert : Alert
second_alert = build_alert formats later down_rule outage web

abbrev first_dispatch : Dispatched ℕ
first_dispatch = record {
  alert = first_alert;
  deliveries = dispatch alerted first_alert down_rule outage web;
}

abbrev second_dispatch : Dispatched ℕ
second_dispatch = record {
  alert = second_alert;
  deliveries =
      dispatch
        (process_rule formats later down_rule outage web
          (perform_all formats get_web between alerted)).0
        second_alert down_rule outage web;
}

dispatched_first :
    (process_rule formats (reading 100 "1") down_rule outage web engine).1 ≡ some first_dispatch
unfolding process_rule perform_all perform ack_alert resolve_by_target resolve_alerts resolve_alert
    alert_status_eq throttled sub saturate match_rule went_down status_eq lookup insert new_engine
    index_channels index_notifiers
dispatched_first = refl

dispatched_again :
    (process_rule formats later down_rule outage web
      (perform_all formats get_web between alerted)).1
    ≡ some second_dispatch
unfolding process_rule perform_all perform ack_alert resolve_by_target resolve_alerts resolve_alert
    alert_status_eq throttled sub saturate match_rule went_down status_eq lookup insert new_engine
    index_channels index_notifiers build_alert
dispatched_again = refl

throttle_spacing_example : 100 + 60_000_000_000 ≤ 60_000_000_100
throttle_spacing_example =
    throttle_spacing formats get_web 60_000_000_000 down_rule (reading 100 "1") later outage outage
      web web engine between first_dispatch second_dispatch refl (omega arith) refl (tt, (tt, tt))
      dispatched_first dispatched_again

alerts-process_example :
    map notice (process formats get_web readings outage engine).1
    ≡ expected_notices formats readings 0 engine.rules outage web engine
unfolding new_engine
alerts-process_example =
    alerts-process formats get_web readings outage web engine refl
      (ground (arith, eq_iff "outage" "again"))

lookup-ack_alert_example :
    ((ack_alert "alert-1" alerted).1
      ≡ ack_error "web" alerted "alert-1" (lookup "alert-1" alerted.alerts))
    × (lookup "alert-1" (ack_alert "alert-1" alerted).0.alerts ≡ (
        if str_eq "alert-1" "alert-1"
        then map_alert (acked "web" alerted) (lookup "alert-1" alerted.alerts)
        else lookup "alert-1" alerted.alerts))
lookup-ack_alert_example = lookup-ack_alert "web" alerted "alert-1" "alert-1"

stored_first : lookup "alert-1" alerted.alerts ≡ some first_alert
unfolding process_rule perform_all perform ack_alert resolve_by_target resolve_alerts resolve_alert
    alert_status_eq throttled sub saturate match_rule went_down status_eq lookup insert new_engine
    index_channels index_notifiers build_alert alert_severity
stored_first = refl

acknowledged_not_resolved_example :
    lookup "alert-1" (resolve_by_target 200 "web" (ack_alert "alert-1" alerted).0).alerts
    ≡ some (acked "web" alerted first_alert)
acknowledged_not_resolved_example =
    acknowledged_not_resolved "web" alerted 200 "alert-1" first_alert stored_first
