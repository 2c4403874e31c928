-- ===== src/Storage/Sqlite/Alerts.antt =====
-- internal/storage/sqlite/sqlite.go: `SaveAlert`, `GetAlert`, `ListAlerts`, `UpdateAlert` and `scanAlert`.
pub mod RoundTrip
use gi_con_mon.Common.{Bool, Option, String, pos}
use gi_con_mon.Storage.{Fault, AlertQuery, Result, StoreError, Page}
use gi_con_mon.Storage.Sqlite.Statements.{replace_row, query_row, list_page, exec, limit_or}
use gi_con_mon.Model.{Alert, Time}
use gi_con_mon.Storage.Sql.{Table}
use gi_con_mon.Storage.Json.{Json, to_json, from_json}
use gi_con_mon.Storage.Sqlite.Rows.{AlertRow}
use gi_con_mon.Storage.Sqlite.Where.{alert_conds, alert_meets, all_meet}

-- The assignments of `UpdateAlert`.
unfoldable pub progress_row : {Text : Type 0} → Alert → AlertRow Text → AlertRow Text
progress_row a r = record r {
  status = a.status;
  resolved_at = a.resolved_at;
  escalation_level = a.escalation_level;
  next_escalate_at = a.next_escalate_at;
}

module _ {F : Type 0} (J : Json F) where
  -- The arguments of the INSERT.
  unfoldable pub alert_row : Alert → AlertRow J.Text
  alert_row a = record {
    id = a.id;
    event_id = a.event_id;
    target_id = a.target_id;
    rule_name = a.rule_name;
    severity = a.severity;
    status = a.status;
    title = a.title;
    body = a.body;
    channels = to_json J.strings a.channels;
    sent_at = a.sent_at;
    resolved_at = a.resolved_at;
    escalation_level = a.escalation_level;
    next_escalate_at = a.next_escalate_at;
    group_id = a.group_id;
  }

  -- `scanAlert`
  unfoldable pub scan_alert : AlertRow J.Text → Alert
  unfolding from_json
  scan_alert r = record {
    id = r.id;
    event_id = r.event_id;
    target_id = r.target_id;
    rule_name = r.rule_name;
    severity = r.severity;
    status = r.status;
    title = r.title;
    body = r.body;
    channels = from_json J.show J.strings r.channels J.strings.unset;
    sent_at = r.sent_at;
    resolved_at = r.resolved_at;
    escalation_level = r.escalation_level;
    next_escalate_at = r.next_escalate_at;
    group_id = r.group_id;
  }

  module _ (T : Table (AlertRow J.Text)) where
    -- `SaveAlert`
    unfoldable pub save_alert : Fault → Alert → T.State → T.State × Option StoreError
    unfolding exec alert_row
    save_alert fault a s = exec fault (T.insert replace_row (alert_row a)) s

    -- `GetAlert`
    unfoldable pub get_alert : Fault → String → T.State → Result Alert
    unfolding query_row
    get_alert fault id s = query_row fault scan_alert (T.find id s)

    -- `ListAlerts`; `upto` is the engine's order of the texts in which the driver writes two instants.
    unfoldable pub list_alerts :
        (Time → Time → Bool) → Fault → Fault → AlertQuery → T.State → Result (Page Alert)
    unfolding list_page
    list_alerts upto count_fault data_fault q s =
        list_page T count_fault data_fault scan_alert
          (λ r. all_meet (alert_meets r) (alert_conds q)) (λ a b. upto b.sent_at a.sent_at)
          (limit_or (pos 50) q.limit) q.offset s

    -- `UpdateAlert`
    unfoldable pub update_alert : Fault → Alert → T.State → T.State × Option StoreError
    unfolding exec progress_row
    update_alert fault a s = exec fault (T.update a.id (progress_row a)) s
