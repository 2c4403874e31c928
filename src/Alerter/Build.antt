-- ===== src/Alerter/Build.antt =====
-- internal/alerter/engine.go: `buildAlert` and the two templates, which have no failing path.
use gi_con_mon.Common.{String, none, some, if◌then◌else◌, pos, int_ltb, str_eq, str_append}
use gi_con_mon.Model.{
  add, down, status_name, status_eq, Severity, severity_error, severity_warn, firing, Target, Event,
  Alert,
}
use gi_con_mon.Alerter.Rules.{RuleConfig}
use gi_con_mon.Alerter.Engine.{Formats, Reading}

module _ {F : Type 0} where
  -- `[{{.Severity}}] {{.Target}} {{.Status}}`
  unfoldable pub render_title : Severity → Target F → Event F → String
  render_title severity target event = str_append "[" (
      str_append severity
        (str_append "] " (str_append target.name (str_append " " (status_name event.to_status)))))

  -- `defaultBodyTemplate`
  unfoldable pub render_body : Formats → Severity → Target F → Event F → String
  render_body formats severity target event = str_append "【" (
      str_append severity (
        str_append "】网络事件通知\n━━━━━━━━━━━━━━━━━━━━━━━\n目标：" (
          str_append target.name (
            str_append " (" (
              str_append target.host (
                str_append ":" (
                  str_append (formats.decimal target.port) (
                    str_append ")\n事件：" (
                      str_append (status_name event.from_status) (
                        str_append " → " (
                          str_append (status_name event.to_status) (
                            str_append "\n时间：" (
                              str_append (formats.date_time event.timestamp) (
                                str_append "\n根因：" (
                                  str_append event.reason "\n━━━━━━━━━━━━━━━━━━━━━━━")))))))))))))))

  -- The severity of an alert: the rule's, or by the event where the rule has none.
  unfoldable pub alert_severity : RuleConfig → Event F → Severity
  alert_severity rule event =
      if str_eq rule.severity ""
      then if status_eq event.to_status down then severity_error else severity_warn
      else rule.severity

  -- `buildAlert`
  unfoldable pub build_alert : Formats → Reading → RuleConfig → Event F → Target F → Alert
  unfolding alert_severity
  build_alert formats reading rule event target =
      let severity = alert_severity rule event in
      record {
        id = str_append "alert-" reading.uuid;
        event_id = event.id;
        target_id = event.target_id;
        rule_name = rule.name;
        severity = severity;
        status = firing;
        title = render_title severity target event;
        body = render_body formats severity target event;
        channels = rule.channels;
        sent_at = reading.sent;
        resolved_at = none;
        escalation_level = pos 1;
        next_escalate_at =
            if int_ltb (pos 0) rule.escalate_after
            then some (add reading.sent rule.escalate_after)
            else none;
        group_id = "";
      }
