-- ===== src/Storage/Sqlite/Cleanup/Expiry.antt =====
-- What `Cleanup` leaves of an event and of an alert.
use gi_con_mon.Storage.Sqlite.Events.{get_event, scan_event}
use gi_con_mon.Storage.Sqlite.Alerts.{get_alert, scan_alert}
use gi_con_mon.Storage.Sqlite.Cleanup.{cleanup}
use gi_con_mon.Storage.Sqlite.Rows.{EventRow, AlertRow}
use gi_con_mon.Model.{Time, Duration, add_neg}
use gi_con_mon.Storage.Sql.{Table, unless, IsTable}
use gi_con_mon.Storage.Sqlite.Statements.{query_row, query_row-missing, exec}
use gi_con_mon.Storage.Json.{Json}
use gi_con_mon.Common.{Bool, not, ◌≡◌, refl, Option, none, some, String}
use gi_con_mon.Storage.Store.{unless_old}

-- A row that is read behind a DELETE, where the value of a row has its time.
query_row-unless :
    {Row A : Type 0} (scan : Row → A) (row_time : Row → Time) (time : A → Time) (cut : Time)
    (upto : Time → Time → Bool)
    → ((r : Row) → row_time r ≡ time (scan r))
    → (o : Option Row)
    → query_row none scan (unless (λ r. not (upto cut (row_time r))) o)
      ≡ unless_old (λ a b. not (upto b a)) time cut (query_row none scan o)
unfolding query_row
query_row-unless scan row_time time cut upto same none = refl
query_row-unless scan row_time time cut upto same (some r) =
    rw (same r) (query_row-missing scan (not (upto cut (time (scan r)))) (some r))

module _ {F : Type 0} (J : Json F) (E : Table (EventRow J.Text)) (A : Table (AlertRow J.Text))
    (upto : Time → Time → Bool) where
  pub get_event-cleanup :
      IsTable (λ r. r.id) E
      → (now_events now_alerts : Time) (retention_events retention_alerts : Duration) (j : String)
        (events : E.State) (alerts : A.State)
      → get_event J E none j
          (cleanup E A upto none none now_events now_alerts retention_events retention_alerts events
            alerts).0
        ≡ unless_old
            (λ a b. not (upto b a))
            (λ e. e.timestamp)
            (add_neg now_events retention_events)
            (get_event J E none j events)
  unfolding cleanup exec get_event scan_event
  get_event-cleanup table now_events now_alerts retention_events retention_alerts j events alerts =
      rw
        (table.find-delete (λ r. not (upto (add_neg now_events retention_events) r.timestamp)) j
          events)
        (query_row-unless (scan_event J) (λ r. r.timestamp) (λ e. e.timestamp)
          (add_neg now_events retention_events) upto (λ r. refl) (E.find j events))

  pub get_alert-cleanup :
      IsTable (λ r. r.id) A
      → (now_events now_alerts : Time) (retention_events retention_alerts : Duration) (j : String)
        (events : E.State) (alerts : A.State)
      → get_alert J A none j
          (cleanup E A upto none none now_events now_alerts retention_events retention_alerts events
            alerts).1
        ≡ unless_old
            (λ a b. not (upto b a))
            (λ a. a.sent_at)
            (add_neg now_alerts retention_alerts)
            (get_alert J A none j alerts)
  unfolding cleanup exec get_alert scan_alert
  get_alert-cleanup table now_events now_alerts retention_events retention_alerts j events alerts =
      rw
        (table.find-delete (λ r. not (upto (add_neg now_alerts retention_alerts) r.sent_at)) j
          alerts)
        (query_row-unless (scan_alert J) (λ r. r.sent_at) (λ a. a.sent_at)
          (add_neg now_alerts retention_alerts) upto (λ r. refl) (A.find j alerts))
