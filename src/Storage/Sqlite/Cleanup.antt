-- ===== src/Storage/Sqlite/Cleanup.antt =====
-- internal/storage/sqlite/sqlite.go: `Cleanup`, on the tables of the events and of the alerts.
pub mod Expiry
use gi_con_mon.Model.{Time, Duration, add_neg}
use gi_con_mon.Storage.{Fault, StoreError, engine_error}
use gi_con_mon.Storage.Sqlite.Statements.{exec}
use gi_con_mon.Storage.Sql.{Table}
use gi_con_mon.Common.{Bool, not, String, Option, some, none}
use gi_con_mon.Storage.Sqlite.Rows.{EventRow, AlertRow}

module _ {Text : Type 0} (E : Table (EventRow Text)) (A : Table (AlertRow Text)) where
  -- `Cleanup`, with the two readings of the clock and what the engine says of each statement. The column
  -- and the cutoff are texts that the driver writes; `upto` is the engine's order of those of two instants.
  unfoldable pub cleanup :
      (Time → Time → Bool)
      → Fault
      → Fault
      → Time
      → Time
      → Duration
      → Duration
      → E.State
      → A.State
      → E.State × A.State × Option StoreError
  unfolding exec
  cleanup upto (some text) alert_fault now_events now_alerts retention_events retention_alerts
        events alerts =
      (events, alerts, some (engine_error text))
  cleanup upto none alert_fault now_events now_alerts retention_events retention_alerts events
        alerts =
      let (alerts', e) =
        exec alert_fault
          (A.delete (λ r. not (upto (add_neg now_alerts retention_alerts) r.sent_at))) alerts in
      (
        E.delete (λ r. not (upto (add_neg now_events retention_events) r.timestamp)) events,
        alerts',
        e,
      )
