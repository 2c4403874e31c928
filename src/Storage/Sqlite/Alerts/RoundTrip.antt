-- ===== src/Storage/Sqlite/Alerts/RoundTrip.antt =====
-- What a saved and updated alert comes back as.
use gi_con_mon.Storage.Sqlite.Rows.{AlertRow}
use gi_con_mon.Storage.Store.{changed, progressed}
use gi_con_mon.Storage.Sqlite.Statements.{
  exec, query_row, query_row-if, merged-replace_row, replace_row,
}
use gi_con_mon.Storage.Sql.{Table, IsTable, merged, map_row}
use gi_con_mon.Storage.{ok}
use gi_con_mon.Storage.Sqlite.Alerts.{
  scan_alert, alert_row, update_alert, save_alert, get_alert, progress_row,
}
use gi_con_mon.Model.{FloatOps, Alert}
use gi_con_mon.Common.{
  true, false, ◌≡◌, refl, Option, some, none, String, if◌then◌else◌, str_eq, Bool,
}
use gi_con_mon.Storage.Json.{Json, IsJson}
use gi_con_mon.Storage.Sqlite.Columns.{strings_column}

module _ {F : Type 0} ⦃fl : FloatOps F⦄ (J : Json F) (json : IsJson J) where
  scan_alert-alert_row : (a : Alert) → scan_alert J (alert_row J a) ≡ a
  unfolding scan_alert alert_row
  scan_alert-alert_row a = rw (strings_column J json a.channels) refl

  module _ (T : Table (AlertRow J.Text)) (table : IsTable (λ r. r.id) T) where
    pub get_alert-save_alert :
        (a : Alert) (j : String) (s : T.State)
        → get_alert J T none j (save_alert J T none a s).0
          ≡ (if str_eq a.id j then ok a else get_alert J T none j s)
    unfolding save_alert get_alert exec alert_row
    get_alert-save_alert a j s =
        rw
          (
            table.find-insert replace_row (alert_row J a) j s,
            query_row-if (scan_alert J) (str_eq a.id j)
                (merged replace_row (T.find a.id s) (alert_row J a)) (T.find j s),
            merged-replace_row (T.find a.id s) (alert_row J a),
            scan_alert-alert_row a,
          )
          refl

    pub get_alert-update_alert :
        (a : Alert) (j : String) (s : T.State)
        → get_alert J T none j (update_alert J T none a s).0 ≡ (
            if str_eq a.id j
            then changed (progressed a) (get_alert J T none j s)
            else get_alert J T none j s)
    unfolding update_alert get_alert exec query_row progress_row scan_alert
    get_alert-update_alert a j s =
        rw (table.find-update a.id j (progress_row a) s) (either (str_eq a.id j) (T.find j s))
      where
        either :
            (c : Bool) (o : Option (AlertRow J.Text))
            → query_row none (scan_alert J) (if c then map_row (progress_row a) o else o) ≡ (
                if c
                then changed (progressed a) (query_row none (scan_alert J) o)
                else query_row none (scan_alert J) o)
        either true none = refl
        either true (some r) = refl
        either false o = refl
