-- ===== src/Storage/Sqlite/Events/Kept.antt =====
-- The events of the table: the first saving counts, and an acknowledgement is kept.
use gi_con_mon.Storage.Store.{changed, acked_event, saved_event}
use gi_con_mon.Storage.Sqlite.Rows.{is_one-bool_to_int, EventRow}
use gi_con_mon.Storage.{ok}
use gi_con_mon.Common.{
  ◌≡◌, none, true, some, if◌then◌else◌, str_eq, Bool, Option, false, refl, String,
}
use gi_con_mon.Storage.Sqlite.Statements.{exec, query_row, query_row-if}
use gi_con_mon.Storage.Sql.{Table, IsTable, merged, map_row}
use gi_con_mon.Storage.Sqlite.Events.{
  scan_event, event_row, ack_event, save_event, get_event, ack_row, ignore_event,
}
use gi_con_mon.Model.{FloatOps, Event, Time}
use gi_con_mon.Storage.Json.{Json, IsJson, stored_map}
use gi_con_mon.Storage.Sqlite.Columns.{strings_column, any_map_column}

module _ {F : Type 0} ⦃fl : FloatOps F⦄ (J : Json F) (json : IsJson J) where
  scan_event-event_row :
      (e : Event F) → scan_event J (event_row J e) ≡ record e { meta = stored_map e.meta }
  unfolding scan_event event_row
  scan_event-event_row e =
      rw
        (
          strings_column J json e.tags,
          any_map_column J json e.meta,
          is_one-bool_to_int e.acknowledged,
        )
        refl

  module _ (T : Table (EventRow J.Text)) (table : IsTable (λ r. r.id) T) where
    pub get_event-save_event :
        (e : Event F) (j : String) (s : T.State)
        → get_event J T none j (save_event J T none e s).0 ≡ (
            if str_eq e.id j
            then ok (saved_event (get_event J T none e.id s) e)
            else get_event J T none j s)
    unfolding save_event get_event exec event_row query_row ignore_event
    get_event-save_event e j s =
        rw
          (
            table.find-insert ignore_event (event_row J e) j s,
            query_row-if (scan_event J) (str_eq e.id j)
                (merged ignore_event (T.find e.id s) (event_row J e)) (T.find j s),
          )
          (first_one (T.find e.id s))
      where
        first_one :
            (o : Option (EventRow J.Text))
            → (if str_eq e.id j
                then ok (scan_event J (merged ignore_event o (event_row J e)))
                else get_event J T none j s)
              ≡ (if str_eq e.id j
                  then ok (saved_event (query_row none (scan_event J) o) e)
                  else get_event J T none j s)
        first_one none = rw (scan_event-event_row e) refl
        first_one (some r) = refl

    pub failed_event :
        (text : String) (e : Event F) (s : T.State) → (save_event J T (some text) e s).0 ≡ s
    unfolding save_event exec
    failed_event text e s = refl

    pub get_event-ack_event :
        (now : Time) (k user j : String) (s : T.State)
        → get_event J T none j (ack_event J T none now k user s).0 ≡ (
            if str_eq k j
            then changed (acked_event user now) (get_event J T none j s)
            else get_event J T none j s)
    unfolding ack_event get_event exec query_row ack_row scan_event
    get_event-ack_event now k user j s =
        rw (table.find-update k j (ack_row user now) s) (either (str_eq k j) (T.find j s))
      where
        either :
            (c : Bool) (o : Option (EventRow J.Text))
            → query_row none (scan_event J) (if c then map_row (ack_row user now) o else o) ≡ (
                if c
                then changed (acked_event user now) (query_row none (scan_event J) o)
                else query_row none (scan_event J) o)
        either true none = refl
        either true (some r) = refl
        either false o = refl
