-- ===== src/Storage/Sqlite/Events.antt =====
-- internal/storage/sqlite/sqlite.go: `SaveEvent`, `GetEvent`, `ListEvents`, `AckEvent` and `scanEvent`.
pub mod Kept
pub mod Pages
use gi_con_mon.Common.{Option, String, Bool, pos, some}
use gi_con_mon.Model.{Time, Event}
use gi_con_mon.Storage.Queries.{Fault, EventQuery, Result, Page, StoreError}
use gi_con_mon.Storage.Sqlite.Statements.{list_page, exec, query_row, limit_or}
use gi_con_mon.Storage.Sql.{Table}
use gi_con_mon.Storage.Json.{Json, to_json, from_json}
use gi_con_mon.Storage.Sqlite.Rows.{EventRow, bool_to_int, is_one}
use gi_con_mon.Storage.Sqlite.Where.{event_conds, event_meets, all_meet}

-- `INSERT OR IGNORE`
unfoldable pub ignore_event : {Text : Type 0} → EventRow Text → EventRow Text → EventRow Text
ignore_event old new = old

-- The assignments of `AckEvent`.
unfoldable pub ack_row : {Text : Type 0} → String → Time → EventRow Text → EventRow Text
ack_row user_id now r = record r { acknowledged = pos 1; acked_by = user_id; acked_at = some now }

module _ {F : Type 0} (J : Json F) where
  -- The arguments of the INSERT.
  unfoldable pub event_row : Event F → EventRow J.Text
  event_row e = record {
    id = e.id;
    target_id = e.target_id;
    probe_node_id = e.probe_node_id;
    type = e.type;
    from_status = e.from_status;
    to_status = e.to_status;
    reason = e.reason;
    message = e.message;
    duration_ms = e.duration_ms;
    tags = to_json J.strings e.tags;
    meta = to_json J.any_map e.meta;
    timestamp = e.timestamp;
    acknowledged = bool_to_int e.acknowledged;
    acked_by = e.acked_by;
    acked_at = e.acked_at;
  }

  -- `scanEvent`
  unfoldable pub scan_event : EventRow J.Text → Event F
  unfolding from_json
  scan_event r = record {
    id = r.id;
    target_id = r.target_id;
    probe_node_id = r.probe_node_id;
    type = r.type;
    from_status = r.from_status;
    to_status = r.to_status;
    reason = r.reason;
    message = r.message;
    duration_ms = r.duration_ms;
    tags = from_json J.show J.strings r.tags J.strings.unset;
    meta = from_json J.show J.any_map r.meta J.any_map.unset;
    timestamp = r.timestamp;
    acknowledged = is_one r.acknowledged;
    acked_by = r.acked_by;
    acked_at = r.acked_at;
  }

  module _ (T : Table (EventRow J.Text)) where
    -- `SaveEvent`
    unfoldable pub save_event : Fault → Event F → T.State → T.State × Option StoreError
    unfolding exec event_row
    save_event fault e s = exec fault (T.insert ignore_event (event_row e)) s

    -- `GetEvent`
    unfoldable pub get_event : Fault → String → T.State → Result (Event F)
    unfolding query_row
    get_event fault id s = query_row fault scan_event (T.find id s)

    -- `ListEvents`; `upto` is the engine's order of the texts in which the driver writes two instants.
    unfoldable pub list_events :
        (Time → Time → Bool) → Fault → Fault → EventQuery → T.State → Result (Page (Event F))
    unfolding list_page
    list_events upto count_fault data_fault q s =
        list_page T count_fault data_fault scan_event
          (λ r. all_meet (event_meets upto r) (event_conds q)) (λ a b. upto b.timestamp a.timestamp)
          (limit_or (pos 50) q.limit) q.offset s

    -- `AckEvent`
    unfoldable pub ack_event :
        Fault → Time → String → String → T.State → T.State × Option StoreError
    unfolding exec ack_row
    ack_event fault now id user_id s = exec fault (T.update id (ack_row user_id now)) s
