-- ===== src/Examples/Storing.antt =====
-- A database in memory, and the theorems about internal/storage/sqlite/sqlite.go at them.
use gi_con_mon.Storage.Json.{to_json, finite_map}
use gi_con_mon.Examples.Texts.{Text, plain_json, plain_json-IsJson}
use gi_con_mon.Storage.Sqlite.Rows.{EventRow}
use gi_con_mon.Storage.Store.{IsStore, Store}
use gi_con_mon.Storage.{EventQuery, ok}
use gi_con_mon.Common.{
  keep, values, insert, lookup, String, ◌≡◌, refl, [], ◌∷◌, Bool, ℕ, none, Assoc, pos, true, str_eq,
  str_append, false, leb,
}
use gi_con_mon.Model.{Time, Event, status_changed, up, down}
use gi_con_mon.Storage.Sql.Sorting.{sort}
use gi_con_mon.Storage.Sql.Memory.{memory, memory-IsTable}
use gi_con_mon.Storage.Sqlite.Store.{Database, IsDatabase, Contents, sqlite, sqlite-IsStore}
use gi_con_mon.Storage.Sqlite.Events.{save_event, list_events, scan_event}
use gi_con_mon.Storage.Sql.{window}
use gi_con_mon.Storage.Sqlite.Where.{all_meet, event_conds}
use gi_con_mon.Examples.Samples.{milli}

abbrev pub database : Database Text
database = record {
  targets = memory (λ r. r.id);
  events = memory (λ r. r.id);
  alerts = memory (λ r. r.id);
  nodes = memory (λ r. r.id);
}

pub database-IsDatabase : IsDatabase database
database-IsDatabase = record {
  targets_lawful = memory-IsTable (λ r. r.id);
  events_lawful = memory-IsTable (λ r. r.id);
  alerts_lawful = memory-IsTable (λ r. r.id);
  nodes_lawful = memory-IsTable (λ r. r.id);
}

abbrev pub empty : Contents database
empty = record { targets = []; events = []; alerts = []; nodes = [] }

abbrev pub like : String → String → Bool
like pattern text = str_eq pattern (str_append "%" (str_append text "%"))

abbrev pub by_name : String → String → Bool
by_name a b = true

-- One text for all instants.
abbrev pub written : Time → String
written t = ""

abbrev pub store : Store ℕ
store = sqlite plain_json database like by_name written

pub store-IsStore : IsStore store
store-IsStore =
    sqlite-IsStore plain_json database like by_name written plain_json-IsJson database-IsDatabase

abbrev pub nothing_stored : store.State
unfolding sqlite
nothing_stored = empty

sqlite-IsStore_example : IsStore (sqlite plain_json database like by_name written)
sqlite-IsStore_example =
    sqlite-IsStore plain_json database like by_name written plain_json-IsJson database-IsDatabase

-- Two events of one target and one of another.
abbrev pub occurred : String → String → Time → Event ℕ
occurred id target_id at = record {
  id = id;
  target_id = target_id;
  probe_node_id = "local";
  type = status_changed;
  from_status = up;
  to_status = down;
  reason = "tcp_timeout";
  message = "";
  duration_ms = pos 0;
  tags = [];
  meta = [];
  timestamp = at;
  acknowledged = false;
  acked_by = "";
  acked_at = none;
}

abbrev history : Assoc (EventRow Text)
history =
    (save_event plain_json database.events none (occurred "e3" "web" 30)
      (save_event plain_json database.events none (occurred "e2" "db" 20)
        (save_event plain_json database.events none (occurred "e1" "web" 10) []).0).0).0

abbrev pub of_web : EventQuery
of_web = record {
  target_id = "web";
  since = 15;
  until = 0;
  types = [];
  limit = pos 1;
  offset = pos 0;
}

-- The query finds the one event of the target that is late enough.
test_page :
    list_events plain_json database.events leb none none of_web history
    ≡ ok (record { items = occurred "e3" "web" 30 ∷ []; total = pos 1 })
unfolding list_events save_event window keep values insert all_meet event_conds lookup scan_event
    to_json finite_map sort
test_page = refl
