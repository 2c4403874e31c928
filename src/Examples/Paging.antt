-- ===== src/Examples/Paging.antt =====
-- The theorem about the pages of internal/storage/sqlite/sqlite.go at a table of two events.
use std.HLevel.{hedberg}
use gi_con_mon.Common.{
  String, ◌≡◌, ◌<◌, subst, sym, refl, arith, Bool-cases, inl, inr, List, [], ℕ, none, pos, leb,
  str_eq, eq_iff, keep, values, insert, lookup,
}
use gi_con_mon.Storage.{EventQuery}
use gi_con_mon.Storage.Json.{Json, Codec}
use gi_con_mon.Storage.Sql.{Table, IsOrder, Listing}
use gi_con_mon.Storage.Sql.Sorting.{Apart, Apart-NoTies}
use gi_con_mon.Storage.Sql.Memory.{memory, memory-IsTable, rows-memory-IsTable}
use gi_con_mon.Storage.Sqlite.Rows.{EventRow}
use gi_con_mon.Storage.Sqlite.Events.{save_event, list_events}
use gi_con_mon.Storage.Sqlite.Events.Pages.{
  is_asked, asked, newest_first, page_of, pages_of_one_list,
}
use gi_con_mon.Examples.Storing.{occurred, of_web}
use gi_con_mon.Examples.Samples.{milli, web}

abbrev forgets : {A : Type 0} → A → Codec String A
forgets unset = record {
  marshal = λ a. none;
  empty = "";
  decode = λ text old. old;
  unset = unset;
  view = λ a. a;
}

-- A JSON library that writes nothing, as the lists and maps of the events are empty.
abbrev silent_json : Json ℕ
silent_json = record {
  Text = String;
  show = λ text. text;
  strings = forgets [];
  alert_config = forgets web.alert_config;
  any_map = forgets [];
  hooks = forgets none;
  maintenance = forgets none;
}

abbrev table : Table (EventRow String)
table = memory (λ r. r.id)

abbrev two_events : table.State
two_events =
    (save_event silent_json table none (occurred "e3" "web" 30)
      (save_event silent_json table none (occurred "e1" "web" 10) []).0).0

abbrev any_time : EventQuery
any_time = record of_web { since = 0 }

string_discrete : Discrete String
string_discrete a b = elim (Bool-cases (str_eq a b)) [
  | inl e ↦ yes ((eq_iff a b).0 e)
  | inr e ↦ no (λ p. ground (arith, eq_iff a b, e, p))
]

EventRow-IsSet : IsSet (EventRow String)
EventRow-IsSet = hlevel (hedberg string_discrete)

leb-IsOrder : IsOrder leb
leb-IsOrder = record { total = λ a b. ground arith; transitive = λ a b c h k. ground arith }

two_events-Apart :
    Apart
      (newest_first silent_json table (memory-IsTable (λ r. r.id)) leb leb-IsOrder)
      (asked silent_json table (memory-IsTable (λ r. r.id)) leb leb-IsOrder any_time two_events)
unfolding save_event keep values insert lookup
two_events-Apart =
    subst (λ rows. Apart (λ a b. leb b.timestamp a.timestamp) (keep (is_asked leb any_time) rows))
      (sym (rows-memory-IsTable (λ r. r.id) two_events)) ((refl, tt), (tt, tt))

pages_of_one_list_example :
    (xs : List (EventRow String)) × Listing
      (newest_first silent_json table (memory-IsTable (λ r. r.id)) leb leb-IsOrder)
      (asked silent_json table (memory-IsTable (λ r. r.id)) leb leb-IsOrder any_time two_events)
      xs
    × ((n k : ℕ)
        → 0 < n
        → list_events silent_json table leb none none
            (record any_time { limit = pos n; offset = pos k })
            two_events
          ≡ page_of silent_json table
              (memory-IsTable (λ r. r.id))
              leb
              leb-IsOrder
              any_time
              two_events
              xs
              n
              k)
pages_of_one_list_example =
    pages_of_one_list silent_json table (memory-IsTable (λ r. r.id)) leb leb-IsOrder any_time
      two_events
      (Apart-NoTies (newest_first silent_json table (memory-IsTable (λ r. r.id)) leb leb-IsOrder)
        EventRow-IsSet
        (asked silent_json table (memory-IsTable (λ r. r.id)) leb leb-IsOrder any_time two_events)
        two_events-Apart)
