-- ===== src/Storage/Sqlite/Opening.antt =====
-- internal/storage/sqlite/sqlite.go: `Open` and `migrate`. The driver is an argument, with the printing of a
-- quoted text.
pub mod Again
use Prim.Native.String.{len, slice}
use gi_con_mon.Common.{
  String, ℕ, Option, none, some, List, [], ◌∷◌, ◌-◌, ltb, if◌then◌else◌, str_append,
}

-- What `sql.Open` comes to.
pub data Connected (Db : Type 0) : Type 0 where
  connected : Db → Connected Db
  not_connected : String → Connected Db

-- A database of the driver: what a path opens or why it does not, the number of its connections, what a
-- statement makes of it and what goes wrong, and its end.
pub record Driver : Type 1 where
  pub Db : Type 0
  pub open_path : String → Connected Db
  pub set_max_open : ℕ → Db → Db
  pub exec : String → Db → Db × Option String
  pub close : Db → Db
  pub quoted : String → String

-- The lines of a text.
unfoldable pub joined : List String → String
joined [] = ""
joined (line ∷ []) = line
joined (line ∷ next ∷ lines) = str_append line (str_append "\n" (joined (next ∷ lines)))

abbrev pub create_targets : List String
create_targets =
    "CREATE TABLE IF NOT EXISTS targets (" ∷ "\t\t\tid           TEXT PRIMARY KEY,"
    ∷ "\t\t\tname         TEXT NOT NULL," ∷ "\t\t\thost         TEXT NOT NULL,"
    ∷ "\t\t\tport         INTEGER DEFAULT 0," ∷ "\t\t\tprotocol     TEXT NOT NULL,"
    ∷ "\t\t\tinterval_sec INTEGER NOT NULL DEFAULT 30,"
    ∷ "\t\t\ttimeout_ms   INTEGER NOT NULL DEFAULT 5000,"
    ∷ "\t\t\tretries      INTEGER NOT NULL DEFAULT 3,"
    ∷ "\t\t\tpriority     TEXT NOT NULL DEFAULT 'normal'," ∷ "\t\t\ttags         TEXT DEFAULT '[]',"
    ∷ "\t\t\tdependencies TEXT DEFAULT '[]'," ∷ "\t\t\tprobe_ids    TEXT DEFAULT '[]',"
    ∷ "\t\t\talert_config TEXT DEFAULT '{}'," ∷ "\t\t\tprobe_config TEXT DEFAULT '{}',"
    ∷ "\t\t\thooks        TEXT," ∷ "\t\t\tmaintenance  TEXT,"
    ∷ "\t\t\tenabled      INTEGER NOT NULL DEFAULT 1," ∷ "\t\t\tcreated_at   DATETIME NOT NULL,"
    ∷ "\t\t\tupdated_at   DATETIME NOT NULL," ∷ "\t\t\tcreated_by   TEXT DEFAULT ''" ∷ "\t\t)" ∷ []

abbrev pub create_events : List String
create_events =
    "CREATE TABLE IF NOT EXISTS events (" ∷ "\t\t\tid           TEXT PRIMARY KEY,"
    ∷ "\t\t\ttarget_id    TEXT NOT NULL REFERENCES targets(id) ON DELETE CASCADE,"
    ∷ "\t\t\tprobe_node_id TEXT DEFAULT ''," ∷ "\t\t\ttype         TEXT NOT NULL,"
    ∷ "\t\t\tfrom_status  TEXT DEFAULT ''," ∷ "\t\t\tto_status    TEXT NOT NULL,"
    ∷ "\t\t\treason       TEXT DEFAULT ''," ∷ "\t\t\tmessage      TEXT DEFAULT '',"
    ∷ "\t\t\tduration_ms  INTEGER DEFAULT 0," ∷ "\t\t\ttags         TEXT DEFAULT '[]',"
    ∷ "\t\t\tmeta         TEXT DEFAULT '{}'," ∷ "\t\t\ttimestamp    DATETIME NOT NULL,"
    ∷ "\t\t\tacknowledged INTEGER NOT NULL DEFAULT 0," ∷ "\t\t\tacked_by     TEXT DEFAULT '',"
    ∷ "\t\t\tacked_at     DATETIME" ∷ "\t\t)" ∷ []

abbrev pub index_events : String
index_events = "CREATE INDEX IF NOT EXISTS idx_events_target ON events (target_id, timestamp)"

abbrev pub create_alerts : List String
create_alerts =
    "CREATE TABLE IF NOT EXISTS alerts (" ∷ "\t\t\tid                TEXT PRIMARY KEY,"
    ∷ "\t\t\tevent_id          TEXT,"
    ∷ "\t\t\ttarget_id         TEXT NOT NULL REFERENCES targets(id) ON DELETE CASCADE,"
    ∷ "\t\t\trule_name         TEXT DEFAULT ''," ∷ "\t\t\tseverity          TEXT NOT NULL,"
    ∷ "\t\t\tstatus            TEXT NOT NULL DEFAULT 'firing',"
    ∷ "\t\t\ttitle             TEXT DEFAULT ''," ∷ "\t\t\tbody              TEXT DEFAULT '',"
    ∷ "\t\t\tchannels          TEXT DEFAULT '[]'," ∷ "\t\t\tsent_at           DATETIME,"
    ∷ "\t\t\tresolved_at       DATETIME," ∷ "\t\t\tescalation_level  INTEGER DEFAULT 1,"
    ∷ "\t\t\tnext_escalate_at  DATETIME," ∷ "\t\t\tgroup_id          TEXT DEFAULT ''" ∷ "\t\t)" ∷ []

abbrev pub index_alerts : String
index_alerts = "CREATE INDEX IF NOT EXISTS idx_alerts_target ON alerts (target_id, sent_at)"

abbrev pub create_nodes : List String
create_nodes =
    "CREATE TABLE IF NOT EXISTS probe_nodes (" ∷ "\t\t\tid               TEXT PRIMARY KEY,"
    ∷ "\t\t\tname             TEXT," ∷ "\t\t\tlocation         TEXT,"
    ∷ "\t\t\tisp              TEXT," ∷ "\t\t\ttags             TEXT DEFAULT '[]',"
    ∷ "\t\t\tip_address       TEXT," ∷ "\t\t\tversion          TEXT,"
    ∷ "\t\t\tstatus           TEXT DEFAULT 'offline'," ∷ "\t\t\tlast_heartbeat   DATETIME,"
    ∷ "\t\t\tassigned_targets INTEGER DEFAULT 0," ∷ "\t\t\tcapabilities    TEXT DEFAULT '[]',"
    ∷ "\t\t\tregistered_at    DATETIME NOT NULL" ∷ "\t\t)" ∷ []

-- The statements of `migrate`, in their order.
unfoldable pub statements : List String
unfolding joined
statements =
    joined create_targets
    ∷ joined create_events
    ∷ index_events
    ∷ joined create_alerts
    ∷ index_alerts
    ∷ joined create_nodes
    ∷ []

-- `min`
unfoldable pub min : ℕ → ℕ → ℕ
min a b = if ltb a b then a else b

module _ (D : Driver) where
  -- The error for a statement: its first 50 bytes, quoted, and what went wrong.
  unfoldable pub exec_error : String → String → String
  unfolding min
  exec_error stmt text =
      str_append "exec "
        (str_append (D.quoted (slice stmt 0 (min 50 (len stmt)))) (str_append ": " text))

  -- The loop of `migrate`: it ends at the first statement that fails.
  unfoldable pub run_statements : List String → D.Db → D.Db × Option String
  unfolding exec_error
  run_statements [] db = (db, none)
  run_statements (stmt ∷ stmts) db =
      let (db', fault) = D.exec stmt db in
      elim fault [
        | none ↦ run_statements stmts db'
        | some text ↦ (db', some (exec_error stmt text))
      ]

  -- `migrate`
  unfoldable pub migrate : D.Db → D.Db × Option String
  unfolding run_statements statements
  migrate db = run_statements statements db

  -- `dsn`
  abbrev pub dsn : String → String
  dsn path =
      str_append "file:" (str_append path "?_journal_mode=WAL&_busy_timeout=30000&_foreign_keys=on")

  -- What `Open` returns, with the database as it is left: a store, or an error and a database that is closed.
  pub data Opening : Type 0 where
    store_ready : D.Db → Opening
    not_opened : String → Opening
    not_migrated : String → D.Db → Opening

  abbrev pub after_migrate : D.Db × Option String → Opening
  after_migrate (db, none) = store_ready db
  after_migrate (db, some text) = not_migrated (str_append "sqlite migrate: " text) (D.close db)

  abbrev pub after_connect : Connected D.Db → Opening
  after_connect (not_connected text) = not_opened (str_append "sqlite open: " text)
  after_connect (connected db) = after_migrate (migrate (D.set_max_open 1 db))

  -- `Open`
  unfoldable pub open_database : String → Opening
  unfolding migrate
  open_database path = after_connect (D.open_path (dsn path))
