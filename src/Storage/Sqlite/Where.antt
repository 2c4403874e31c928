-- ===== src/Storage/Sqlite/Where.antt =====
-- internal/storage/sqlite/sqlite.go: `buildTargetWhere`, `buildEventWhere` and the conditions of
-- `ListAlerts`. A condition has its SQL text, the arguments that are bound to it, and its meaning.
pub mod Placeholders
use gi_con_mon.Common.{
  String, Bool, true, not, ◌&&◌, ◌||◌, List, [], ◌∷◌, ◌++◌, if◌then◌else◌, str_eq, str_append,
}
use gi_con_mon.Model.{Time, is_zero, AlertStatus, alert_status_eq, any_status}
use gi_con_mon.Storage.{EventQuery, TargetQuery, AlertQuery}
use gi_con_mon.Storage.Sqlite.Rows.{TargetRow, EventRow, AlertRow}

-- A bound argument.
pub data Arg : Type 0 where
  text_arg : String → Arg
  time_arg : Time → Arg
  status_arg : AlertStatus → Arg

pub data Cond : Type 0 where
  protocol_is : String → Cond
  is_like : String → Cond
  target_is : String → Cond
  not_before : Time → Cond
  not_after : Time → Cond
  status_is : AlertStatus → Cond

abbrev pub clause : Cond → String
clause (protocol_is p) = "protocol=?"
clause (is_like pattern) = "(name LIKE ? OR host LIKE ?)"
clause (target_is id) = "target_id=?"
clause (not_before t) = "timestamp >= ?"
clause (not_after t) = "timestamp <= ?"
clause (status_is s) = "status=?"

abbrev pub args_of : Cond → List Arg
args_of (protocol_is p) = text_arg p ∷ []
args_of (is_like pattern) = text_arg pattern ∷ text_arg pattern ∷ []
args_of (target_is id) = text_arg id ∷ []
args_of (not_before t) = time_arg t ∷ []
args_of (not_after t) = time_arg t ∷ []
args_of (status_is s) = status_arg s ∷ []

-- `if cond { conds = append(conds, c) }`, in front of what follows
abbrev pub when : Bool → Cond → List Cond → List Cond
when test c rest = if test then c ∷ rest else rest

-- The conditions of `buildTargetWhere`; tags and statuses are not read.
unfoldable pub target_conds : TargetQuery → List Cond
target_conds q =
    when (not (str_eq q.protocol "")) (protocol_is q.protocol)
      (when (not (str_eq q.search "")) (is_like (str_append "%" (str_append q.search "%"))) [])

-- The conditions of `buildEventWhere`; the types are not read.
unfoldable pub event_conds : EventQuery → List Cond
event_conds q = when (not (str_eq q.target_id "")) (target_is q.target_id) (
    when (not (is_zero q.since)) (not_before q.since)
      (when (not (is_zero q.until)) (not_after q.until) []))

-- The conditions of `ListAlerts`; the severity is not read.
unfoldable pub alert_conds : AlertQuery → List Cond
alert_conds q =
    when (not (str_eq q.target_id "")) (target_is q.target_id)
      (when (not (alert_status_eq q.status any_status)) (status_is q.status) [])

-- `strings.Join(conds, " AND ")`
unfoldable pub join_and : List Cond → String
join_and [] = ""
join_and (c ∷ []) = clause c
join_and (c ∷ rest) = str_append (clause c) (str_append " AND " (join_and rest))

-- The text of the WHERE clause.
unfoldable pub where_text : List Cond → String
unfolding join_and
where_text [] = ""
where_text (c ∷ cs) = str_append " WHERE " (join_and (c ∷ cs))

-- The arguments, in the order of the conditions.
unfoldable pub where_args : List Cond → List Arg
where_args [] = []
where_args (c ∷ cs) = args_of c ++ where_args cs

-- What the conditions ask of a row, by the meaning of their texts. `like` is the engine's LIKE, on a
-- pattern and a text. A column that a table does not have is not asked for.
module _ {Text : Type 0} where
  abbrev pub target_meets : (String → String → Bool) → TargetRow Text → Cond → Bool
  target_meets like r (protocol_is p) = str_eq r.protocol p
  target_meets like r (is_like pattern) = like pattern r.name || like pattern r.host
  target_meets like r _ = true

  -- `upto` is the engine's order of the texts in which the driver writes two instants.
  abbrev pub event_meets : (Time → Time → Bool) → EventRow Text → Cond → Bool
  event_meets upto r (target_is id) = str_eq r.target_id id
  event_meets upto r (not_before t) = upto t r.timestamp
  event_meets upto r (not_after t) = upto r.timestamp t
  event_meets upto r _ = true

  abbrev pub alert_meets : AlertRow Text → Cond → Bool
  alert_meets r (target_is id) = str_eq r.target_id id
  alert_meets r (status_is s) = alert_status_eq r.status s
  alert_meets r _ = true

-- All conditions hold; with none, every row matches.
unfoldable pub all_meet : (Cond → Bool) → List Cond → Bool
all_meet meets [] = true
all_meet meets (c ∷ cs) = meets c && all_meet meets cs
