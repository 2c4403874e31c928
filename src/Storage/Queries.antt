-- ===== src/Storage/Queries.antt =====
-- internal/storage/storage.go: the queries of the interface and what an operation returns.
use gi_con_mon.Common.{none, some, String, Option, List, ℤ}
use gi_con_mon.Model.{Time, EventType, Status, AlertStatus, Severity}

-- `EventQuery`
pub record EventQuery : Type 0 where
  pub target_id : String
  pub since : Time
  pub until : Time
  pub types : List EventType
  pub limit : ℤ
  pub offset : ℤ

-- `TargetQuery`
pub record TargetQuery : Type 0 where
  pub tags : List String
  pub statuses : List Status
  pub protocol : String
  pub search : String
  pub limit : ℤ
  pub offset : ℤ

-- `AlertQuery`
pub record AlertQuery : Type 0 where
  pub target_id : String
  pub status : AlertStatus
  pub severity : Severity
  pub limit : ℤ
  pub offset : ℤ

-- The error of an operation: the engine's, or `sql.ErrNoRows`.
pub data StoreError : Type 0 where
  engine_error : String → StoreError
  no_rows : StoreError

-- A value with a nil error, or an error.
pub data Result (A : Type 0) : Type 0 where
  ok : A → Result A
  err : StoreError → Result A

-- What the engine says of one statement: nothing, or the text of an error.
abbrev pub Fault : Type 0
Fault = Option String

-- The error that an operation returns for it.
abbrev pub error_of : Fault → Option StoreError
error_of none = none
error_of (some text) = some (engine_error text)

-- The rows of one page and the number of all that match.
pub record Page (A : Type 0) : Type 0 where
  pub items : List A
  pub total : ℤ
