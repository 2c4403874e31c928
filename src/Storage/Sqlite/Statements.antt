-- ===== src/Storage/Sqlite/Statements.antt =====
-- internal/storage/sqlite/sqlite.go: what `ExecContext` and the two queries of a listing return.
use gi_con_mon.Common.{
  refl, ◌≡◌, true, false, Option, none, some, ℤ, pos, int_leb, if◌then◌else◌, map, Bool, ◌≡◌, false,
  true, ℕ, ◌<◌, arith,
}
use gi_con_mon.Storage.{Fault, StoreError, engine_error, no_rows, Result, ok, err, Page}
use gi_con_mon.Storage.Sql.{Table, merged}

-- A statement that changes a table, and its error.
unfoldable pub exec : {S : Type 0} → Fault → (S → S) → S → S × Option StoreError
exec none f s = (f s, none)
exec (some text) f s = (s, some (engine_error text))

-- `INSERT OR REPLACE`
unfoldable pub replace_row : {Row : Type 0} → Row → Row → Row
replace_row old new = new

pub merged-replace_row : {Row : Type 0} (o : Option Row) (r : Row) → merged replace_row o r ≡ r
unfolding replace_row
merged-replace_row none r = refl
merged-replace_row (some old) r = refl

-- `QueryRowContext` and the scan of its row.
unfoldable pub query_row : {Row A : Type 0} → Fault → (Row → A) → Option Row → Result A
query_row (some text) scan r = err (engine_error text)
query_row none scan none = err no_rows
query_row none scan (some r) = ok (scan r)

pub query_row-if :
    {Row A : Type 0} (scan : Row → A) (c : Bool) (r : Row) (o : Option Row)
    → query_row none scan (if c then some r else o)
      ≡ (if c then ok (scan r) else query_row none scan o)
unfolding query_row
query_row-if scan true r o = refl
query_row-if scan false r o = refl

pub query_row-missing :
    {Row A : Type 0} (scan : Row → A) (c : Bool) (o : Option Row)
    → query_row none scan (if c then none else o)
      ≡ (if c then err no_rows else query_row none scan o)
unfolding query_row
query_row-missing scan true o = refl
query_row-missing scan false o = refl

-- The default of a limit that is not positive.
abbrev pub limit_or : ℤ → ℤ → ℤ
limit_or default limit = if int_leb limit (pos 0) then default else limit

pub limit_or-pos : (default : ℤ) (n : ℕ) → 0 < n → limit_or default (pos n) ≡ pos n
limit_or-pos default n h = ground arith

module _ {Row A : Type 0} (T : Table Row) where
  -- The two queries of a listing: the number of all rows that match, then one page of them. An error in
  -- reading a row of the page is one of the second query.
  unfoldable pub list_page :
      Fault
      → Fault
      → (Row → A)
      → (Row → Bool)
      → (Row → Row → Bool)
      → ℤ
      → ℤ
      → T.State
      → Result (Page A)
  list_page (some text) data_fault scan test order limit offset s = err (engine_error text)
  list_page none (some text) scan test order limit offset s = err (engine_error text)
  list_page none none scan test order limit offset s =
      ok (record { items = map scan (T.select test order limit offset s); total = T.count test s })
