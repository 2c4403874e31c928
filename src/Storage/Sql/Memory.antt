-- ===== src/Storage/Sql/Memory.antt =====
-- A table in memory, which shows that the laws of the SQL engine can hold.
use gi_con_mon.Common.{
  String, ◌≡◌, refl, arith, Bool, false, not, Option, none, some, [], ◌∷◌, pos, length, keep,
  if◌then◌else◌, str_eq, eq_iff, Assoc, lookup, insert, values, lookup-insert, inl, inr, ◌∙◌,
  Option-cases, delete, lookup-delete,
}
use gi_con_mon.Storage.Sql.Sorting.{sort, sort-Listing}
use gi_con_mon.Storage.Sql.{Table, IsTable, merged, map_row, unless, window}

module _ {Row : Type 0} where
  -- The entries whose key passes.
  unfoldable pub keep_keys : (String → Bool) → Assoc Row → Assoc Row
  keep_keys test [] = []
  keep_keys test ((k, r) ∷ m) =
      let rest = keep_keys test m in if test k then (k, r) ∷ rest else rest

  lookup-keep_keys :
      (test : String → Bool) (j : String) (m : Assoc Row)
      → lookup j (keep_keys test m) ≡ (if test j then lookup j m else none)
  unfolding lookup keep_keys
  lookup-keep_keys test j [] = ground arith
  lookup-keep_keys test j ((k, r) ∷ m) = ground (arith, lookup-keep_keys test j m, eq_iff k j)

  abbrev is_gone : (Row → Bool) → Option Row → Bool
  is_gone test none = false
  is_gone test (some r) = test r

  unfoldable pub update_row : String → (Row → Row) → Assoc Row → Assoc Row
  update_row k f m = elim (lookup k m) [ none ↦ m | some r ↦ insert k (f r) m ]

  unfoldable pub delete_rows : (Row → Bool) → Assoc Row → Assoc Row
  unfolding keep_keys
  delete_rows test m = keep_keys (λ k. not (is_gone test (lookup k m))) m

  lookup-update_row :
      (k j : String) (f : Row → Row) (m : Assoc Row)
      → lookup j (update_row k f m) ≡ (if str_eq k j then map_row f (lookup j m) else lookup j m)
  unfolding update_row
  lookup-update_row k j f m = elim (Option-cases (lookup k m)) [
    | inl missing ↦ rw (missing, update_row) (ground (arith, eq_iff k j))
    | inr (r, found) ↦
        rw (found, update_row) (ground (arith, lookup-insert k j (f r) m, eq_iff k j))
  ]

  lookup-delete_rows :
      (test : Row → Bool) (j : String) (m : Assoc Row)
      → lookup j (delete_rows test m) ≡ unless test (lookup j m)
  unfolding delete_rows
  lookup-delete_rows test j m =
      lookup-keep_keys (λ k. not (is_gone test (lookup k m))) j m ∙ gone_or_not (lookup j m)
    where
      gone_or_not : (o : Option Row) → (if not (is_gone test o) then o else none) ≡ unless test o
      gone_or_not none = refl
      gone_or_not (some r) = ground arith

module _ {Row : Type 0} (id : Row → String) where
  abbrev pub memory : Table Row
  memory = record {
    State = Assoc Row;
    find = λ j m. lookup j m;
    insert = λ conflict r m. insert (id r) (merged conflict (lookup (id r) m) r) m;
    update = λ k f m. update_row k f m;
    remove = λ k m. delete k m;
    delete = λ test m. delete_rows test m;
    scan = λ test order m. sort order (keep test (values m));
    select = λ test order limit offset m. window limit offset (sort order (keep test (values m)));
    count = λ test m. pos (length (keep test (values m)));
  }

  pub memory-IsTable : IsTable id memory
  memory-IsTable = record {
    find-insert = λ conflict r j m. lookup-insert (id r) j (merged conflict (lookup (id r) m) r) m;
    find-update = λ k j f m. lookup-update_row k j f m;
    find-remove = λ k j m. lookup-delete k j m;
    find-delete = λ test j m. lookup-delete_rows test j m;
    rows = λ m. values m;
    select-Listing = λ test order limit offset m lawful.
        (sort order (keep test (values m)), sort-Listing order lawful (keep test (values m)), refl);
    count-rows = λ test m. refl;
  }

  pub rows-memory-IsTable : (m : Assoc Row) → memory-IsTable.rows m ≡ values m
  unfolding memory-IsTable
  rows-memory-IsTable m = refl
