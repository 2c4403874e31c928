-- ===== src/Storage/Sql.antt =====
-- The SQL engine, an argument of the storage. A table is an unknown state with the statements that the
-- storage issues; what SQLite documents of them are the laws. A statement that fails changes nothing.
pub mod Memory
pub mod Sorting
use mathlib.Core.List.{Perm}
use gi_con_mon.Common.{
  ◌⊎◌, keep, String, ◌≡◌, Bool, true, false, not, Option, none, some, List, [], ◌∷◌, ℕ, zero, suc,
  ℤ, pos, negsuc, pos_part, length, All, if◌then◌else◌, str_eq,
}

-- The first rows, and the rows behind the first.
unfoldable pub take {ℓ} : {A : Type ℓ} → ℕ → List A → List A
take zero xs = []
take (suc n) [] = []
take (suc n) (x ∷ xs) = x ∷ take n xs

unfoldable pub drop {ℓ} : {A : Type ℓ} → ℕ → List A → List A
drop zero xs = xs
drop (suc n) [] = []
drop (suc n) (x ∷ xs) = drop n xs

-- `LIMIT ? OFFSET ?`: a negative limit is none, a negative offset is 0.
unfoldable pub window {ℓ} : {A : Type ℓ} → ℤ → ℤ → List A → List A
unfolding take drop
window (pos n) offset xs = take n (drop (pos_part offset) xs)
window (negsuc n) offset xs = drop (pos_part offset) xs

-- One table, with rows of a type. The arguments of a statement are the meaning of its clauses: a WHERE
-- clause is a test, an ORDER BY clause an order, a conflict clause what the old row and the new become.
pub record Table (Row : Type 0) : Type 1 where
  pub State : Type 0
  -- SELECT * WHERE id=?
  pub find : String → State → Option Row
  -- INSERT with its conflict clause
  pub insert : (Row → Row → Row) → Row → State → State
  -- UPDATE WHERE id=?
  pub update : String → (Row → Row) → State → State
  -- DELETE WHERE id=?
  pub remove : String → State → State
  -- DELETE WHERE
  pub delete : (Row → Bool) → State → State
  -- SELECT * WHERE, ORDER BY
  pub scan : (Row → Bool) → (Row → Row → Bool) → State → List Row
  -- the same, with LIMIT and OFFSET
  pub select : (Row → Bool) → (Row → Row → Bool) → ℤ → ℤ → State → List Row
  -- SELECT COUNT(*) WHERE
  pub count : (Row → Bool) → State → ℤ

-- The row that an INSERT leaves.
abbrev pub merged : {Row : Type 0} → (Row → Row → Row) → Option Row → Row → Row
merged conflict none new = new
merged conflict (some old) new = conflict old new

abbrev pub map_row : {A : Type 0} → (A → A) → Option A → Option A
map_row f none = none
map_row f (some r) = some (f r)

abbrev pub unless : {A : Type 0} → (A → Bool) → Option A → Option A
unless test none = none
unless test (some r) = if test r then none else some r

-- An order of rows by a column: any two rows are comparable.
pub record IsOrder {Row : Type 0} (order : Row → Row → Bool) : Type 0 where
  pub total : (a b : Row) → (order a b ≡ true) ⊎ (order b a ≡ true)
  pub transitive : (a b c : Row) → order a b ≡ true → order b c ≡ true → order a c ≡ true

abbrev pub Sorted : {Row : Type 0} → (Row → Row → Bool) → List Row → Type 0
Sorted order [] = Unit
Sorted order (r ∷ rs) = All (λ other. order r other ≡ true) rs × Sorted order rs

-- The rows, each as often as it is there, in an order.
abbrev pub Listing : {Row : Type 0} → (Row → Row → Bool) → List Row → List Row → Type 0
Listing order rows xs = Perm rows xs × Sorted order xs

-- What SQLite documents of the statements, with `id` as the primary key. No statement of the storage
-- changes the key of a row.
pub record IsTable {Row : Type 0} (id : Row → String) (T : Table Row) : Type 0 where
  pub find-insert :
      (conflict : Row → Row → Row) (r : Row) (j : String) (s : T.State)
      → T.find j (T.insert conflict r s)
        ≡ (if str_eq (id r) j then some (merged conflict (T.find (id r) s) r) else T.find j s)
  pub find-update :
      (k j : String) (f : Row → Row) (s : T.State)
      → T.find j (T.update k f s) ≡ (if str_eq k j then map_row f (T.find j s) else T.find j s)
  pub find-remove :
      (k j : String) (s : T.State)
      → T.find j (T.remove k s) ≡ (if str_eq k j then none else T.find j s)
  pub find-delete :
      (test : Row → Bool) (j : String) (s : T.State)
      → T.find j (T.delete test s) ≡ unless test (T.find j s)
  -- the rows of the table, in any order
  pub rows : T.State → List Row
  -- The order of rows that the order of the statement leaves open is chosen anew by each statement.
  pub select-Listing :
      (test : Row → Bool) (order : Row → Row → Bool) (limit offset : ℤ) (s : T.State)
      → IsOrder order
      → (xs : List Row) × Listing order (keep test (rows s)) xs
        × (T.select test order limit offset s ≡ window limit offset xs)
  pub count-rows :
      (test : Row → Bool) (s : T.State) → T.count test s ≡ pos (length (keep test (rows s)))
