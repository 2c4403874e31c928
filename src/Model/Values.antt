-- ===== src/Model/Values.antt =====
-- Go's `any`, for the values that conMon puts into its maps, and `float64` behind its operations.
use gi_con_mon.Common.{String, Bool, Option, none, some, List, ℤ, Assoc}

-- A `float64` is an abstract type; these are the operations of Go that the code applies to it.
pub record FloatOps (F : Type 0) : Type 0 where
  pub zero : F
  pub one : F
  pub tenth : F
  -- `a > b`
  pub gt : F → F → Bool
  -- `a == b`
  pub eq : F → F → Bool
  pub add : F → F → F
  pub sub : F → F → F
  pub mul : F → F → F
  pub div : F → F → F
  -- `int64(a)` and `int(a)`
  pub to_int64 : F → ℤ
  -- `float64(n)`
  pub of_int : ℤ → F
  -- neither NaN nor an infinity
  pub finite : F → Bool
  -- `d.Seconds()` of a duration in nanoseconds
  pub seconds : ℤ → F

mutual
  pub data Any (F : Type 0) : Type 0 where
    null : Any F
    bool : Bool → Any F
    int : ℤ → Any F
    float : F → Any F
    str : String → Any F
    ints : List ℤ → Any F
    slice : Anys F → Any F
    object : Fields F → Any F

  pub data Anys (F : Type 0) : Type 0 where
    nil : Anys F
    cons : Any F → Anys F → Anys F

  pub data Fields (F : Type 0) : Type 0 where
    end : Fields F
    field : String → Any F → Fields F → Fields F

-- `map[string]any`; a nil map reads as the empty one.
abbrev pub AnyMap : Type 0 → Type 0
AnyMap F = Assoc (Any F)

module _ {F : Type 0} where
  -- `v.(int)`
  abbrev pub as_int : Option (Any F) → Option ℤ
  as_int (some (int n)) = some n
  as_int _ = none

  -- `v.(float64)`
  abbrev pub as_float : Option (Any F) → Option F
  as_float (some (float x)) = some x
  as_float _ = none
