-- ===== src/Probe/Http/Stored.antt =====
-- The options of a target that was stored and read back.
use gi_con_mon.Probe.Http.{HttpLib, judge, expected_codes, Trace, HttpResponse}
use gi_con_mon.Model.{
  ints, FloatOps, Anys, AnyMap, Any, cons, int, ints, float, nil, slice, bool, str, object, null,
  Target,
}
use gi_con_mon.Common.{
  none, some, ◌≡◌, refl, Option, List, lookup, String, ℤ, some, All, ◌∷◌, arith, [], if◌then◌else◌,
  str_eq, Bool, pos,
}
use gi_con_mon.Probe.Options.{str_or, int_slice_or, numbers, ints_in}
use gi_con_mon.Storage.Json.{view_map, view_anys, view_any, viewed, float_all}

-- Whole numbers that `float64` holds exactly.
module _ {F : Type 0} where
  abbrev pub Exact : FloatOps F → List ℤ → Type 0
  Exact fl ns = All (λ n. fl.to_int64 (fl.of_int n) ≡ n) ns

module _ (F : Type 0) ⦃fl : FloatOps F⦄ where
  numbers-float_all : (ns : List ℤ) → Exact fl ns → numbers (float_all {F = F} ns) ≡ ns
  unfolding numbers
  numbers-float_all [] h = refl
  numbers-float_all (n ∷ ns) h = rw (h.0, numbers-float_all ns h.1) refl

module _ {F : Type 0} ⦃fl : FloatOps F⦄ where
  abbrev pub ExactIn : Anys F → Type 0
  ExactIn nil = Unit
  ExactIn (cons (int n) vs) = (fl.to_int64 (fl.of_int n) ≡ n) × ExactIn vs
  ExactIn (cons v vs) = ExactIn vs

  -- What is asked of the option of a list of numbers.
  abbrev pub ExactOption : Option (Any F) → Type 0
  ExactOption (some (ints ns)) = Exact fl ns
  ExactOption (some (slice vs)) = ExactIn vs
  ExactOption _ = Unit

  lookup-view_map : (k : String) (m : AnyMap F) → lookup k (view_map m) ≡ viewed (lookup k m)
  unfolding lookup view_map
  lookup-view_map k [] = refl
  lookup-view_map k ((j, v) ∷ m) = ground (arith, lookup-view_map k m)

  numbers-view_anys : (vs : Anys F) → ExactIn vs → numbers (view_anys vs) ≡ numbers vs
  unfolding numbers view_anys view_any
  numbers-view_anys nil h = refl
  numbers-view_anys (cons (int n) vs) h = rw (h.0, numbers-view_anys vs h.1) refl
  numbers-view_anys (cons (float x) vs) h = rw (numbers-view_anys vs h) refl
  numbers-view_anys (cons null vs) h = numbers-view_anys vs h
  numbers-view_anys (cons (bool b) vs) h = numbers-view_anys vs h
  numbers-view_anys (cons (str s) vs) h = numbers-view_anys vs h
  numbers-view_anys (cons (ints ns) vs) h = numbers-view_anys vs h
  numbers-view_anys (cons (slice ws) vs) h = numbers-view_anys vs h
  numbers-view_anys (cons (object fields) vs) h = numbers-view_anys vs h

  ints_in-view_any :
      (v : Any F) (default : List ℤ)
      → ExactOption (some v)
      → ints_in (view_any v) default ≡ ints_in v default
  unfolding view_any
  ints_in-view_any (ints ns) default h = numbers-float_all F ns h
  ints_in-view_any (slice vs) default h = numbers-view_anys vs h
  ints_in-view_any null default h = refl
  ints_in-view_any (bool b) default h = refl
  ints_in-view_any (int n) default h = refl
  ints_in-view_any (float x) default h = refl
  ints_in-view_any (str s) default h = refl
  ints_in-view_any (object fields) default h = refl

  int_slice_or-view_map :
      (m : AnyMap F) (k : String) (default : List ℤ)
      → ExactOption (lookup k m)
      → int_slice_or (view_map m) k default ≡ int_slice_or m k default
  unfolding int_slice_or
  int_slice_or-view_map m k default h =
      rw (lookup-view_map k m, int_slice_or) (either (lookup k m) h)
    where
      either :
          (o : Option (Any F))
          → ExactOption o
          → elim (viewed o) [ none ↦ default | some v ↦ ints_in v default ]
            ≡ elim o [ none ↦ default | some v ↦ ints_in v default ]
      either none h = refl
      either (some v) h = ints_in-view_any v default h

  str_or-view_map :
      (m : AnyMap F) (k default : String) → str_or (view_map m) k default ≡ str_or m k default
  unfolding str_or view_any
  str_or-view_map m k default = rw (lookup-view_map k m, str_or) (either (lookup k m))
    where
      either :
          (o : Option (Any F))
          → elim (viewed o) [
            | none ↦ default
            | some v ↦ elim v [ str s ↦ if str_eq s "" then default else s | _ ↦ default ]
          ]
            ≡ elim o [
              | none ↦ default
              | some v ↦ elim v [ str s ↦ if str_eq s "" then default else s | _ ↦ default ]
            ]
      either none = refl
      either (some null) = refl
      either (some (bool b)) = refl
      either (some (int n)) = refl
      either (some (float x)) = refl
      either (some (str s)) = refl
      either (some (ints ns)) = refl
      either (some (slice vs)) = refl
      either (some (object fields)) = refl

  module _ {H : Type 0} (lib : HttpLib F H) where
    -- An answer is judged by the options of a target, behind JSON that accepts them, as by those it had
    -- before, if `float64` holds the expected status codes exactly.
    pub judge_stored :
        (t : Target F) (use_tls : Bool) (trace : Trace) (resp : HttpResponse)
        → ExactOption (lookup "expected_codes" t.probe_config)
        → judge lib (record t { probe_config = view_map t.probe_config }) use_tls trace resp
          ≡ judge lib t use_tls trace resp
    unfolding judge expected_codes
    judge_stored t use_tls trace resp exact =
        rw
          (
            int_slice_or-view_map t.probe_config "expected_codes" (pos 200 ∷ []) exact,
            str_or-view_map t.probe_config "body_contains" "",
          )
          refl
