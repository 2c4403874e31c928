-- ===== src/Probe/Options.antt =====
-- internal/probe/http.go: the helpers that read a target's options, and `failResult`.
use gi_con_mon.Common.{
  String, Bool, false, ◌||◌, none, some, List, [], ◌∷◌, if◌then◌else◌, str_eq, lookup, ℤ, pos,
  int_eqb,
}
use gi_con_mon.Model.{
  Time, is_zero, sub, microseconds, FloatOps, Any, int, float, str, bool, ints, slice, Anys, nil,
  cons, AnyMap, ProbeResult,
}

module _ {F : Type 0} where
  -- `strOr`
  unfoldable pub str_or : AnyMap F → String → String → String
  str_or m key default = elim (lookup key m) [
    | none ↦ default
    | some v ↦ elim v [ str s ↦ if str_eq s "" then default else s | _ ↦ default ]
  ]

  -- `boolOr`
  unfoldable pub bool_or : AnyMap F → String → Bool → Bool
  bool_or m key default = elim (lookup key m) [
    | none ↦ default
    | some v ↦ elim v [ bool b ↦ b | _ ↦ default ]
  ]

-- `containsInt`
unfoldable pub contains_int : List ℤ → ℤ → Bool
contains_int [] v = false
contains_int (s ∷ ss) v = int_eqb s v || contains_int ss v

module _ {F : Type 0} ⦃fl : FloatOps F⦄ where
  -- The loop of `intSliceOr`: what is no number is left out.
  unfoldable pub numbers : Anys F → List ℤ
  numbers nil = []
  numbers (cons (int n) rest) = n ∷ numbers rest
  numbers (cons (float x) rest) = fl.to_int64 x ∷ numbers rest
  numbers (cons other rest) = numbers rest

  abbrev pub ints_in : Any F → List ℤ → List ℤ
  ints_in (ints ns) default = ns
  ints_in (slice vs) default = numbers vs
  ints_in other default = default

  -- `intSliceOr`
  unfoldable pub int_slice_or : AnyMap F → String → List ℤ → List ℤ
  unfolding numbers
  int_slice_or m key default = elim (lookup key m) [ none ↦ default | some v ↦ ints_in v default ]

  -- `ms`
  unfoldable pub ms : Time → Time → F
  unfolding sub
  ms end start =
      if is_zero end || is_zero start
      then fl.zero
      else fl.div (fl.of_int (microseconds (sub end start))) (fl.of_int (pos 1000))

  -- `failResult`; the target is not read.
  unfoldable pub fail_result : Time → String → String → ProbeResult F
  fail_result now code msg = record {
    target_id = "";
    probe_node_id = "";
    seq = pos 0;
    timestamp = now;
    success = false;
    latency_ms = fl.zero;
    status_code = pos 0;
    error_code = code;
    error_msg = msg;
    detail = [];
  }
