-- ===== src/Config/Validate.antt =====
-- internal/config/config.go: `validate`, and what a configuration that it accepts has.
use gi_con_mon.Common.{
  String, ◌≡◌, ◌≢◌, ◌↔◌, refl, arith, Option, none, some, List, [], ◌∷◌, if◌then◌else◌, str_eq,
  eq_iff, ℕ, ◌+◌, All,
}
use gi_con_mon.Config.Types.{Config, MonitorSpec}

-- The errors of `validate`, with the numbers and names that they print.
pub data ConfigError : Type 0 where
  empty_bind : ConfigError
  missing_name : ℕ → ConfigError
  missing_target missing_protocol : ℕ → String → ConfigError

module _ {F : Type 0} where
  -- The three tests on one monitor.
  unfoldable pub check_monitor : ℕ → MonitorSpec F → Option ConfigError
  check_monitor i m =
      if str_eq m.name ""
      then some (missing_name i)
      else if str_eq m.target ""
      then some (missing_target i m.name)
      else if str_eq m.protocol ""
      then some (missing_protocol i m.name)
      else none

  -- The loop of `validate`, from the i-th monitor on; it returns at the first error.
  unfoldable pub check_monitors : ℕ → List (MonitorSpec F) → Option ConfigError
  check_monitors i [] = none
  check_monitors i (m ∷ ms) =
      let rest = check_monitors (i + 1) ms in
      elim (check_monitor i m) [ none ↦ rest | some err ↦ some err ]

  -- `validate`; `none` is the nil error.
  unfoldable pub validate : Config F → Option ConfigError
  unfolding check_monitors check_monitor
  validate cfg =
      if str_eq cfg.server.bind "" then some empty_bind else check_monitors 0 cfg.monitors

  -- A monitor that names itself, its target and its protocol.
  abbrev pub IsNamed : MonitorSpec F → Type 0
  IsNamed m = (m.name ≢ "") × (m.target ≢ "") × (m.protocol ≢ "")

  check_monitor-none : (i : ℕ) (m : MonitorSpec F) → (check_monitor i m ≡ none) ↔ IsNamed m
  unfolding check_monitor
  check_monitor-none i m =
      ground (arith, eq_iff m.name "", eq_iff m.target "", eq_iff m.protocol "")

  check_monitors-none :
      (i : ℕ) (ms : List (MonitorSpec F)) → (check_monitors i ms ≡ none) ↔ All IsNamed ms
  unfolding check_monitors
  check_monitors-none i [] = (λ h. tt, λ h. refl)
  check_monitors-none i (m ∷ ms) =
      ground (arith, check_monitor-none i m, check_monitors-none (i + 1) ms)

  -- A configuration passes exactly if the server has an address to bind and every monitor has a
  -- name, a target and a protocol.
  pub validate-none :
      (cfg : Config F) → (validate cfg ≡ none) ↔ ((cfg.server.bind ≢ "") × All IsNamed cfg.monitors)
  unfolding validate
  validate-none cfg = ground (arith, eq_iff cfg.server.bind "", check_monitors-none 0 cfg.monitors)
