-- ===== src/Cmd/Alerting/Silence.antt =====
-- The rule that cmd/conmon/server.go puts in where none is configured, in the alert engine.
use gi_con_mon.Common.{
  String, ◌≡◌, refl, Option, none, some, [], ◌∷◌, map, ℕ, if◌then◌else◌, false, inl, inr, lookup,
  Bool-cases, subst, sym, pos,
}
use gi_con_mon.Model.{Target, Event, Time}
use gi_con_mon.Alerter.Rules.{match_rule, went_down, eval_simple_condition}
use gi_con_mon.Alerter.Engine.{Engine, Reading, Formats, throttled, throttle_key}
use gi_con_mon.Alerter.Process.{process, process_rule, process_rules, dispatch, dispatch_to}
use gi_con_mon.Cmd.Alerting.{build_rules, rules_of, default_down}

-- A throttle of 0 holds nothing back.
unthrottled : (o : Option Time) (now : Time) → throttled o (pos 0) now ≡ false
unfolding throttled
unthrottled none now = refl
unthrottled (some last) now = refl

module _ {F : Type 0} (formats : Formats) (get_target : String → Option (Target F))
    (readings : ℕ → Reading) (event : Event F) (target : Target F) (e : Engine F) where
  process_rules-default_down :
      map
        (λ d. d.deliveries)
        (process_rules formats readings 0 (default_down ∷ []) event target e).1
      ≡ (if went_down event then [] ∷ [] else [])
  unfolding process_rules process_rule match_rule eval_simple_condition dispatch dispatch_to
  process_rules-default_down = elim (Bool-cases (went_down event)) [
    | inl fell ↦ rw (
      fell,
      unthrottled (lookup (throttle_key event default_down) e.throttle) (readings 0).checked,
    )
    | inr stood ↦ rw (stood)
  ]

  -- With no rule configured, an engine with the rules of `buildRules` makes exactly one alert of every
  -- event of a known target that goes to DOWN, throttled by nothing, and sends it to nobody; of any
  -- other event it makes none.
  pub default_rule_sends_nothing :
      e.rules ≡ build_rules []
      → get_target event.target_id ≡ some target
      → map (λ d. d.deliveries) (process formats get_target readings event e).1
        ≡ (if went_down event then [] ∷ [] else [])
  unfolding process build_rules rules_of
  default_rule_sends_nothing rules found =
      rw (found, process)
        (subst
          (λ rs.
            map (λ d. d.deliveries) (process_rules formats readings 0 rs event target e).1
            ≡ (if went_down event then [] ∷ [] else []))
          (sym rules) process_rules-default_down)
