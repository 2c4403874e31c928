-- ===== src/Alerter/Dispatching.antt =====
-- Which rules of internal/alerter/engine.go make an alert of an event, and what is sent for it.
use gi_con_mon.Alerter.Build.{build_alert}
use text.Mathlib.TextLemmas.{append_cancel_left}
use gi_con_mon.Common.{
  String, ◌≡◌, ◌≢◌, refl, Option, some, none, Bool, not, ◌&&◌, arith, ◌∙◌, ap, List, [], ◌∷◌, map,
  inl, inr, lookup, Assoc, All, if◌then◌else◌, Bool-cases, ℕ, ◌+◌, lookup-insert_ne, str_append,
  insert,
}
use gi_con_mon.Model.{Time, Target, Event, Alert}
use gi_con_mon.Alerter.Rules.{RuleConfig, match_rule}
use gi_con_mon.Alerter.Reachable.{reachable, reachable-same, channels-dispatch}
use gi_con_mon.Alerter.Engine.{Dispatched, Engine, Reading, Formats, throttled, throttle_key}
use gi_con_mon.Alerter.Process.{process, process_rule, process_rules, store_alert, dispatch}

-- No two rules have one name.
abbrev pub Distinct : List RuleConfig → Type 0
Distinct [] = Unit
Distinct (rule ∷ rules) =
    All (λ (other : RuleConfig). rule.name ≢ other.name) rules × Distinct rules

ap-cons : {A : Type 0} {x y : A} {xs ys : List A} → x ≡ y → xs ≡ ys → x ∷ xs ≡ y ∷ ys
ap-cons h k = rw (h, k) refl

module _ {F : Type 0} where
  -- The rule asks for an alert at an instant, by the stamps as they are.
  unfoldable pub is_due : Reading → Event F → Assoc Time → RuleConfig → Bool
  is_due reading event stamps rule =
      match_rule rule event
      && not (throttled (lookup (throttle_key event rule) stamps) rule.throttle reading.checked)

  -- An alert that was dispatched, with the channels that it is sent to.
  abbrev pub notice : Dispatched F → Alert × List String
  notice d = (d.alert, map (λ x. x.channel) d.deliveries)

  -- The alerts of the rules that are due, each at its own reading, all by the stamps of the engine `e`, and
  -- to the channels that `e` can reach.
  unfoldable pub expected_notices :
      Formats
      → (ℕ → Reading)
      → ℕ
      → List RuleConfig
      → Event F
      → Target F
      → Engine F
      → List (Alert × List String)
  expected_notices formats readings i [] event target e = []
  expected_notices formats readings i (rule ∷ rules) event target e =
      let rest = expected_notices formats readings (i + 1) rules event target e in
      if is_due (readings i) event e.throttle rule
      then (build_alert formats (readings i) rule event target, reachable e rule.channels) ∷ rest
      else rest

  -- The stamps of the rules' keys are the same in both.
  abbrev SameStamps : Event F → Assoc Time → Assoc Time → List RuleConfig → Type 0
  SameStamps event m m' = All (λ (rule : RuleConfig).
      lookup (throttle_key event rule) m' ≡ lookup (throttle_key event rule) m)

  key_ne :
      (event : Event F) (rule other : RuleConfig)
      → rule.name ≢ other.name
      → throttle_key event rule ≢ throttle_key event other
  key_ne event rule other h e = h (
      append_cancel_left ":" rule.name other.name (
        append_cancel_left event.target_id (str_append ":" rule.name) (str_append ":" other.name)
          e))

  SameStamps-insert :
      (event : Event F) (rule : RuleConfig) (t : Time) (m m' : Assoc Time) (rules : List RuleConfig)
      → All (λ (other : RuleConfig). rule.name ≢ other.name) rules
      → SameStamps event m m' rules
      → SameStamps event m (insert (throttle_key event rule) t m') rules
  SameStamps-insert event rule t m m' [] d s = tt
  SameStamps-insert event rule t m m' (other ∷ rules) d s = (
    lookup-insert_ne (throttle_key event rule) (throttle_key event other) t m'
          (key_ne event rule other d.0)
        ∙ s.0,
    SameStamps-insert event rule t m m' rules d.1 s.1,
  )

  -- One rule: an alert exactly if it is due, and at most its own stamp is written.
  process_rule-due :
      (formats : Formats) (reading : Reading) (rule : RuleConfig) (event : Event F)
      (target : Target F) (e : Engine F)
      → let alert = build_alert formats reading rule event target in
        let e' =
          store_alert alert
            (record e { throttle = insert (throttle_key event rule) reading.stored e.throttle }) in
        process_rule formats reading rule event target e ≡ (
          if is_due reading event e.throttle rule
          then (
            e',
            some (record { alert = alert; deliveries = dispatch e' alert rule event target }),
          )
          else (e, none))
  unfolding process_rule is_due
  process_rule-due formats reading rule event target e = ground arith

  is_due-SameStamps :
      (reading : Reading) (event : Event F) (m m' : Assoc Time) (rule : RuleConfig)
      → lookup (throttle_key event rule) m' ≡ lookup (throttle_key event rule) m
      → is_due reading event m' rule ≡ is_due reading event m rule
  unfolding is_due
  is_due-SameStamps reading event m m' rule e = rw e

  process_rules-expected :
      (formats : Formats) (readings : ℕ → Reading) (i : ℕ) (rules : List RuleConfig)
      (event : Event F) (target : Target F) (before e : Engine F)
      → Distinct rules
      → SameStamps event before.throttle e.throttle rules
      → e.channels ≡ before.channels
      → e.notifiers ≡ before.notifiers
      → map notice (process_rules formats readings i rules event target e).1
        ≡ expected_notices formats readings i rules event target before
  unfolding process_rules expected_notices store_alert
  process_rules-expected formats readings i [] event target before e d s c n = refl
  process_rules-expected formats readings i (rule ∷ rules) event target before e d s c n =
      let alert = build_alert formats (readings i) rule event target in
      let e' =
        store_alert alert (record e {
          throttle = insert (throttle_key event rule) (readings i).stored e.throttle;
        }) in
      elim (Bool-cases (is_due (readings i) event e.throttle rule)) [
        | inl now_due ↦
            rw
              (
                process_rule-due,
                now_due,
                ← is_due-SameStamps (readings i) event before.throttle e.throttle rule s.0,
                now_due,
              )
              (ap-cons
                (ap (λ (channels : List String). (alert, channels))
                  (channels-dispatch e' alert rule event target
                    ∙ reachable-same before e' rule.channels c n))
                (process_rules-expected formats readings (i + 1) rules event target before e' d.1
                  (SameStamps-insert event rule (readings i).stored before.throttle e.throttle rules
                    d.0 s.1)
                  c n))
        | inr not_due ↦
            rw
              (
                process_rule-due,
                not_due,
                ← is_due-SameStamps (readings i) event before.throttle e.throttle rule s.0,
                not_due,
              )
              (process_rules-expected formats readings (i + 1) rules event target before e d.1 s.1 c
                n)
      ]

  SameStamps-refl :
      (event : Event F) (m : Assoc Time) (rules : List RuleConfig) → SameStamps event m m rules
  SameStamps-refl event m [] = tt
  SameStamps-refl event m (rule ∷ rules) = (refl, SameStamps-refl event m rules)

  -- The alerts that a call of `Process` stores and dispatches are those of the rules that match the
  -- event and are not throttled by the stamps at the start of the call, in the order of the rules, each
  -- built with its own reading: within one call no rule throttles another. Each is sent to the channels
  -- of its rule that are configured with a registered notifier, in their order, and to no other. The
  -- target is known and the names of the rules are pairwise distinct.
  pub alerts-process :
      (formats : Formats) (get_target : String → Option (Target F)) (readings : ℕ → Reading)
      (event : Event F) (target : Target F) (e : Engine F)
      → get_target event.target_id ≡ some target
      → Distinct e.rules
      → map notice (process formats get_target readings event e).1
        ≡ expected_notices formats readings 0 e.rules event target e
  unfolding process
  alerts-process formats get_target readings event target e found distinct =
      rw (found, process)
        (process_rules-expected formats readings 0 e.rules event target e e distinct
          (SameStamps-refl event e.throttle e.rules) refl refl)
