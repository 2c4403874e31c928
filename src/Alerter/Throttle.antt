-- ===== src/Alerter/Throttle.antt =====
-- The throttle of internal/alerter/engine.go: how far apart two alerts of one rule for one target are.
use gi_con_mon.Common.{
  String, ◌≡◌, Option, some, none, false, arith, List, [], ◌∷◌, inl, inr, All, ℕ, ◌≤◌, ◌<◌, ◌+◌,
  pos, lookup, lookup-insert, insert, saturate, Assoc, lookup-insert_self, subst, Option-cases,
  str_append,
}
use gi_con_mon.Model.{Time, Target, Event, sub, Duration}
use gi_con_mon.Alerter.Rules.{RuleConfig}
use gi_con_mon.Alerter.Engine.{Engine, Reading, Formats, Dispatched, throttled, throttle_key}
use gi_con_mon.Alerter.Process.{process, process_rule, process_rules}
use gi_con_mon.Alerter.Lifecycle.{ack_alert, resolve_by_target}
use gi_con_mon.Alerter.Calls.{Call, notify, acknowledge, resolve, perform, perform_all}

-- The stamp of the key is there, and not before `lo`.
abbrev StampedFrom : Time → Option Time → Type 0
StampedFrom lo none = ⊥
StampedFrom lo (some last) = lo ≤ last

-- A throttle that does not hold an alert back has run its time.
throttled-false :
    (n : ℕ) (last now : Time) → 0 < n → throttled (some last) (pos n) now ≡ false → last + n ≤ now
unfolding throttled sub saturate
throttled-false n last now h k = ground arith

due :
    (n : ℕ) (lo now : Time) (limit : Duration) (o : Option Time)
    → 0 < n
    → limit ≡ pos n
    → StampedFrom lo o
    → throttled o limit now ≡ false
    → lo + n ≤ now
due n lo now limit none h e s k = absurd s
due n lo now limit (some last) h e s k = omega (arith, throttled-false n last now h (rw e at k))

StampedFrom-insert :
    (lo t : Time) (key k : String) (m : Assoc Time)
    → lo ≤ t
    → StampedFrom lo (lookup key m)
    → StampedFrom lo (lookup key (insert k t m))
StampedFrom-insert lo t key k m h s = ground (arith, lookup-insert k key t m)

module _ {F : Type 0} (formats : Formats) (lo : Time) (key : String) where
  abbrev Stamped : Engine F → Type 0
  Stamped e = StampedFrom lo (lookup key e.throttle)

  process_rule-Stamped :
      (reading : Reading) (rule : RuleConfig) (event : Event F) (target : Target F) (e : Engine F)
      → lo ≤ reading.stored
      → Stamped e
      → Stamped (process_rule formats reading rule event target e).0
  unfolding process_rule
  process_rule-Stamped reading rule event target e h s =
      ground
        (arith, StampedFrom-insert lo reading.stored key (throttle_key event rule) e.throttle h s)

  process_rules-Stamped :
      (readings : ℕ → Reading) (i : ℕ) (rules : List RuleConfig) (event : Event F)
      (target : Target F) (e : Engine F)
      → ((j : ℕ) → lo ≤ (readings j).stored)
      → Stamped e
      → Stamped (process_rules formats readings i rules event target e).0
  unfolding process_rules
  process_rules-Stamped readings i [] event target e h s = s
  process_rules-Stamped readings i (rule ∷ rules) event target e h s =
      process_rules-Stamped readings (i + 1) rules event target
        (process_rule formats (readings i) rule event target e).0 h
        (process_rule-Stamped (readings i) rule event target e (h i) s)

  module _ (get_target : String → Option (Target F)) where
    -- Every reading of the call is at `lo` or later.
    abbrev pub NotBefore : Call F → Type 0
    NotBefore (notify readings event) = (j : ℕ) → lo ≤ (readings j).stored
    NotBefore (acknowledge id) = Unit
    NotBefore (resolve now target_id) = Unit

    perform-Stamped :
        (c : Call F) (e : Engine F)
        → NotBefore c
        → Stamped e
        → Stamped (perform formats get_target c e)
    unfolding perform process ack_alert resolve_by_target
    perform-Stamped (notify readings event) e h s =
        elim (Option-cases (get_target event.target_id)) [
          | inl missing ↦ rw (missing, perform, process) s
          | inr (target, found) ↦
              rw (found, perform, process)
                (process_rules-Stamped readings 0 e.rules event target e h s)
        ]
    perform-Stamped (acknowledge id) e h s = ground arith
    perform-Stamped (resolve now target_id) e h s = s

    perform_all-Stamped :
        (cs : List (Call F)) (e : Engine F)
        → All NotBefore cs
        → Stamped e
        → Stamped (perform_all formats get_target cs e)
    unfolding perform_all
    perform_all-Stamped [] e a s = s
    perform_all-Stamped (c ∷ cs) e a s =
        perform_all-Stamped cs (perform formats get_target c e) a.1 (perform-Stamped c e a.0 s)

module _ {F : Type 0} (formats : Formats) where
  -- Whoever dispatches leaves the stamp of its key.
  stamp-process_rule :
      (reading : Reading) (rule : RuleConfig) (event : Event F) (target : Target F) (e : Engine F)
      (d : Dispatched F)
      → (process_rule formats reading rule event target e).1 ≡ some d
      → lookup
          (throttle_key event rule)
          (process_rule formats reading rule event target e).0.throttle
        ≡ some reading.stored
  unfolding process_rule
  stamp-process_rule reading rule event target e d h =
      ground (arith, lookup-insert_self (throttle_key event rule) reading.stored e.throttle)

  -- Whoever dispatches was not throttled.
  dispatches_when_due :
      (reading : Reading) (rule : RuleConfig) (event : Event F) (target : Target F) (e : Engine F)
      (d : Dispatched F)
      → (process_rule formats reading rule event target e).1 ≡ some d
      → throttled (lookup (throttle_key event rule) e.throttle) rule.throttle reading.checked
        ≡ false
  unfolding process_rule
  dispatches_when_due reading rule event target e d h = ground arith

  -- Between two alerts of one rule for one target lies at least the rule's throttle, whatever calls
  -- come in between: from the instant that the first stores to the instant that the second checks.
  -- The clock does not go back in between.
  pub throttle_spacing :
      (get_target : String → Option (Target F)) (n : ℕ) (rule : RuleConfig) (first second : Reading)
      (event event' : Event F) (target target' : Target F) (e : Engine F) (cs : List (Call F))
      (d d' : Dispatched F)
      → rule.throttle ≡ pos n
      → 0 < n
      → event'.target_id ≡ event.target_id
      → All (NotBefore formats first.stored (throttle_key event rule) get_target) cs
      → (process_rule formats first rule event target e).1 ≡ some d
      → (process_rule formats second rule event' target'
          (perform_all formats get_target cs (process_rule formats first rule event target e).0)).1
        ≡ some d'
      → first.stored + n ≤ second.checked
  throttle_spacing get_target n rule first second event event' target target' e cs d d' limit h same
        later fired again =
      let e1 = (process_rule formats first rule event target e).0 in
      let e2 = perform_all formats get_target cs e1 in
      let stamped : StampedFrom first.stored (lookup (throttle_key event rule) e2.throttle) =
        perform_all-Stamped formats first.stored (throttle_key event rule) get_target cs e1 later
          (rw (stamp-process_rule first rule event target e d fired) (omega arith)) in
      due n first.stored second.checked rule.throttle (lookup (throttle_key event rule) e2.throttle)
        h limit stamped
        (subst
          (λ i.
            throttled (lookup (str_append i (str_append ":" rule.name)) e2.throttle) rule.throttle
              second.checked
            ≡ false)
          same (dispatches_when_due second rule event' target' e2 d' again))
