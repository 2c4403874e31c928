-- ===== src/Alerter/Rules.antt =====
-- internal/alerter/engine.go: the rules and how an event is matched against one.
use gi_con_mon.Common.{String, Bool, true, false, ◌&&◌, List, if◌then◌else◌, str_eq}
use gi_con_mon.Model.{Duration, Severity, up, down, status_eq, status_changed, EventType, Event}

-- `RuleConfig`
pub record RuleConfig : Type 0 where
  pub name : String
  pub condition : String
  pub channels : List String
  pub severity : Severity
  pub throttle : Duration
  pub escalate_after : Duration
  pub template : String

-- `event.Type == model.EventStatusChanged`
abbrev pub is_status_changed : EventType → Bool
is_status_changed status_changed = true
is_status_changed _ = false

abbrev pub down_condition : String
down_condition = "event.to_status == 'DOWN'"

abbrev pub up_condition : String
up_condition = "event.to_status == 'UP' && event.from_status == 'DOWN'"

module _ {F : Type 0} where
  unfoldable pub went_down : Event F → Bool
  went_down event = status_eq event.to_status down

  unfoldable pub came_up : Event F → Bool
  came_up event = status_eq event.to_status up && status_eq event.from_status down

  -- `evalSimpleCondition`
  unfoldable pub eval_simple_condition : String → Event F → Bool
  unfolding went_down came_up
  eval_simple_condition cond event =
      if str_eq cond down_condition
      then went_down event
      else if str_eq cond up_condition
      then came_up event
      else is_status_changed event.type

  -- `matchRule`; the target is not read.
  unfoldable pub match_rule : RuleConfig → Event F → Bool
  unfolding eval_simple_condition
  match_rule rule event =
      if str_eq rule.condition ""
      then false
      else if str_eq rule.condition "DOWN"
      then went_down event
      else if str_eq rule.condition "UP"
      then came_up event
      else eval_simple_condition rule.condition event
