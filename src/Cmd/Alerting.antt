-- ===== src/Cmd/Alerting.antt =====
-- cmd/conmon/server.go: `buildRules` and `buildChannels`.
pub mod Silence
use gi_con_mon.Common.{String, ◌≡◌, refl, List, [], ◌∷◌, if◌then◌else◌, str_eq, pos}
use gi_con_mon.Model.{severity_error}
use gi_con_mon.Config
use gi_con_mon.Alerter.Rules.{RuleConfig}
use gi_con_mon.Alerter.Engine.{ChannelConfig}

-- One turn of the loop of `buildRules`: a rule with no severity gets "error".
unfoldable pub rule_of : Config.RuleConfig → RuleConfig
rule_of r = record {
  name = r.name;
  condition = r.condition;
  channels = r.channels;
  severity = if str_eq r.severity "" then severity_error else r.severity;
  throttle = r.throttle;
  escalate_after = r.escalate_after;
  template = r.template;
}

unfoldable pub rules_of : List Config.RuleConfig → List RuleConfig
unfolding rule_of
rules_of [] = []
rules_of (r ∷ rs) = rule_of r ∷ rules_of rs

-- The rule that stands in where none is configured.
abbrev pub default_down : RuleConfig
default_down = record {
  name = "default_down";
  condition = "event.to_status == 'DOWN'";
  channels = [];
  severity = severity_error;
  throttle = pos 0;
  escalate_after = pos 0;
  template = "";
}

abbrev pub or_default : List RuleConfig → List RuleConfig
or_default [] = default_down ∷ []
or_default (r ∷ rs) = r ∷ rs

-- `buildRules`
unfoldable pub build_rules : List Config.RuleConfig → List RuleConfig
unfolding rules_of
build_rules rs = or_default (rules_of rs)

module _ {F : Type 0} where
  -- `buildChannels`
  unfoldable pub build_channels : List (Config.ChannelConfig F) → List (ChannelConfig F)
  build_channels [] = []
  build_channels (ch ∷ chs) =
      record { name = ch.name; type = ch.type; config = ch.config } ∷ build_channels chs
