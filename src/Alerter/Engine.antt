-- ===== src/Alerter/Engine.antt =====
-- internal/alerter/engine.go: the engine. Each stretch under the mutex is one step; `Process` is their
-- sequence for one event. What the code reads from outside is an argument: the wall clock and the
-- fresh identifiers (`Reading`), the look-up of a target, and the printing of numbers and dates.
use gi_con_mon.Common.{
  String, Bool, false, ◌&&◌, Option, none, some, List, [], ◌∷◌, Assoc, insert, ℤ, pos, int_ltb,
  str_append,
}
use gi_con_mon.Model.{Time, Duration, sub, AnyMap, Severity, Target, Event, Alert}
use gi_con_mon.Alerter.Rules.{RuleConfig}

-- `ChannelConfig`
pub record ChannelConfig (F : Type 0) : Type 0 where
  pub name : String
  pub type : String
  pub config : AnyMap F

-- A registered `Notifier`, by its name and type; what `Send` does is not the engine's.
pub record Notifier : Type 0 where
  pub name : String
  pub type : String

-- `Message`
pub record Message (F : Type 0) : Type 0 where
  pub title : String
  pub body : String
  pub severity : Severity
  pub alert : Alert
  pub event : Event F
  pub target : Target F

-- `Engine`, without `getTarget`, which is an argument of `process`.
pub record Engine (F : Type 0) : Type 0 where
  pub rules : List RuleConfig
  pub channels : Assoc (ChannelConfig F)
  pub notifiers : Assoc Notifier
  pub throttle : Assoc Time
  pub alerts : Assoc Alert

-- The goroutine that `dispatch` starts for one channel.
pub record Delivery (F : Type 0) : Type 0 where
  pub channel : String
  pub notifier : Notifier
  pub message : Message F
  pub config : AnyMap F

-- An alert that was stored and dispatched.
pub record Dispatched (F : Type 0) : Type 0 where
  pub alert : Alert
  pub deliveries : List (Delivery F)

-- The readings that `Process` takes for one rule, in their order: `time.Since`, `time.Now` for the
-- throttle, and in `buildAlert` the UUID and `time.Now`.
pub record Reading : Type 0 where
  pub checked : Time
  pub stored : Time
  pub uuid : String
  pub sent : Time

-- `fmt`'s and the templates' printing of a number, and the format "2006-01-02 15:04:05" of a time.
pub record Formats : Type 0 where
  pub decimal : ℤ → String
  pub date_time : Time → String

-- The loop of `New` over the notifiers.
unfoldable pub index_notifiers : List Notifier → Assoc Notifier → Assoc Notifier
index_notifiers [] m = m
index_notifiers (n ∷ ns) m = index_notifiers ns (insert n.type n m)

-- The test of the throttle; `none` is a key with no entry.
unfoldable pub throttled : Option Time → Duration → Time → Bool
throttled none limit now = false
throttled (some last_sent) limit now = int_ltb (pos 0) limit && int_ltb (sub now last_sent) limit

module _ {F : Type 0} where
  -- The loop of `New` over the channels.
  unfoldable pub index_channels :
      List (ChannelConfig F) → Assoc (ChannelConfig F) → Assoc (ChannelConfig F)
  index_channels [] m = m
  index_channels (ch ∷ chs) m = index_channels chs (insert ch.name ch m)

  -- `New`
  unfoldable pub new_engine : List RuleConfig → List (ChannelConfig F) → List Notifier → Engine F
  unfolding index_channels index_notifiers
  new_engine rules channels notifiers = record {
    rules = rules;
    channels = index_channels channels [];
    notifiers = index_notifiers notifiers [];
    throttle = [];
    alerts = [];
  }

  -- `event.TargetID + ":" + rule.Name`
  abbrev pub throttle_key : Event F → RuleConfig → String
  throttle_key event rule = str_append event.target_id (str_append ":" rule.name)
