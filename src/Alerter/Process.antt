-- ===== src/Alerter/Process.antt =====
-- internal/alerter/engine.go: `Process`, `storeAlert` and `dispatch`.
use Prim.Native.Nat.{◌+◌}
use gi_con_mon.Common.{String, Option, none, some, List, [], ◌∷◌, if◌then◌else◌, lookup, insert, ℕ}
use gi_con_mon.Model.{Target, Event, Alert}
use gi_con_mon.Alerter.Rules.{RuleConfig, match_rule}
use gi_con_mon.Alerter.Build.{build_alert}
use gi_con_mon.Alerter.Engine.{
  ChannelConfig, Notifier, Message, Engine, Delivery, Dispatched, Reading, Formats, throttle_key,
  throttled,
}

module _ {F : Type 0} where
  -- The two look-ups of `dispatch` for one channel; without either the channel is skipped.
  unfoldable pub resolve_channel : Engine F → String → Option (ChannelConfig F × Notifier)
  resolve_channel e channel = elim (lookup channel e.channels) [
    | none ↦ none
    | some cfg ↦ elim (lookup cfg.type e.notifiers) [ none ↦ none | some n ↦ some (cfg, n) ]
  ]

  unfoldable pub deliver : Message F → String → ChannelConfig F × Notifier → Delivery F
  deliver msg channel (cfg, n) = record {
    channel = channel;
    notifier = n;
    message = msg;
    config = cfg.config;
  }

  -- The loop of `dispatch` over the rule's channels.
  unfoldable pub dispatch_to : Engine F → Message F → List String → List (Delivery F)
  unfolding resolve_channel deliver
  dispatch_to e msg [] = []
  dispatch_to e msg (channel ∷ rest) =
      let others = dispatch_to e msg rest in
      elim (resolve_channel e channel) [
        | none ↦ others
        | some found ↦ deliver msg channel found ∷ others
      ]

  -- `dispatch`
  unfoldable pub dispatch : Engine F → Alert → RuleConfig → Event F → Target F → List (Delivery F)
  unfolding dispatch_to
  dispatch e alert rule event target =
      dispatch_to e
        (record {
          title = alert.title;
          body = alert.body;
          severity = alert.severity;
          alert = alert;
          event = event;
          target = target;
        })
        rule.channels

  -- `storeAlert`
  unfoldable pub store_alert : Alert → Engine F → Engine F
  store_alert a e = record e { alerts = insert a.id a e.alerts }

  -- The body of `Process`'s loop for one rule: what it stores and what it dispatches, if anything.
  unfoldable pub process_rule :
      Formats
      → Reading
      → RuleConfig
      → Event F
      → Target F
      → Engine F
      → Engine F × Option (Dispatched F)
  unfolding store_alert
  process_rule formats reading rule event target e =
      let key = throttle_key event rule in
      let alert = build_alert formats reading rule event target in
      let e' = store_alert alert (record e { throttle = insert key reading.stored e.throttle }) in
      if match_rule rule event
      then if throttled (lookup key e.throttle) rule.throttle reading.checked
        then (e, none)
        else (e', some (record { alert = alert; deliveries = dispatch e' alert rule event target }))
      else (e, none)

  abbrev pub add_dispatched : Option (Dispatched F) → List (Dispatched F) → List (Dispatched F)
  add_dispatched none ds = ds
  add_dispatched (some d) ds = d ∷ ds

  -- The loop of `Process`; the readings are those for the i-th rule on.
  unfoldable pub process_rules :
      Formats
      → (ℕ → Reading)
      → ℕ
      → List RuleConfig
      → Event F
      → Target F
      → Engine F
      → Engine F × List (Dispatched F)
  process_rules formats readings i [] event target e = (e, [])
  process_rules formats readings i (rule ∷ rules) event target e =
      let (e', d) = process_rule formats (readings i) rule event target e in
      let (e'', ds) = process_rules formats readings (i + 1) rules event target e' in
      (e'', add_dispatched d ds)

  -- `Process`
  unfoldable pub process :
      Formats
      → (String → Option (Target F))
      → (ℕ → Reading)
      → Event F
      → Engine F
      → Engine F × List (Dispatched F)
  process formats get_target readings event e = elim (get_target event.target_id) [
    | none ↦ (e, [])
    | some target ↦ process_rules formats readings 0 e.rules event target e
  ]
